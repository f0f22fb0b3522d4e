-- ===== src/Server/Status/Sorted.antt =====
-- internal/metrics/state.go: the keys that `SortedKeys` returns, which `/metrics` lists.
use mathlib.Core.List.{Pairwise, Pairwise-singleton, forall_mem-cons}
use mathlib.Core.List.Perm
use infer_flow.Prelude.{
  ℕ, ◌≡◌, refl, inl, inr, true, false, List, [], ◌∷◌, map, Mem, Perm, arith, Bool-cases,
}
use infer_flow.Text.{Text}
use infer_flow.Server.Status.{text_less, insert_key, sorted_keys}

-- `s` is not behind `t`.
abbrev pub IsBefore : Text → Text → Type 0
IsBefore s t = text_less t s ≡ false

pub text_less_asymm : (s t : Text) → text_less s t ≡ true → IsBefore s t
text_less_asymm s [] e = ground arith
text_less_asymm [] (d ∷ t) e = refl
text_less_asymm (c ∷ s) (d ∷ t) e = ground (arith, text_less_asymm s t)

pub IsBefore-trans : (s t u : Text) → IsBefore s t → IsBefore t u → IsBefore s u
IsBefore-trans [] t u p q = refl
IsBefore-trans (c ∷ s) [] u p q = absurd (ground arith)
IsBefore-trans (c ∷ s) (d ∷ t) [] p q = absurd (ground arith)
IsBefore-trans (c ∷ s) (d ∷ t) (b ∷ u) p q = ground (arith, IsBefore-trans s t u)

insert_key-perm : (k : Text) (ks : List Text) → Perm (insert_key k ks) (k ∷ ks)
unfolding insert_key
insert_key-perm k [] = Perm.rfl
insert_key-perm k (j ∷ ks) = elim (Bool-cases (text_less j k)) [
  | inl e ↦ rw (e, insert_key) (Perm.trans (Perm.cons j (insert_key-perm k ks)) (Perm.swap k j ks))
  | inr e ↦ rw (e, insert_key) Perm.rfl
]

abbrev pub IsAscending : List Text → Type 0
IsAscending = Pairwise IsBefore

below-insert_key :
    (j k : Text) (ks : List Text)
    → IsBefore j k
    → ((x : Text) → Mem x ks → IsBefore j x)
    → (x : Text) → Mem x (insert_key k ks)
    → IsBefore j x
below-insert_key j k ks p h x m =
    (forall_mem-cons (hlevel)).1 (p, h) x ((Perm.mem_iff (insert_key-perm k ks)).0 m)

insert_key-IsAscending :
    (k : Text) {ks : List Text} → IsAscending ks → IsAscending (insert_key k ks)
unfolding insert_key
insert_key-IsAscending k Pairwise.nil = Pairwise-singleton _ k
insert_key-IsAscending k (Pairwise.cons {a = j} {l = ks} below s) =
    elim (Bool-cases (text_less j k)) [
      | inl e ↦
          rw (e, insert_key)
            (Pairwise.cons (below-insert_key j k ks (text_less_asymm j k e) below)
              (insert_key-IsAscending k s))
      | inr e ↦
          rw (e, insert_key)
            (Pairwise.cons
              ((forall_mem-cons (hlevel)).1 (e, λ x m. IsBefore-trans k j x e (below x m)))
              (Pairwise.cons below s))
    ]

-- `SortedKeys` returns the keys of the map, each as often as it is there, in ascending order.
pub sorted_keys-IsAscending :
    (values : List (Text × ℕ))
    → Perm (sorted_keys values) (map (λ e. e.0) values) × IsAscending (sorted_keys values)
unfolding sorted_keys
sorted_keys-IsAscending [] = (Perm.rfl, Pairwise.nil)
sorted_keys-IsAscending (e ∷ values) =
    let (p, s) = sorted_keys-IsAscending values in
    (
      Perm.trans (insert_key-perm e.0 (sorted_keys values)) (Perm.cons e.0 p),
      insert_key-IsAscending e.0 s,
    )
