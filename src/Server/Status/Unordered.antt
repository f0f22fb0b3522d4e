-- ===== src/Server/Status/Unordered.antt =====
-- internal/server/server.go: `/metrics` does not tell in which order the requests came.
use mathlib.Core.Logic.{∥∥₁_elim}
use mathlib.Core.List.{Permᴰ}
use infer_flow.Prelude.{
  ℕ, ◌≡◌, refl, ap, ◌∙◌, inl, inr, true, false, List, [], ◌∷◌, Perm, arith, if◌then◌else◌,
  Bool-cases,
}
use infer_flow.Text.{Text}
use infer_flow.Metrics.{Metrics, snapshot}
use infer_flow.Metrics.Unordered.{counted, keys, Alike, counted-Alike}
use infer_flow.Server.State.{Server}
use infer_flow.Server.Status.{
  metrics_lines, text_less, insert_key, sorted_keys, value_at, label_lines, handle_metrics,
}
use infer_flow.Server.Status.Sorted.{IsBefore, IsBefore-trans, text_less_asymm}

-- Neither text is before the other.
IsBefore-antisymm : (s t : Text) → IsBefore s t → IsBefore t s → s ≡ t
IsBefore-antisymm [] [] p q = refl
IsBefore-antisymm [] (d ∷ t) p q = absurd (ground arith)
IsBefore-antisymm (c ∷ s) [] p q = absurd (ground arith)
IsBefore-antisymm (c ∷ s) (d ∷ t) p q = ground (arith, IsBefore-antisymm s t)

-- Two texts in front of a list come in the order that they have.
heads_swap :
    (a b : Text) (ks : List Text)
    → (if text_less b a then b ∷ a ∷ ks else a ∷ b ∷ ks)
      ≡ (if text_less a b then a ∷ b ∷ ks else b ∷ a ∷ ks)
heads_swap a b ks = elim (Bool-cases (text_less b a)) [
  | inl ba ↦ rw (ba, text_less_asymm b a ba) refl
  | inr ba ↦ elim (Bool-cases (text_less a b)) [
    | inl ab ↦ rw (ba, ab) refl
    | inr ab ↦ rw (ba, ab) (rw (IsBefore-antisymm a b ba ab) refl)
  ]
]

-- What is in front of `j`, where `b` is not, is in front of `b`.
less_between : (a b j : Text) → text_less j b ≡ true → text_less j a ≡ false → text_less a b ≡ true
less_between a b j jb ja = elim (Bool-cases (text_less a b)) [
  | inl ab ↦ ab
  | inr ab ↦ absurd (let bj = IsBefore-trans b a j ab ja in ground (arith, jb, bj))
]

insert_key_swap :
    (a b : Text) (ks : List Text) → insert_key a (insert_key b ks) ≡ insert_key b (insert_key a ks)
unfolding insert_key
insert_key_swap a b [] = heads_swap a b []
insert_key_swap a b (j ∷ ks) = elim (Bool-cases (text_less j b)) [
  | inl jb ↦ elim (Bool-cases (text_less j a)) [
    | inl ja ↦ rw (jb, ja, insert_key) (rw jb (ap (λ r. j ∷ r) (insert_key_swap a b ks)))
    | inr ja ↦ rw (jb, ja, insert_key) (rw (less_between a b j jb ja, jb) refl)
  ]
  | inr jb ↦ elim (Bool-cases (text_less j a)) [
    | inl ja ↦ rw (jb, ja, insert_key) (rw (less_between b a j ja jb, jb) refl)
    | inr ja ↦ rw (jb, ja, insert_key) (rw jb (heads_swap a b (j ∷ ks)))
  ]
]

sorted_of : List Text → List Text
sorted_of [] = []
sorted_of (k ∷ ks) = insert_key k (sorted_of ks)

sorted_keys-sorted_of : (m : List (Text × ℕ)) → sorted_keys m ≡ sorted_of (keys m)
unfolding sorted_keys sorted_of
sorted_keys-sorted_of [] = refl
sorted_keys-sorted_of (e ∷ m) = ap (insert_key e.0) (sorted_keys-sorted_of m)

sorted_of-same : {ks ks' : List Text} → Permᴰ ks ks' → sorted_of ks ≡ sorted_of ks'
unfolding sorted_of
sorted_of-same Permᴰ.nil = refl
sorted_of-same (Permᴰ.cons {a = a} {l₁ = xs} e d) = rw (← e) (ap (insert_key a) (sorted_of-same d))
sorted_of-same (Permᴰ.swap {a = a} {b = b} {l = xs} e f) =
    rw (← e, ← f) (insert_key_swap a b (sorted_of xs))
sorted_of-same (Permᴰ.trans d f) = sorted_of-same d ∙ sorted_of-same f

sorted_keys-Alike : (m m' : List (Text × ℕ)) → Alike m m' → sorted_keys m ≡ sorted_keys m'
sorted_keys-Alike m m' (same, p) =
    rw (sorted_keys-sorted_of m, sorted_keys-sorted_of m') (∥∥₁_elim p (hlevel) sorted_of-same)

-- What is recorded shows up in the maps of strategies and of backends.
abbrev pub recorded : {F : Type 0} → List Text → List Text → Metrics F → Metrics F
recorded strategies backends m = record m {
  strategy_counts = counted strategies m.strategy_counts;
  backend_counts = counted backends m.backend_counts;
}

value_at-Alike :
    (name : Text) (m m' : List (Text × ℕ)) → Alike m m' → value_at name m ≡ value_at name m'
unfolding value_at
value_at-Alike name m m' a = rw (a.0 name, value_at) refl

pub snapshot_same : (m : List (Text × ℕ)) → snapshot m ≡ m
unfolding snapshot
snapshot_same [] = refl
snapshot_same (e ∷ m) = ap (λ r. e ∷ r) (snapshot_same m)

module _ (quote : Text → Text) where
  label_lines-Alike :
      (prefix : Text) (m m' : List (Text × ℕ)) (names : List Text)
      → Alike m m'
      → label_lines quote prefix m names ≡ label_lines quote prefix m' names
  unfolding label_lines
  label_lines-Alike prefix m m' [] a = refl
  label_lines-Alike prefix m m' (name ∷ names) a =
      rw (value_at-Alike name m m' a, label_lines-Alike prefix m m' names a) refl

  listed-Alike :
      (prefix : Text) (m m' : List (Text × ℕ))
      → Alike m m'
      → label_lines quote prefix m (sorted_keys m) ≡ label_lines quote prefix m' (sorted_keys m')
  listed-Alike prefix m m' a =
      rw (sorted_keys-Alike m m' a) (label_lines-Alike prefix m m' (sorted_keys m') a)

  -- Whatever the order in which the same strategies and the same backends have been recorded, on top
  -- of any counts: `/metrics` answers the same text.
  pub handle_metrics_unordered :
      {S R F : Type 0} (s : Server S R F) (strategies strategies' backends backends' : List Text)
      → Perm strategies strategies'
      → Perm backends backends'
      → handle_metrics quote (record s { metrics = recorded strategies backends s.metrics })
        ≡ handle_metrics quote (record s { metrics = recorded strategies' backends' s.metrics })
  unfolding handle_metrics metrics_lines
  handle_metrics_unordered s strategies strategies' backends backends' p q =
      let by_strategy = s.metrics.strategy_counts in
      let by_backend = s.metrics.backend_counts in
      rw
        (
          snapshot_same (counted strategies by_strategy),
          snapshot_same (counted strategies' by_strategy),
          snapshot_same (counted backends by_backend),
          snapshot_same (counted backends' by_backend),
          listed-Alike _ _ _ (counted-Alike strategies strategies' by_strategy p),
          listed-Alike _ _ _ (counted-Alike backends backends' by_backend q),
        )
        refl
