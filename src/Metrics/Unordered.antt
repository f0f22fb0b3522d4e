-- ===== src/Metrics/Unordered.antt =====
-- internal/metrics/state.go: requests that run beside each other record their strategies and backends
-- in any order.
use mathlib.Core.Path.{subst}
use mathlib.Core.Logic.{∥∥₁_elim}
use mathlib.Core.List.{append_assoc}
use mathlib.Core.List.Perm
use mathlib.Core.List.{Permᴰ}
use infer_flow.Prelude.{
  ℕ, ◌≡◌, refl, sym, ap, ◌∙◌, inl, inr, false, List, [], ◌∷◌, ◌++◌, Option, none, some, map, Perm,
  arith, if◌then◌else◌, Option-cases, Bool-cases,
}
use infer_flow.Text.{Text, text_eq, text_beq, text_beq_iff}
use infer_flow.Assoc.{lookup, insert, lookup-insert}
use infer_flow.Int64.{add64}
use infer_flow.Metrics.{count_up}

-- The names, each recorded behind those that follow it.
unfoldable pub counted : List Text → List (Text × ℕ) → List (Text × ℕ)
counted [] m = m
counted (name ∷ names) m = count_up name (counted names m)

abbrev pub keys : List (Text × ℕ) → List Text
keys m = map (λ e. e.0) m

-- Two maps that read the same; a Go map has no order of its own.
abbrev pub Alike : List (Text × ℕ) → List (Text × ℕ) → Type 0
Alike m m' = ((k : Text) → lookup k m ≡ lookup k m') × Perm (keys m) (keys m')

-- The value that a counter goes on to.
abbrev succeeding : Option ℕ → ℕ
succeeding none = add64 0 1
succeeding (some n) = add64 n 1

count_up-insert :
    (name : Text) (m : List (Text × ℕ))
    → count_up name m ≡ insert name (succeeding (lookup name m)) m
unfolding count_up
count_up-insert name m = elim (Option-cases (lookup name m)) [
  | inl e ↦ rw (e, count_up) refl
  | inr (n, e) ↦ rw (e, count_up) refl
]

lookup-count_up :
    (name k : Text) (m : List (Text × ℕ))
    → lookup k (count_up name m)
      ≡ (if text_beq name k then some (succeeding (lookup name m)) else lookup k m)
lookup-count_up name k m =
    rw (count_up-insert name m) (lookup-insert name k (succeeding (lookup name m)) m)

-- A name that is not there yet comes last.
abbrev with_key : Option ℕ → Text → List Text → List Text
with_key none name ks = ks ++ name ∷ []
with_key (some n) name ks = ks

keys-insert :
    (name : Text) (v : ℕ) (m : List (Text × ℕ))
    → keys (insert name v m) ≡ with_key (lookup name m) name (keys m)
unfolding insert lookup
keys-insert name v [] = refl
keys-insert name v ((j, w) ∷ m) = elim (Bool-cases (text_beq j name)) [
  | inl same ↦
      let is_it : j ≡ name = (text_beq_iff j name).0 same in
      rw same (ap (λ k. k ∷ keys m) (sym is_it))
  | inr other ↦ rw other (go (lookup name m) (keys-insert name v m))
]
  where
    go :
        (o : Option ℕ)
        → keys (insert name v m) ≡ with_key o name (keys m)
        → j ∷ keys (insert name v m) ≡ with_key o name (j ∷ keys m)
    go none e = ap (λ ks. j ∷ ks) e
    go (some n) e = ap (λ ks. j ∷ ks) e

with_key-perm :
    (o : Option ℕ) (name : Text) {ks ks' : List Text}
    → Perm ks ks'
    → Perm (with_key o name ks) (with_key o name ks')
with_key-perm none name p = Perm.append_right (name ∷ []) p
with_key-perm (some n) name p = p

count_up-Alike :
    (name : Text) (m m' : List (Text × ℕ)) → Alike m m' → Alike (count_up name m) (count_up name m')
count_up-Alike name m m' (same, p) = (
  λ k. rw (lookup-count_up name k m, lookup-count_up name k m', same name, same k) refl,
  rw
      (
        count_up-insert name m,
        count_up-insert name m',
        keys-insert name _ m,
        keys-insert name _ m',
        same name,
      )
      (with_key-perm (lookup name m') name p),
)

with_key_swap :
    (oa ob : Option ℕ) (a b : Text) (ks : List Text)
    → Perm (with_key oa a (with_key ob b ks)) (with_key ob b (with_key oa a ks))
with_key_swap (some n) ob a b ks = Perm.rfl
with_key_swap none (some n) a b ks = Perm.rfl
with_key_swap none none a b ks =
    rw (append_assoc ks (b ∷ []) (a ∷ []), append_assoc ks (a ∷ []) (b ∷ []))
      (Perm.append_left ks (Perm.swap a b []))

Alike-refl : (m : List (Text × ℕ)) → Alike m m
Alike-refl m = ((λ k. refl), Perm.rfl)

-- Two different names.
count_up_apart :
    (a b : Text) (m : List (Text × ℕ))
    → text_beq a b ≡ false
    → Alike (count_up a (count_up b m)) (count_up b (count_up a m))
count_up_apart a b m apart =
    let apart' : text_beq b a ≡ false = ground (arith, text_beq_iff a b, text_beq_iff b a) in
    let at_a : lookup a (count_up b m) ≡ lookup a m = lookup-count_up b a m ∙ rw apart' refl in
    let at_b : lookup b (count_up a m) ≡ lookup b m = lookup-count_up a b m ∙ rw apart refl in
    (
      (λ k.
          rw
            (
              lookup-count_up a k (count_up b m),
              lookup-count_up b k (count_up a m),
              at_a,
              at_b,
              lookup-count_up a k m,
              lookup-count_up b k m,
            )
            (ground (arith, text_beq_iff a b, text_beq_iff a k, text_beq_iff b k))),
      rw
          (
            count_up-insert a (count_up b m),
            count_up-insert b (count_up a m),
            keys-insert a _ (count_up b m),
            keys-insert b _ (count_up a m),
            at_a,
            at_b,
            count_up-insert a m,
            count_up-insert b m,
            keys-insert a _ m,
            keys-insert b _ m,
          )
          (with_key_swap (lookup a m) (lookup b m) a b (keys m)),
    )

count_up_swap :
    (a b : Text) (m : List (Text × ℕ))
    → Alike (count_up a (count_up b m)) (count_up b (count_up a m))
count_up_swap a b m = elim (Bool-cases (text_beq a b)) [
  | inl same ↦
      subst (λ c. Alike (count_up a (count_up c m)) (count_up c (count_up a m)))
        ((text_beq_iff a b).0 same) (Alike-refl (count_up a (count_up a m)))
  | inr apart ↦ count_up_apart a b m apart
]

Alike-trans : (m n o : List (Text × ℕ)) → Alike m n → Alike n o → Alike m o
Alike-trans m n o (f, p) (g, q) = ((λ k. f k ∙ g k), Perm.trans p q)

counted-Alike_of :
    {names names' : List Text} (m : List (Text × ℕ))
    → Permᴰ names names'
    → Alike (counted names m) (counted names' m)
unfolding counted
counted-Alike_of m Permᴰ.nil = Alike-refl m
counted-Alike_of m (Permᴰ.cons {a = a} {l₁ = xs} {l₂ = ys} e d) =
    subst (λ b. Alike (count_up a (counted xs m)) (count_up b (counted ys m))) e
      (count_up-Alike a (counted xs m) (counted ys m) (counted-Alike_of m d))
counted-Alike_of m (Permᴰ.swap {a = a} {b = b} {l = xs} e f) =
    rw (← e, ← f) (count_up_swap a b (counted xs m))
counted-Alike_of m (Permᴰ.trans {l₁ = xs} {l₂ = ys} {l₃ = zs} d f) =
    Alike-trans (counted xs m) (counted ys m) (counted zs m) (counted-Alike_of m d)
      (counted-Alike_of m f)

-- In whatever order the same names are recorded, the map that comes out reads the same.
pub counted-Alike :
    (names names' : List Text) (m : List (Text × ℕ))
    → Perm names names'
    → Alike (counted names m) (counted names' m)
counted-Alike names names' m p = ∥∥₁_elim p (hlevel) (counted-Alike_of m)
