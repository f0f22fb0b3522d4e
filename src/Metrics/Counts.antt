-- ===== src/Metrics/Counts.antt =====
-- Laws of the named counters.
use infer_flow.Prelude.{
  ℕ, ◌≡◌, refl, sym, ap, ◌∙◌, inl, inr, List, [], ◌∷◌, Option, none, some, arith, if◌then◌else◌,
  Option-cases, Bool-cases,
}
use infer_flow.Text.{Text, text_eq, text_beq, text_beq_iff}
use infer_flow.Assoc.{lookup, insert, lookup-insert}
use infer_flow.Int64.{add64, add64_assoc, add64_comm}
use infer_flow.Metrics.{count_up}

-- What a counter shows: one that was never touched is at zero.
abbrev pub or_zero : Option ℕ → ℕ
or_zero none = 0
or_zero (some n) = n

unfoldable pub count_of : Text → List (Text × ℕ) → ℕ
count_of name m = or_zero (lookup name m)

-- The sum of all counters.
unfoldable pub total : List (Text × ℕ) → ℕ
total [] = 0
total ((k, n) ∷ m) = add64 n (total m)

-- Counting a name moves its counter on by one, and no other.
pub count_of-count_up :
    (name other : Text) (m : List (Text × ℕ))
    → count_of other (count_up name m)
      ≡ (if text_beq name other then add64 (count_of other m) 1 else count_of other m)
unfolding count_of count_up
count_of-count_up name other m = elim (Option-cases (lookup name m)) [
  | inl e ↦
      rw (e, count_up)
        (ground (arith, lookup-insert name other (add64 0 1) m, text_beq_iff name other, e))
  | inr (n, e) ↦
      rw (e, count_up)
        (ground (arith, lookup-insert name other (add64 n 1) m, text_beq_iff name other, e))
]

total-insert_new :
    (name : Text) (v : ℕ) (m : List (Text × ℕ))
    → lookup name m ≡ none
    → total (insert name v m) ≡ add64 (total m) v
unfolding total insert lookup
total-insert_new name v [] e = add64_comm v 0
total-insert_new name v ((k, n) ∷ m) e =
    ground (arith, total-insert_new name v m, add64_assoc n (total m) v)

total-insert_old :
    (name : Text) (n : ℕ) (m : List (Text × ℕ))
    → lookup name m ≡ some n
    → total (insert name (add64 n 1) m) ≡ add64 (total m) 1
unfolding total insert lookup
total-insert_old name n [] e = cc
total-insert_old name n ((k, v) ∷ m) e = elim (Bool-cases (text_beq k name)) [
  | inl same ↦
      let found : v ≡ n = ground arith in
      rw (same, found)
        (add64_assoc n 1 (total m)
          ∙ ap (add64 n) (add64_comm 1 (total m))
          ∙ sym (add64_assoc n (total m) 1))
  | inr other ↦
      rw other
        (ap (add64 v) (total-insert_old name n m (ground arith)) ∙ sym (add64_assoc v (total m) 1))
]

-- Counting any name moves the sum on by one.
pub total-count_up :
    (name : Text) (m : List (Text × ℕ)) → total (count_up name m) ≡ add64 (total m) 1
unfolding count_up
total-count_up name m = elim (Option-cases (lookup name m)) [
  | inl e ↦ rw (e, count_up) (total-insert_new name (add64 0 1) m e ∙ ap (add64 (total m)) one)
  | inr (n, e) ↦ rw (e, count_up) (total-insert_old name n m e)
]
  where
    one : add64 0 1 ≡ 1
    one = unfold add64 in refl
