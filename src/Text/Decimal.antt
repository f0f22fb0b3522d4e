-- ===== src/Text/Decimal.antt =====
-- `%d` of `fmt`, for numbers without a sign.
use infer_flow.Prelude.{
  ℕ, All, zero, suc, ◌+◌, ◌-◌, ◌*◌, ◌/◌, ◌%◌, ◌<◌, ◌≡◌, sym, ap, ◌∙◌, inl, inr, Bool-cases, [], ◌∷◌,
  arith, ltb, if◌then◌else◌, foldl,
}
use infer_flow.Text.{Text}

-- The digits of `n` before `rest`. `n + 1` rounds are enough, since each divides by ten.
digits : ℕ → ℕ → Text → Text
digits zero n rest = rest
digits (suc fuel) n rest =
    let more = digits fuel (n / 10) ((b'0' + n % 10) ∷ rest) in
    if ltb n 10 then (b'0' + n) ∷ rest else more

unfoldable pub decimal : ℕ → Text
unfolding digits
decimal n = digits (suc n) n []

-- The number that digits spell behind `n`.
abbrev value : ℕ → Text → ℕ
value = foldl (λ n c. n * 10 + (c - b'0'))

value-digits : (fuel n : ℕ) (rest : Text) → n < fuel → value 0 (digits fuel n rest) ≡ value n rest
unfolding digits
value-digits zero n rest h = absurd (omega arith)
value-digits (suc fuel) n rest h = elim (Bool-cases (ltb n 10)) [
  | inl small ↦ rw small (ap (λ m. value m rest) (omega arith))
  | inr large ↦ rw large (
      value-digits fuel (n / 10) ((b'0' + n % 10) ∷ rest) (ground arith)
      ∙ ap (λ m. value m rest) (omega arith))
]

-- Different numbers are printed differently.
pub decimal-injective : (m n : ℕ) → decimal m ≡ decimal n → m ≡ n
unfolding decimal
decimal-injective m n e =
    sym (value-digits (suc m) m [] (omega arith))
    ∙ ap (value 0) e
    ∙ value-digits (suc n) n [] (omega arith)

digits-All {ℓ} :
    (P : ℕ → Type ℓ) (digit : (d : ℕ) → d < 10 → P (b'0' + d)) (fuel n : ℕ) (rest : Text)
    → n < fuel
    → All P rest
    → All P (digits fuel n rest)
unfolding digits
digits-All P digit zero n rest lt k = k
digits-All P digit (suc fuel) n rest lt k = elim (Bool-cases (ltb n 10)) [
  | inl small ↦ rw small (digit n (ground arith), k)
  | inr large ↦ rw large (
      digits-All P digit fuel (n / 10) ((b'0' + n % 10) ∷ rest) (ground arith)
        (digit (n % 10) (omega arith), k))
]

-- What holds of the ten digits holds of every character of a number.
pub decimal-All {ℓ} :
    (P : ℕ → Type ℓ) → ((d : ℕ) → d < 10 → P (b'0' + d)) → (n : ℕ) → All P (decimal n)
unfolding decimal
decimal-All P digit n = digits-All P digit (suc n) n [] (omega arith) tt
