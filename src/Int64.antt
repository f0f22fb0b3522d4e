-- ===== src/Int64.antt =====
-- Go's 64-bit words (`int`, `int64`, `uint64` on a 64-bit platform). A word is its bit pattern, a
-- number below 2 ^ 64; a signed word is negative if its pattern is at least 2 ^ 63.
use infer_flow.Prelude.{
  ℕ, ◌+◌, ◌-◌, ◌%◌, ◌^◌, ◌<◌, ◌≡◌, Bool, true, false, ltb, leb, arith, if◌then◌else◌,
}

abbrev pub two64 : ℕ
two64 = 2 ^ 64

abbrev pub two63 : ℕ
two63 = 2 ^ 63

-- `a + b`, `-a` and `a - b`, wrapping around.
unfoldable pub add64 : ℕ → ℕ → ℕ
add64 a b = (a + b) % two64

unfoldable pub neg64 : ℕ → ℕ
neg64 a = (two64 - a % two64) % two64

unfoldable pub sub64 : ℕ → ℕ → ℕ
sub64 a b = (a + (two64 - b % two64)) % two64

abbrev pub is_neg : ℕ → Bool
is_neg a = leb two63 a

-- Signed `a < b`: flipping the sign bit turns the signed order into the order of patterns.
unfoldable pub slt64 : ℕ → ℕ → Bool
slt64 a b = ltb ((a + two63) % two64) ((b + two63) % two64)

-- Signed `a % n` for a positive `n`: Go's remainder has the sign of `a`.
unfoldable pub srem64 : ℕ → ℕ → ℕ
unfolding neg64
srem64 a n = if is_neg a then neg64 ((two64 - a) % n) else a % n

pub add64-lt : (a b : ℕ) → add64 a b < two64
unfolding add64
add64-lt a b = omega arith

pub add64_assoc : (a b c : ℕ) → add64 (add64 a b) c ≡ add64 a (add64 b c)
unfolding add64
add64_assoc a b c = omega arith

pub add64_comm : (a b : ℕ) → add64 a b ≡ add64 b a
unfolding add64
add64_comm a b = omega arith

pub add64_zero : (a : ℕ) → a < two64 → add64 a 0 ≡ a
unfolding add64
add64_zero a h = omega arith

-- Adding a word and then its opposite gives the word back, whatever wrapped around.
pub add64-neg64 : (a d : ℕ) → a < two64 → add64 (add64 a d) (neg64 d) ≡ a
unfolding add64 neg64
add64-neg64 a d h = omega arith

pub sub64-add64 : (a : ℕ) → a < two64 → sub64 (add64 a 1) 1 ≡ a
unfolding sub64 add64
sub64-add64 a h = omega arith

-- On words without a sign the signed order is the order of numbers.
pub slt64_of_small : (a b : ℕ) → a < two63 → b < two63 → slt64 a b ≡ ltb a b
unfolding slt64
slt64_of_small a b ha hb = ground arith

pub slt64_trans : (a b c : ℕ) → slt64 a b ≡ true → slt64 b c ≡ true → slt64 a c ≡ true
unfolding slt64
slt64_trans a b c p q = ground arith

pub slt64_of_not : (a b c : ℕ) → slt64 a b ≡ true → slt64 c b ≡ false → slt64 a c ≡ true
unfolding slt64
slt64_of_not a b c p q = ground arith

pub slt64_irrefl : (a : ℕ) → slt64 a a ≡ false
unfolding slt64
slt64_irrefl a = ground arith

pub slt64_asymm : (a b : ℕ) → slt64 a b ≡ true → slt64 b a ≡ false
unfolding slt64
slt64_asymm a b h = ground arith

pub srem64_of_small : (a n : ℕ) → a < two63 → srem64 a n ≡ a % n
unfolding srem64
srem64_of_small a n h = ground arith
