-- ===== src/Router/Slots.antt =====
-- The loop index that the strategies share, `backends[(start+i)%len(backends)]`, where `start` is
-- `int(s.next.Add(1)-1) % len(backends)`.
use native.Mathlib.Nat.{mod-lt, mod-eq_of_lt}
use infer_flow.Prelude.{
  ℕ, ◌-◌, ◌+◌, ◌%◌, ◌^◌, ◌≤◌, ◌<◌, ◌≡◌, refl, sym, true, false, Option, none, List, arith,
  if◌then◌else◌, length, get_elem?, rotate, get_elem?-rotate,
}
use infer_flow.Int64.{
  add64, sub64, srem64, neg64, is_neg, two63, two64, srem64_of_small, sub64-add64,
}

-- More backends than a slice can hold are out of reach.
abbrev pub max_backends : ℕ
max_backends = 2 ^ 62

-- `start` for the counter `next` before the call.
unfoldable pub start_of : ℕ → ℕ → ℕ
start_of next n = srem64 (sub64 (add64 next 1) 1) n

-- `backends[(start+i)%len(backends)]`; a negative index is a panic.
unfoldable pub slot : List ℕ → ℕ → ℕ → Option ℕ
slot bs start i =
    let j = srem64 (add64 start i) (length bs) in if is_neg j then none else get_elem? bs j

pub start_of_small : (next n : ℕ) → next < two63 → start_of next n ≡ next % n
unfolding start_of
start_of_small next n h = rw (sub64-add64 next (omega arith)) (srem64_of_small next n h)

-- The slots of a loop are the positions of the rotated slice.
pub slot-rotate :
    (bs : List ℕ) (start i : ℕ)
    → length bs ≤ max_backends
    → start < length bs
    → i < length bs
    → slot bs start i ≡ get_elem? (rotate start bs) i
unfolding slot add64 srem64
slot-rotate bs start i fits hs hi =
    let n = length bs in
    let j = start + i in
    let small : j % two64 ≡ j = omega arith in
    let pos : is_neg j ≡ false = ground arith in
    let below : j % n < n = mod-lt j (omega arith) in
    let pos' : is_neg (j % n) ≡ false = ground arith in
    rw (small, pos, pos') (sym (get_elem?-rotate start bs i hs hi))

start_of_wrapped :
    (next n : ℕ) → two63 ≤ next → next < two64 → start_of next n ≡ neg64 ((two64 - next) % n)
unfolding start_of srem64
start_of_wrapped next n lo hi =
    let neg : is_neg next ≡ true = ground arith in rw (sub64-add64 next hi, neg) refl

slot_of_neg :
    (bs : List ℕ) (m : ℕ)
    → length bs ≤ max_backends
    → 0 < m
    → m < length bs
    → slot bs (neg64 m) 0 ≡ none
unfolding slot add64 srem64 neg64
slot_of_neg bs m fits hm lt =
    let n = length bs in
    let start : (two64 - m % two64) % two64 + 0 ≡ two64 - m = omega arith in
    let wrapped : (two64 - m) % two64 ≡ two64 - m = omega arith in
    let neg : is_neg (two64 - m) ≡ true = ground arith in
    let back : two64 - (two64 - m) ≡ m = omega arith in
    let rest : m % n ≡ m = mod-eq_of_lt lt in rw (start, wrapped, neg, back, rest) (ground arith)

-- Once `next` has passed 2 ^ 63, `int(next)` is negative, and so is the first index of the loop,
-- unless the distance to 2 ^ 64 happens to be a multiple of the length.
pub slot_wrapped :
    (bs : List ℕ) (next : ℕ)
    → length bs ≤ max_backends
    → 0 < length bs
    → two63 ≤ next
    → next < two64
    → 0 < (two64 - next) % length bs
    → slot bs (start_of next (length bs)) 0 ≡ none
slot_wrapped bs next fits some_backend lo hi h =
    rw (start_of_wrapped next (length bs) lo hi)
      (slot_of_neg bs ((two64 - next) % length bs) fits h (mod-lt (two64 - next) (omega arith)))
