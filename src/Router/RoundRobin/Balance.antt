-- ===== src/Router/RoundRobin/Balance.antt =====
-- How evenly `Pick` spreads any number of requests.
use mathlib.Core.Path.{subst}
use native.Mathlib.Nat.{mod-lt, div-add-mod'}
use infer_flow.Prelude.{
  ℕ, zero, suc, ◌+◌, ◌-◌, ◌*◌, ◌/◌, ◌%◌, ◌≤◌, ◌<◌, ◌≡◌, refl, sym, ap, ◌∙◌, true, List, [], ◌∷◌,
  ◌++◌, arith, length, rotate, drop, take, take-append-drop, map, All, ◌==◌, if◌then◌else◌,
}
use infer_flow.Int64.{two63}
use infer_flow.Router.Heap.{Heap, is_healthy}
use infer_flow.Router.Decision.{Outcome, ok, no_healthy_backend, panic}
use infer_flow.Router.Slots.{max_backends}
use infer_flow.Router.RoundRobin.{RoundRobin, pick}
use infer_flow.Router.RoundRobin.Fairness.{picks, pick-next, picks-rotate}

-- How often a backend stands in a list, and how often it was picked.
abbrev pub times : ℕ → List ℕ → ℕ
times b [] = 0
times b (c ∷ bs) = (if b == c then 1 else 0) + times b bs

abbrev pub is_pick : ℕ → Outcome ℕ → ℕ
is_pick b (ok c) = if b == c then 1 else 0
is_pick b no_healthy_backend = 0
is_pick b panic = 0

abbrev pub picked : ℕ → List (Outcome ℕ) → ℕ
picked b [] = 0
picked b (o ∷ os) = is_pick b o + picked b os

times-append : (b : ℕ) (xs ys : List ℕ) → times b (xs ++ ys) ≡ times b xs + times b ys
times-append b [] ys = omega arith
times-append b (x ∷ xs) ys = omega (arith, times-append b xs ys)

picked-append : (b : ℕ) (xs ys : List (Outcome ℕ)) → picked b (xs ++ ys) ≡ picked b xs + picked b ys
picked-append b [] ys = omega arith
picked-append b (x ∷ xs) ys = omega (arith, picked-append b xs ys)

picked-map : (b : ℕ) (xs : List ℕ) → picked b (map ok xs) ≡ times b xs
picked-map b [] = refl
picked-map b (x ∷ xs) = omega (arith, picked-map b xs)

times-rotate : (b n : ℕ) (xs : List ℕ) → times b (rotate n xs) ≡ times b xs
times-rotate b n xs = omega (
  arith,
  times-append b (drop n xs) (take n xs),
  times-append b (take n xs) (drop n xs),
  ap (times b) (take-append-drop n xs),
)

module _ (h : Heap) (bs : List ℕ) (some_backend : 0 < length bs) where
  at : ℕ → RoundRobin
  at next = record { backends = bs; next = next }

  picks-append :
      (k j next : ℕ)
      → next + k ≤ two63
      → picks (k + j) h (at next) ≡ picks k h (at next) ++ picks j h (at (next + k))
  unfolding picks at
  picks-append zero j next le =
      let none_yet : 0 + j ≡ j = omega arith in
      let same : next + 0 ≡ next = omega arith in rw (none_yet, same) refl
  picks-append (suc k) j next le =
      let more : suc k + j ≡ suc (k + j) = omega arith in
      let later : next + 1 + k ≡ next + suc k = omega arith in
      rw (more, pick-next h bs next some_backend (omega arith))
        (ap (λ os. (pick h (at next)).1 ∷ os)
          (picks-append k j (next + 1) (omega arith)
            ∙ ap (λ n. picks k h (at (next + 1)) ++ picks j h (at n)) later))

  module _ (all : All (λ b. is_healthy h b ≡ true) bs) (fits : length bs ≤ max_backends)
      (b : ℕ) where
    -- In one round a backend is picked as often as it stands in the list.
    round-picked :
        (next : ℕ)
        → next + length bs ≤ two63
        → picked b (picks (length bs) h (at next)) ≡ times b bs
    unfolding at
    round-picked next le =
        ap (picked b) (picks-rotate h (at next) all fits le).0
        ∙ picked-map b (rotate (next % length bs) bs)
        ∙ times-rotate b (next % length bs) bs

    -- In a part of a round, not more often than that.
    part-picked :
        (k next : ℕ)
        → k ≤ length bs
        → next + length bs ≤ two63
        → picked b (picks k h (at next)) ≤ times b bs
    part-picked k next le room =
        let whole : k + (length bs - k) ≡ length bs = omega arith in
        let parts =
          picked-append b (picks k h (at next)) (picks (length bs - k) h (at (next + k))) in
        let split =
          ap (λ n. picked b (picks n h (at next))) (sym whole)
          ∙ ap (picked b) (picks-append k (length bs - k) next (omega arith)) in
        omega (arith, parts, split, round-picked next room)

    rounds-picked :
        (q k next : ℕ)
        → k ≤ length bs
        → next + q * length bs + k + length bs ≤ two63
        → (q * times b bs ≤ picked b (picks (q * length bs + k) h (at next)))
          × (picked b (picks (q * length bs + k) h (at next)) ≤ suc q * times b bs)
    rounds-picked zero k next le room =
        let only : 0 * length bs + k ≡ k = omega arith in
        let part = part-picked k next le (omega arith) in rw only (omega arith, omega (arith, part))
    rounds-picked (suc q) k next le room =
        let first : suc q * length bs + k ≡ length bs + (q * length bs + k) = omega arith in
        let (lo, hi) = rounds-picked q k (next + length bs) le (omega arith) in
        let parts =
          picked-append b (picks (length bs) h (at next))
            (picks (q * length bs + k) h (at (next + length bs))) in
        let split =
          ap (picked b) (picks-append (length bs) (q * length bs + k) next (omega arith)) in
        let round = round-picked next (omega arith) in
        rw first (omega (arith, lo, parts, split, round), omega (arith, hi, parts, split, round))

-- While all of at most 2 ^ 62 backends are healthy, there is one at least, and the counter stays below
-- 2 ^ 63 for a round more: among any number of picks, each backend is picked as often as whole rounds
-- fit into that number, times its places in the list, and at most once more for each place.
pub picked-balance :
    (h : Heap) (r : RoundRobin) (m b : ℕ)
    → 0 < length r.backends
    → All (λ b. is_healthy h b ≡ true) r.backends
    → length r.backends ≤ max_backends
    → r.next + m + length r.backends ≤ two63
    → (m / length r.backends * times b r.backends ≤ picked b (picks m h r))
      × (picked b (picks m h r) ≤ suc (m / length r.backends) * times b r.backends)
unfolding at
picked-balance h r m b some_backend all fits room =
    let n = length r.backends in
    let e : m / n * n + m % n ≡ m = div-add-mod' m n in
    let lt : m % n < n = mod-lt m some_backend in
    subst
      (λ k.
        (m / n * times b r.backends ≤ picked b (picks k h r))
        × (picked b (picks k h r) ≤ suc (m / n) * times b r.backends))
      e
      (rounds-picked h r.backends some_backend all fits b (m / n) (m % n) r.next (omega arith)
        (omega (arith, e)))
