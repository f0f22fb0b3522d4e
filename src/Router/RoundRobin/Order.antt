-- ===== src/Router/RoundRobin/Order.antt =====
-- Which backend `Pick` chooses.
use mathlib.Core.List.{mem-cons_self}
use native.Mathlib.Nat.{mod-lt}
use infer_flow.Prelude.{
  ℕ, zero, suc, ◌+◌, ◌-◌, ◌%◌, ◌≤◌, ◌<◌, ◌≡◌, refl, inl, inr, List, [], ◌∷◌, none, arith, length,
  rotate, drop, drop_step, drop_all, length-rotate, nil_of_length, rotate_nil, get_elem?_total,
  Bool-cases, ◌==◌, if◌then◌else◌,
}
use infer_flow.Int64.{two63, two64}
use infer_flow.Router.Heap.{Heap, is_healthy}
use infer_flow.Router.Decision.{Outcome, ok, no_healthy_backend, panic}
use infer_flow.Router.Slots.{
  max_backends, slot, slot-rotate, slot_wrapped, start_of, start_of_small,
}
use infer_flow.Router.Serves.{Serves, Serves-cons, Serves-rotate}
use infer_flow.Router.RoundRobin.{RoundRobin, pick_from, pick}

-- The reference: the first healthy backend of a list.
unfoldable pub first_healthy : Heap → List ℕ → Outcome ℕ
first_healthy h [] = no_healthy_backend
first_healthy h (b ∷ bs) = if is_healthy h b then ok b else first_healthy h bs

pick_from-drop :
    (h : Heap) (bs : List ℕ) (start k i : ℕ)
    → length bs ≤ max_backends
    → start < length bs
    → i + k ≡ length bs
    → pick_from h bs start k i ≡ first_healthy h (drop i (rotate start bs))
unfolding pick_from first_healthy
pick_from-drop h bs start zero i fits hs e =
    rw (drop_all i (rotate start bs) (omega (arith, length-rotate start bs))) refl
pick_from-drop h bs start (suc k) i fits hs e =
    let (b, found) = get_elem?_total (rotate start bs) i (omega (arith, length-rotate start bs)) in
    let ih = pick_from-drop h bs start k (i + 1) fits hs (omega arith) in
    ground (
      arith,
      ih,
      slot-rotate bs start i fits hs (omega arith),
      drop_step (rotate start bs) i found,
      found,
    )

-- From at most 2 ^ 62 backends, and with the counter below 2 ^ 63, `Pick` returns the first healthy
-- backend in the order that begins at `next % len(backends)`, and the error if none is healthy.
pub pick-first_healthy :
    (h : Heap) (r : RoundRobin)
    → length r.backends ≤ max_backends
    → r.next < two63
    → (pick h r).1 ≡ first_healthy h (rotate (r.next % length r.backends) r.backends)
unfolding pick first_healthy
pick-first_healthy h r fits hn = elim (Bool-cases (length r.backends == 0)) [
  | inl e ↦ rw (e, rotate_nil _ r.backends (nil_of_length r.backends (ground arith))) refl
  | inr e ↦
      rw (e, start_of_small r.next (length r.backends) hn)
        (pick_from-drop h r.backends _ (length r.backends) 0 fits (mod-lt r.next (ground arith))
          (omega arith))
]

first_healthy-Serves : (h : Heap) (bs : List ℕ) → Serves h bs (λ b. b) (first_healthy h bs)
unfolding first_healthy
first_healthy-Serves h [] = tt
first_healthy-Serves h (b ∷ bs) = elim (Bool-cases (is_healthy h b)) [
  | inl well ↦ rw well (mem-cons_self, well)
  | inr sick ↦
      rw sick (Serves-cons h b bs (λ b. b) (first_healthy h bs) sick (first_healthy-Serves h bs))
]

pub pick-Serves :
    (h : Heap) (r : RoundRobin)
    → length r.backends ≤ max_backends
    → r.next < two63
    → Serves h r.backends (λ b. b) (pick h r).1
pick-Serves h r fits hn =
    let start = r.next % length r.backends in
    rw (pick-first_healthy h r fits hn) (
      Serves-rotate h start r.backends (λ b. b) (first_healthy h (rotate start r.backends))
        (first_healthy-Serves h (rotate start r.backends)))

pick_from-panic :
    (h : Heap) (bs : List ℕ) (start n : ℕ)
    → 0 < n
    → slot bs start 0 ≡ none
    → pick_from h bs start n 0 ≡ panic
unfolding pick_from
pick_from-panic h bs start zero lt e = absurd (omega arith)
pick_from-panic h bs start (suc k) lt e = rw (e, pick_from) refl

-- From 1 to 2 ^ 62 backends, healthy or not: once the counter has passed 2 ^ 63, `Pick` panics, unless
-- the distance of the counter to 2 ^ 64 is a multiple of the number of backends.
pub pick-panic :
    (h : Heap) (r : RoundRobin)
    → length r.backends ≤ max_backends
    → 0 < length r.backends
    → two63 ≤ r.next
    → r.next < two64
    → 0 < (two64 - r.next) % length r.backends
    → (pick h r).1 ≡ panic
unfolding pick
pick-panic h r fits some_backend lo hi odd = elim (Bool-cases (length r.backends == 0)) [
  | inl e ↦ ground arith
  | inr e ↦ rw e (
      pick_from-panic h r.backends (start_of r.next (length r.backends)) (length r.backends)
        some_backend (slot_wrapped r.backends r.next fits some_backend lo hi odd))
]
