-- ===== src/Router/Loads/Least.antt =====
-- The choice is the earliest backend with the least load.
use native.Mathlib.Nat.{mod-lt}
use infer_flow.Prelude.{
  ℕ, nat_eq, zero, suc, ◌+◌, ◌%◌, ◌≤◌, ◌<◌, ◌≡◌, refl, List, [], Option, none, some, arith, length,
  rotate, drop, drop_step, drop_all, length-rotate, get_elem?_total, All,
}
use infer_flow.Int64.{two63}
use infer_flow.Router.Heap.{Heap}
use infer_flow.Router.Decision.{Outcome, ok, no_healthy_backend, panic}
use infer_flow.Router.Slots.{max_backends, slot-rotate, start_of_small}
use infer_flow.Router.Loads.{Loads, Choice, consider, scan, settle, choose}
use infer_flow.Router.Loads.Chosen.{Ineligible, IsLeast, Chosen, fold_loads, fold_loads-Chosen}

module _ (h : Heap) (loads : List (ℕ × ℕ)) where
  scan-drop :
      (bs : List ℕ) (start k i : ℕ) (best : Option Choice)
      → length bs ≤ max_backends
      → start < length bs
      → i + k ≡ length bs
      → scan h loads bs start k i best ≡ ok (fold_loads h loads best (drop i (rotate start bs)))
  unfolding scan
  scan-drop bs start zero i best fits hs e =
      rw (drop_all i (rotate start bs) (omega (arith, length-rotate start bs))) refl
  scan-drop bs start (suc k) i best fits hs e =
      let (b, found) =
        get_elem?_total (rotate start bs) i (omega (arith, length-rotate start bs)) in
      ground (
        arith,
        scan-drop bs start k (i + 1) (consider h loads b best) fits hs (omega arith),
        slot-rotate bs start i fits hs (omega arith),
        drop_step (rotate start bs) i found,
        found,
      )

-- What the loop of a selection answers, seen from the slice that begins at the turn's backend: the
-- choice is the earliest backend of the least load, or no backend is eligible.
abbrev pub Chooses : Heap → List (ℕ × ℕ) → List ℕ → Outcome Choice → Type 0
Chooses h loads bs (ok m) = IsLeast h loads bs m
Chooses h loads bs no_healthy_backend = All (Ineligible h loads) bs
Chooses h loads bs panic = ⊥

settle-Chooses :
    (h : Heap) (loads : List (ℕ × ℕ)) (bs : List ℕ) (best : Option Choice)
    → Chosen h loads bs best
    → Chooses h loads bs (settle (ok best))
settle-Chooses h loads bs none s = s
settle-Chooses h loads bs (some m) s = s

-- From a list that is not empty nor longer than 2 ^ 62, and with the counter of turns below 2 ^ 63: the
-- loop of a selection does not panic. In the order that begins at the turn's backend it answers the
-- earliest of the healthy backends with a load counter whose load is least, with that load, or the
-- error if no backend is healthy and has a counter.
pub choose-Chooses :
    (h : Heap) (s : Loads)
    → 0 < length s.backends
    → length s.backends ≤ max_backends
    → s.next < two63
    → Chooses h s.loads (rotate (s.next % length s.backends) s.backends) (choose h s).1
unfolding choose
choose-Chooses h s some_backend fits hn =
    let start = s.next % length s.backends in
    let order = rotate start s.backends in
    rw
      (
        start_of_small s.next (length s.backends) hn,
        scan-drop h s.loads s.backends start (length s.backends) 0 none fits
            (mod-lt s.next some_backend) (omega arith),
      )
      (settle-Chooses h s.loads order (fold_loads h s.loads none order)
        (fold_loads-Chosen h s.loads [] order none tt))
