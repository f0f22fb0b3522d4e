-- ===== src/Router/Loads/Tracked.antt =====
-- Whatever the counter `next` holds, a choice comes with the counter of its backend.
use infer_flow.Prelude.{
  ℕ, nat_eq, zero, suc, ◌+◌, ◌≡◌, inl, inr, List, Option, none, some, Bool-cases, Option-cases,
  length,
}
use infer_flow.Assoc.{lookup}
use infer_flow.Int64.{slt64}
use infer_flow.Router.Heap.{Heap, is_healthy}
use infer_flow.Router.Slots.{slot, start_of}
use infer_flow.Router.Decision.{Outcome, ok, no_healthy_backend, panic}
use infer_flow.Router.Loads.{Loads, Choice, consider_load, consider, scan, settle, choose}

abbrev pub Tracked : List (ℕ × ℕ) → Option Choice → Type 0
Tracked loads none = Unit {0}
Tracked loads (some m) = lookup m.backend loads ≡ some m.load

consider-Tracked :
    (h : Heap) (loads : List (ℕ × ℕ)) (b : ℕ) (best : Option Choice)
    → Tracked loads best
    → Tracked loads (consider h loads b best)
unfolding consider
consider-Tracked h loads b best t = elim (Bool-cases (is_healthy h b)) [
  | inr sick ↦ rw sick t
  | inl well ↦ elim (Option-cases (lookup b loads)) [
    | inl e ↦ rw (well, e) t
    | inr (c, e) ↦ rw (well, e) (compare_loads best c e t)
  ]
]
  where
    compare_loads :
        (best : Option Choice) (c : ℕ)
        → lookup b loads ≡ some c
        → Tracked loads best
        → Tracked loads (consider_load h b (some c) best)
    compare_loads none c e t = e
    compare_loads (some m) c e t = elim (Bool-cases (slt64 (h.counter c) m.pending)) [
      | inl better ↦ rw better e
      | inr worse ↦ rw worse t
    ]

abbrev pub TrackedOutcome : List (ℕ × ℕ) → Outcome Choice → Type 0
TrackedOutcome loads (ok m) = lookup m.backend loads ≡ some m.load
TrackedOutcome loads no_healthy_backend = Unit {0}
TrackedOutcome loads panic = Unit {0}

settle-Tracked :
    (loads : List (ℕ × ℕ)) (best : Option Choice)
    → Tracked loads best
    → TrackedOutcome loads (settle (ok best))
settle-Tracked loads none t = tt
settle-Tracked loads (some m) t = t

scan-Tracked :
    (h : Heap) (loads : List (ℕ × ℕ)) (bs : List ℕ) (start k i : ℕ) (best : Option Choice)
    → Tracked loads best
    → TrackedOutcome loads (settle (scan h loads bs start k i best))
unfolding scan
scan-Tracked h loads bs start zero i best t = settle-Tracked loads best t
scan-Tracked h loads bs start (suc k) i best t = elim (Option-cases (slot bs start i)) [
  | inl e ↦ rw (e, scan) tt
  | inr (b, e) ↦
      rw (e, scan)
        (scan-Tracked h loads bs start k (i + 1) (consider h loads b best)
          (consider-Tracked h loads b best t))
]

pub choose-Tracked : (h : Heap) (s : Loads) → TrackedOutcome s.loads (choose h s).1
unfolding choose
choose-Tracked h s =
    scan-Tracked h s.loads s.backends (start_of s.next (length s.backends)) (length s.backends) 0
      none tt
