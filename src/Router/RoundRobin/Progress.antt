-- ===== src/Router/RoundRobin/Progress.antt =====
-- internal/router/roundrobin.go: no healthy backend waits for ever.
use mathlib.Core.Path.{subst}
use mathlib.Core.Logic.Or
use mathlib.Core.List.{not-mem-nil, mem-cons_self, mem-cons_of_mem, eq-or-mem_of_mem-cons}
use mathlib.Core.List.Perm
use native.Mathlib.Nat.{mod-lt, mod-add-mod}
use infer_flow.Prelude.{
  ℕ, zero, suc, ◌+◌, ◌%◌, ◌≤◌, ◌<◌, ◌≡◌, refl, sym, ap, ◌∙◌, true, List, ◌∷◌, some, arith, length,
  rotate, drop, drop_step, drop_all, length-rotate, get_elem?, get_elem?_total, get_elem?-rotate,
  rotate-perm, Mem,
}
use infer_flow.Int64.{two63}
use infer_flow.Router.Heap.{Heap, is_healthy}
use infer_flow.Router.Decision.{ok}
use infer_flow.Router.Slots.{max_backends}
use infer_flow.Router.RoundRobin.{RoundRobin, pick}
use infer_flow.Router.RoundRobin.Order.{first_healthy, pick-first_healthy}
use infer_flow.Router.RoundRobin.Fairness.{picks, pick-next}

first_healthy-head :
    (h : Heap) (b : ℕ) (bs : List ℕ) → is_healthy h b ≡ true → first_healthy h (b ∷ bs) ≡ ok b
unfolding first_healthy
first_healthy-head h b bs e = rw e refl

module _ (h : Heap) (bs : List ℕ) (fits : length bs ≤ max_backends) where
  -- The pick at a counter whose turn is that of a healthy backend is this backend.
  pick-its_turn :
      (next : ℕ) {b : ℕ}
      → next < two63
      → get_elem? bs (next % length bs) ≡ some b
      → is_healthy h b ≡ true
      → (pick h (record { backends = bs; next = next })).1 ≡ ok b
  pick-its_turn next {b} hn found e =
      rw
        (
          pick-first_healthy h (record { backends = bs; next = next }) fits hn,
          drop_step bs (next % length bs) found,
        )
        (first_healthy-head h b _ e)

  picks-Mem :
      (next k i b : ℕ)
      → next + length bs ≤ two63
      → i + k ≡ length bs
      → is_healthy h b ≡ true
      → Mem b (drop i (rotate (next % length bs) bs))
      → Mem (ok b) (picks k h (record { backends = bs; next = next + i }))
  unfolding picks
  picks-Mem next zero i b hn e up m = absurd (
      not-mem-nil (
        subst (Mem b)
          (drop_all i (rotate (next % length bs) bs)
            (omega (arith, length-rotate (next % length bs) bs)))
          m))
  picks-Mem next (suc k) i b hn e up m =
      let n = next % length bs in
      let hm : n < length bs = mod-lt next (omega arith) in
      let (b', found) = get_elem?_total (rotate n bs) i (omega (arith, length-rotate n bs)) in
      let turn : get_elem? bs ((next + i) % length bs) ≡ some b' =
        rw (← mod-add-mod next (length bs) i)
          (rw (← get_elem?-rotate n bs i hm (omega arith)) found) in
      let shift : next + i + 1 ≡ next + suc i = omega arith in
      rw (pick-next h bs (next + i) (omega arith) (omega arith), shift)
        (Or.elim (hlevel)
          (eq-or-mem_of_mem-cons (subst (Mem b) (drop_step (rotate n bs) i found) m))
          (λ same.
            rw (pick-its_turn (next + i) (omega arith) (turn ∙ ap some (sym same)) up)
              mem-cons_self)
          (λ later. mem-cons_of_mem _ (picks-Mem next k (suc i) b hn (omega arith) up later)))

-- From at most 2 ^ 62 backends of which any are healthy, as long as the health does not change and
-- the counter does not pass 2 ^ 63: among as many picks as there are backends, every healthy
-- backend is picked.
pub picks_every :
    (h : Heap) (r : RoundRobin) (b : ℕ)
    → length r.backends ≤ max_backends
    → r.next + length r.backends ≤ two63
    → Mem b r.backends
    → is_healthy h b ≡ true
    → Mem (ok b) (picks (length r.backends) h r)
picks_every h r b fits hn m up =
    let n = r.next % length r.backends in
    let from : r.next + 0 ≡ r.next = omega arith in
    rw (← from) (
      picks-Mem h r.backends fits r.next (length r.backends) 0 b hn (omega arith) up
        ((Perm.mem_iff (rotate-perm n r.backends)).1 m))
