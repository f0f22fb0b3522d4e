-- ===== src/Router/RoundRobin/Fairness.antt =====
-- How `Pick` spreads successive requests over the backends.
use mathlib.Core.Path.{subst}
use mathlib.Core.List.Perm
use native.Mathlib.Nat.{mod-lt, mod-add-mod}
use infer_flow.Prelude.{
  ℕ, zero, suc, ◌+◌, ◌%◌, ◌≤◌, ◌<◌, ◌≡◌, refl, ap, true, List, [], ◌∷◌, some, arith, length, rotate,
  drop, drop_step, drop_all, length-rotate, get_elem?, get_elem?_total, get_elem?-rotate,
  rotate-perm, map, Perm, All, All-rotate, ◌++◌, take,
}
use infer_flow.Int64.{two63, add64}
use infer_flow.Router.Heap.{Heap, is_healthy}
use infer_flow.Router.Decision.{Outcome, ok}
use infer_flow.Router.Slots.{max_backends}
use infer_flow.Router.RoundRobin.{RoundRobin, pick}
use infer_flow.Router.RoundRobin.Order.{first_healthy, pick-first_healthy}

-- The answers of `k` calls of `Pick`, one after the other.
unfoldable pub picks : ℕ → Heap → RoundRobin → List (Outcome ℕ)
picks zero h r = []
picks (suc k) h r = let (r', picked) = pick h r in picked ∷ picks k h r'

-- A pick moves the counter on by one, as long as it does not wrap.
pub pick-next :
    (h : Heap) (bs : List ℕ) (next : ℕ)
    → 0 < length bs
    → next < two63
    → (pick h (record { backends = bs; next = next })).0 ≡ record { backends = bs; next = next + 1 }
unfolding pick add64
pick-next h bs next hb hn = ground arith

first_healthy-All :
    (h : Heap) (bs : List ℕ) {b : ℕ} {rest : List ℕ}
    → All (λ b. is_healthy h b ≡ true) bs
    → bs ≡ b ∷ rest
    → first_healthy h bs ≡ ok b
unfolding first_healthy
first_healthy-All h [] hs e = cc
first_healthy-All h (c ∷ bs) (hc, hs) e = ground arith

module _ (h : Heap) (bs : List ℕ) (all : All (λ b. is_healthy h b ≡ true) bs)
    (fits : length bs ≤ max_backends) where
  -- With every backend healthy, the pick at counter `next` is the one whose turn it is.
  pick-turn :
      (next : ℕ) {b : ℕ}
      → next < two63
      → get_elem? bs (next % length bs) ≡ some b
      → (pick h (record { backends = bs; next = next })).1 ≡ ok b
  pick-turn next hn e = rw (pick-first_healthy h (record { backends = bs; next = next }) fits hn) (
      first_healthy-All h (rotate (next % length bs) bs) (All-rotate _ (next % length bs) bs all)
        (ap (λ xs. xs ++ take (next % length bs) bs) (drop_step bs (next % length bs) e)))

  picks-drop :
      (next k i : ℕ)
      → next + length bs ≤ two63
      → i + k ≡ length bs
      → picks k h (record { backends = bs; next = next + i })
        ≡ map ok (drop i (rotate (next % length bs) bs))
  unfolding picks
  picks-drop next zero i hn e =
      rw
        (drop_all i (rotate (next % length bs) bs)
          (omega (arith, length-rotate (next % length bs) bs)))
        refl
  picks-drop next (suc k) i hn e =
      let n = next % length bs in
      let hm : n < length bs = mod-lt next (omega arith) in
      let (b, found) = get_elem?_total (rotate n bs) i (omega (arith, length-rotate n bs)) in
      let turn : get_elem? bs ((next + i) % length bs) ≡ some b =
        rw (← mod-add-mod next (length bs) i)
          (rw (← get_elem?-rotate n bs i hm (omega arith)) found) in
      let shift : next + i + 1 ≡ next + suc i = omega arith in
      rw
        (
          pick-turn (next + i) (omega arith) turn,
          pick-next h bs (next + i) (omega arith) (omega arith),
          drop_step (rotate n bs) i found,
          shift,
        )
        (ap (λ xs. ok b ∷ xs) (picks-drop next k (suc i) hn (omega arith)))

-- While all of at most 2 ^ 62 backends are healthy, and as long as the counter does not pass 2 ^ 63: as
-- many picks as there are backends visit them in turn, beginning where the counter stands, and so
-- each backend exactly once.
pub picks-rotate :
    (h : Heap) (r : RoundRobin)
    → All (λ b. is_healthy h b ≡ true) r.backends
    → length r.backends ≤ max_backends
    → r.next + length r.backends ≤ two63
    → (picks (length r.backends) h r ≡ map ok (rotate (r.next % length r.backends) r.backends))
      × Perm (picks (length r.backends) h r) (map ok r.backends)
picks-rotate h r all fits hn =
    let e : picks (length r.backends) h r
        ≡ map ok (rotate (r.next % length r.backends) r.backends) =
      picks-drop' in
    (e, rw e (Perm.map ok (rotate-perm (r.next % length r.backends) r.backends)))
  where
    picks-drop' :
        picks (length r.backends) h r ≡ map ok (rotate (r.next % length r.backends) r.backends)
    picks-drop' =
        subst
          (λ m.
            picks (length r.backends) h (record { backends = r.backends; next = m })
            ≡ map ok (rotate (r.next % length r.backends) r.backends))
          (omega arith)
          (picks-drop h r.backends all fits r.next (length r.backends) 0 hn (omega arith))
