-- ===== src/Router/Random/Healthy.antt =====
-- A random choice is among the healthy backends, each of which can be drawn.
use mathlib.Core.List.{mem-cons_self, mem-cons_of_mem}
use infer_flow.Prelude.{
  ℕ, ◌≡◌, inl, inr, true, List, [], ◌∷◌, arith, length, get_elem?_total, Bool-cases, All-weaken,
  All-get_elem?, Mem, ◌==◌, All, nil_of_length,
}
use infer_flow.Router.Heap.{Heap, is_healthy}
use infer_flow.Router.Decision.{SelectionInput}
use infer_flow.Router.Serves.{Serves, NoneHealthy}
use infer_flow.Router.Random.{Random, Rng, healthy_of, select}

-- A healthy member of the list.
abbrev IsCandidate : Heap → List ℕ → ℕ → Type 0
IsCandidate h bs b = Mem b bs × (is_healthy h b ≡ true)

healthy_of-IsCandidate : (h : Heap) (bs : List ℕ) → All (IsCandidate h bs) (healthy_of h bs)
unfolding healthy_of
healthy_of-IsCandidate h [] = tt
healthy_of-IsCandidate h (x ∷ bs) =
    let rest =
      All-weaken (IsCandidate h bs) (IsCandidate h (x ∷ bs)) (healthy_of h bs)
        (λ b c. (mem-cons_of_mem x c.0, c.1)) (healthy_of-IsCandidate h bs) in
    elim (Bool-cases (is_healthy h x)) [
      | inl well ↦ rw well ((mem-cons_self, well), rest)
      | inr sick ↦ rw sick rest
    ]

healthy_of-nil : (h : Heap) (bs : List ℕ) → healthy_of h bs ≡ [] → NoneHealthy h bs
unfolding healthy_of
healthy_of-nil h [] e = tt
healthy_of-nil h (x ∷ bs) e = elim (Bool-cases (is_healthy h x)) [
  | inr sick ↦ (sick, healthy_of-nil h bs (rw sick at e))
  | inl well ↦ cc (rw well at e)
]

pub select-Serves :
    {R : Type 0} (g : Rng R) (h : Heap) (s : Random R) (input : SelectionInput)
    → Serves h s.backends (λ d. d.backend) (select g h s input).1
unfolding select
select-Serves g h s input = elim (Bool-cases (length (healthy_of h s.backends) == 0)) [
  | inl empty ↦
      rw empty
        (healthy_of-nil h s.backends (nil_of_length (healthy_of h s.backends) (ground arith)))
  | inr drawn ↦
      let n = length (healthy_of h s.backends) in
      let idx = (g.intn s.rng n).1 in
      let (b, found) =
        get_elem?_total (healthy_of h s.backends) idx (g.intn_lt s.rng n (ground arith)) in
      rw (drawn, found)
        (All-get_elem? (IsCandidate h s.backends) (healthy_of h s.backends) idx
          (healthy_of-IsCandidate h s.backends) found)
]
