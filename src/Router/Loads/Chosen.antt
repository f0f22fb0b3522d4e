-- ===== src/Router/Loads/Chosen.antt =====
-- The best choice so far: the earliest of the least load among the backends that the loop has seen.
use mathlib.Core.List.{append_assoc, append-nil}
use infer_flow.Prelude.{
  ℕ, nat_eq, ◌≡◌, refl, inl, inr, true, false, List, [], ◌∷◌, ◌++◌, Option, none, some, arith,
  foldl, All, All-append, Bool-cases, Option-cases,
}
use infer_flow.Assoc.{lookup}
use infer_flow.Int64.{slt64, slt64_trans, slt64_of_not}
use infer_flow.Router.Heap.{Heap, is_healthy}
use infer_flow.Router.Loads.{Choice, consider_load, consider}

module _ (h : Heap) (loads : List (ℕ × ℕ)) where
  abbrev pub fold_loads : Option Choice → List ℕ → Option Choice
  fold_loads = foldl (λ best b. consider h loads b best)

  -- `b` may be chosen: it is healthy, and `c` is its counter.
  abbrev pub Eligible : ℕ → ℕ → Type 0
  Eligible b c = (is_healthy h b ≡ true) × (lookup b loads ≡ some c)

  abbrev pub Ineligible : ℕ → Type 0
  Ineligible b = (c : ℕ) → Eligible b c → ⊥

  -- Every counter of `b` is above the choice, or not below it.
  abbrev pub Above : Choice → ℕ → Type 0
  Above m b = (c : ℕ) → Eligible b c → slt64 m.pending (h.counter c) ≡ true

  abbrev pub NotBelow : Choice → ℕ → Type 0
  NotBelow m b = (c : ℕ) → Eligible b c → slt64 (h.counter c) m.pending ≡ false

  -- The choice has the least load of the list, and those before it have a greater one.
  pub record IsLeast (bs : List ℕ) (m : Choice) : Type 0 where
    pub before : List ℕ
    pub after : List ℕ
    pub place : bs ≡ before ++ m.backend ∷ after
    pub eligible : Eligible m.backend m.load
    pub pending : m.pending ≡ h.counter m.load
    pub above : All (Above m) before
    pub not_below : All (NotBelow m) after

  abbrev pub Chosen : List ℕ → Option Choice → Type 0
  Chosen bs none = All Ineligible bs
  Chosen bs (some m) = IsLeast bs m

  skip-Chosen :
      (seen : List ℕ) (best : Option Choice) (b : ℕ)
      → Ineligible b
      → Chosen seen best
      → Chosen (seen ++ b ∷ []) best
  skip-Chosen seen none b out s = All-append Ineligible seen (b ∷ []) s (out, tt)
  skip-Chosen seen (some m) b out s = record {
    before = s.before;
    after = s.after ++ b ∷ [];
    place = rw s.place (append_assoc s.before (m.backend ∷ s.after) (b ∷ []));
    eligible = s.eligible;
    pending = s.pending;
    above = s.above;
    not_below =
        All-append (NotBelow m) s.after (b ∷ []) s.not_below ((λ c e. absurd (out c e)), tt);
  }

  fresh-Chosen :
      (seen : List ℕ) (b c : ℕ)
      → Eligible b c
      → All Ineligible seen
      → IsLeast (seen ++ b ∷ []) (record { backend = b; load = c; pending = h.counter c })
  fresh-Chosen seen b c e out = record {
    before = seen;
    after = [];
    place = refl;
    eligible = e;
    pending = refl;
    above = weaken seen out;
    not_below = tt;
  }
    where
      weaken :
          (xs : List ℕ)
          → All Ineligible xs
          → All (Above (record { backend = b; load = c; pending = h.counter c })) xs
      weaken [] hs = tt
      weaken (x ∷ xs) (out', hs) = ((λ k e. absurd (out' k e)), weaken xs hs)

  keep-Chosen :
      (seen : List ℕ) (m : Choice) (b c : ℕ)
      → Eligible b c
      → slt64 (h.counter c) m.pending ≡ false
      → IsLeast seen m
      → IsLeast (seen ++ b ∷ []) m
  keep-Chosen seen m b c e worse s = record {
    before = s.before;
    after = s.after ++ b ∷ [];
    place = rw s.place (append_assoc s.before (m.backend ∷ s.after) (b ∷ []));
    eligible = s.eligible;
    pending = s.pending;
    above = s.above;
    not_below = All-append (NotBelow m) s.after (b ∷ []) s.not_below ((λ k e'. ground arith), tt);
  }

  -- A smaller load than that of the choice so far is smaller than all the loads before it.
  beat-Chosen :
      (seen : List ℕ) (m : Choice) (b c : ℕ)
      → Eligible b c
      → slt64 (h.counter c) m.pending ≡ true
      → IsLeast seen m
      → IsLeast (seen ++ b ∷ []) (record { backend = b; load = c; pending = h.counter c })
  beat-Chosen seen m b c e better s = record {
    before = seen;
    after = [];
    place = refl;
    eligible = e;
    pending = refl;
    above = rw s.place (
        All-append (Above new) s.before (m.backend ∷ s.after) (lower s.before s.above)
          ((λ k e'. ground arith), rest s.after s.not_below));
    not_below = tt;
  }
    where
      new : Choice
      new = record { backend = b; load = c; pending = h.counter c }

      lower : (xs : List ℕ) → All (Above m) xs → All (Above new) xs
      lower [] hs = tt
      lower (x ∷ xs) (hx, hs) = (
        (λ k e'. slt64_trans (h.counter c) m.pending (h.counter k) better (hx k e')),
        lower xs hs,
      )

      rest : (xs : List ℕ) → All (NotBelow m) xs → All (Above new) xs
      rest [] hs = tt
      rest (x ∷ xs) (hx, hs) = (
        (λ k e'. slt64_of_not (h.counter c) m.pending (h.counter k) better (hx k e')),
        rest xs hs,
      )

  consider-Chosen :
      (seen : List ℕ) (best : Option Choice) (b : ℕ)
      → Chosen seen best
      → Chosen (seen ++ b ∷ []) (consider h loads b best)
  unfolding consider
  consider-Chosen seen best b s = elim (Bool-cases (is_healthy h b)) [
    | inr sick ↦ rw sick (skip-Chosen seen best b (λ c e. cc) s)
    | inl well ↦ elim (Option-cases (lookup b loads)) [
      | inl untracked ↦ rw (well, untracked) (skip-Chosen seen best b (λ c e. cc) s)
      | inr (c, found) ↦ rw (well, found) (compare_loads seen best b c (well, found) s)
    ]
  ]
    where
      compare_loads :
          (seen : List ℕ) (best : Option Choice) (b c : ℕ)
          → Eligible b c
          → Chosen seen best
          → Chosen (seen ++ b ∷ []) (consider_load h b (some c) best)
      compare_loads seen none b c e s = fresh-Chosen seen b c e s
      compare_loads seen (some m) b c e s = elim (Bool-cases (slt64 (h.counter c) m.pending)) [
        | inl better ↦ rw better (beat-Chosen seen m b c e better s)
        | inr worse ↦ rw worse (keep-Chosen seen m b c e worse s)
      ]

  pub fold_loads-Chosen :
      (seen bs : List ℕ) (best : Option Choice)
      → Chosen seen best
      → Chosen (seen ++ bs) (fold_loads best bs)
  fold_loads-Chosen seen [] best s = rw (append-nil seen) s
  fold_loads-Chosen seen (b ∷ bs) best s = rw (← append_assoc seen (b ∷ []) bs) (
      fold_loads-Chosen (seen ++ b ∷ []) bs (consider h loads b best)
        (consider-Chosen seen best b s))
