-- ===== src/Server/System/Balance.antt =====
-- The load counters agree with the requests in flight.
use infer_flow.Prelude.{
  ℕ, nat_eq, ◌≤◌, ◌<◌, ◌≡◌, refl, sym, inl, inr, Bool, false, List, [], ◌∷◌, ◌++◌, Option, none,
  some, arith, All, All-middle, ==_iff,
}
use infer_flow.Int64.{two64, add64, add64-lt, add64_zero}
use infer_flow.Router.Heap.{Heap, add_counter, set_healthy}
use infer_flow.Router.Decision.{Decision, ok, release, run_release}
use infer_flow.Router.Loads.{track}
use infer_flow.Router.Loads.Track.{track-counter, track-Extends}
use infer_flow.Router.Strategy.Release.{Charge, Charges}
use infer_flow.Server.Chat.{Pending}
use infer_flow.Server.System.Due.{
  owed, due, Allocated, AllAllocated, due-middle, due_unallocated, balance_opened, balance_same,
  balance_closed,
}

-- Each counter and what its requests in flight will still add to it cancel out.
pub record IsBalanced {F : Type 0} (h : Heap) (ps : List (Pending F)) : Type 0 where
  pub words : (c : ℕ) → h.counter c < two64
  pub allocated : AllAllocated h ps
  pub unreleased : All (λ p. p.decision.released ≡ false) ps
  pub balance : (c : ℕ) → add64 (h.counter c) (due c ps) ≡ 0

run_release-counter :
    (h : Heap) (r : Option (ℕ × ℕ))
    → ((c : ℕ) → h.counter c < two64)
    → (c : ℕ) → (run_release r h).counter c ≡ add64 (h.counter c) (owed c r)
unfolding owed add_counter
run_release-counter h none words c = sym (add64_zero (h.counter c) (words c))
run_release-counter h (some (k, e)) words c =
    ground (arith, ==_iff k c, add64_zero (h.counter c) (words c))

run_release-fresh : (h : Heap) (r : Option (ℕ × ℕ)) → (run_release r h).fresh ≡ h.fresh
unfolding add_counter
run_release-fresh h none = refl
run_release-fresh h (some (k, e)) = refl

release-run_release :
    (d : Decision) (h : Heap) → d.released ≡ false → (release d h).1 ≡ run_release d.release h
unfolding release
release-run_release d h e = rw e

module _ {F : Type 0} where
  Allocated-mono :
      (h h' : Heap) (ps : List (Pending F))
      → h.fresh ≤ h'.fresh
      → AllAllocated h ps
      → AllAllocated h' ps
  Allocated-mono h h' [] le a = tt
  Allocated-mono h h' (p ∷ ps) le (a, as') =
      (one p.decision.release a, Allocated-mono h h' ps le as')
    where
      one : (r : Option (ℕ × ℕ)) → Allocated h r → Allocated h' r
      one none a = tt
      one (some (c, e)) a = omega arith

  Charge-parts :
      (h h' : Heap) (ps : List (Pending F)) (r : Option (ℕ × ℕ))
      → IsBalanced h ps
      → Charge h h' r
      → ((c : ℕ) → h'.counter c < two64)
        × Allocated h' r
        × (h.fresh ≤ h'.fresh)
        × ((c : ℕ) → add64 (h'.counter c) (add64 (owed c r) (due c ps)) ≡ 0)
  unfolding owed add_counter
  Charge-parts h h' ps none b e =
      rw e (b.words, tt, omega arith, λ c. balance_same (h.counter c) (due c ps) (b.balance c))
  Charge-parts h h' ps (some (k, e)) b (below, (d, back, grown)) =
      rw (grown, back)
        (
          (λ c. ground (arith, b.words c, add64-lt (h.counter c) d)),
          below,
          omega arith,
          λ c. ground (
            arith,
            ==_iff k c,
            balance_opened (h.counter c) d (due c ps) (b.balance c),
            balance_same (h.counter c) (due c ps) (b.balance c),
          ),
        )

  -- A request comes in with a decision that a selection has just charged.
  pub IsBalanced-charge :
      (h h' : Heap) (p : Pending F) (ps : List (Pending F))
      → IsBalanced h ps
      → Charges h h' (ok p.decision)
      → IsBalanced h' (p ∷ ps)
  IsBalanced-charge h h' p ps b (unreleased, charged) =
      let parts = Charge-parts h h' ps p.decision.release b charged in
      record {
        words = parts.0;
        allocated = (parts.1, Allocated-mono h h' ps parts.2 b.allocated);
        unreleased = (unreleased, b.unreleased);
        balance = unfold due in parts.3;
      }

  -- A request ends, wherever it stands among those in flight.
  pub IsBalanced-release :
      (h : Heap) (p : Pending F) (before after : List (Pending F))
      → IsBalanced h (before ++ p ∷ after)
      → IsBalanced (release p.decision h).1 (before ++ after)
  IsBalanced-release h p before after b =
      let r = p.decision.release in
      let h' = run_release r h in
      rw (release-run_release p.decision h (All-middle _ before after b.unreleased).0) (record {
        words = λ c. rw (run_release-counter h r b.words c) (add64-lt (h.counter c) (owed c r));
        allocated =
            Allocated-mono h h' (before ++ after) (omega (arith, run_release-fresh h r))
              (All-middle _ before after b.allocated).1;
        unreleased = (All-middle _ before after b.unreleased).1;
        balance = λ c. rw (run_release-counter h r b.words c) (
            balance_closed (h.counter c) (owed c r) (due c (before ++ after))
              (rw (← due-middle c before after p) (b.balance c)));
      })

  -- A change of a backend's health touches no counter.
  pub IsBalanced-set_healthy :
      (h : Heap) (k : ℕ) (v : Bool) (ps : List (Pending F))
      → IsBalanced h ps
      → IsBalanced (set_healthy k v h) ps
  unfolding set_healthy
  IsBalanced-set_healthy h k v ps b = record {
    words = b.words;
    allocated = b.allocated;
    unreleased = b.unreleased;
    balance = b.balance;
  }

  -- New counters start at zero, at addresses where nothing is due.
  pub IsBalanced-track :
      (h : Heap) (old : List (ℕ × ℕ)) (bs : List ℕ) (updated : List (ℕ × ℕ)) (ps : List (Pending F))
      → IsBalanced h ps
      → IsBalanced (track h old bs updated).0 ps
  IsBalanced-track h old bs updated ps b = record {
    words = words';
    allocated =
        Allocated-mono h (track h old bs updated).0 ps (track-Extends h old bs updated).fresh
          b.allocated;
    unreleased = b.unreleased;
    balance = balance';
  }
    where
      words' : (c : ℕ) → (track h old bs updated).0.counter c < two64
      words' c = elim (track-counter h old bs updated c) [
        | inl same ↦ rw same (b.words c)
        | inr (zeroed, le) ↦ rw zeroed (omega arith)
      ]

      balance' : (c : ℕ) → add64 ((track h old bs updated).0.counter c) (due c ps) ≡ 0
      balance' c = elim (track-counter h old bs updated c) [
        | inl same ↦ rw same (b.balance c)
        | inr (zeroed, le) ↦
            rw (zeroed, due_unallocated h c ps le b.allocated) (add64_zero 0 (omega arith))
      ]
