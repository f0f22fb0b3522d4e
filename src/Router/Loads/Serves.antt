-- ===== src/Router/Loads/Serves.antt =====
-- The choice by load serves its caller where every backend has a counter.
use mathlib.Core.List.{mem-cons_self, mem-append_right}
use infer_flow.Prelude.{
  ℕ, nat_eq, ◌%◌, ◌≤◌, ◌<◌, ◌≡◌, refl, Bool, true, false, List, [], ◌∷◌, some, All, All-rotate,
  rotate, length,
}
use infer_flow.Assoc.{lookup}
use infer_flow.Int64.{two63}
use infer_flow.Router.Heap.{Heap, is_healthy}
use infer_flow.Router.Slots.{max_backends}
use infer_flow.Router.Decision.{Outcome, ok, no_healthy_backend, panic}
use infer_flow.Router.Serves.{Serves, NoneHealthy, Serves-rotate}
use infer_flow.Router.Loads.{Loads, Choice, choose}
use infer_flow.Router.Loads.Chosen.{Ineligible}
use infer_flow.Router.Loads.Least.{Chooses, choose-Chooses}

-- Every backend of the list has a counter.
abbrev pub Covered : List (ℕ × ℕ) → List ℕ → Type 0
Covered loads = All (λ b. (c : ℕ) × (lookup b loads ≡ some c))

Ineligible-NoneHealthy :
    (h : Heap) (loads : List (ℕ × ℕ)) (bs : List ℕ)
    → Covered loads bs
    → All (Ineligible h loads) bs
    → NoneHealthy h bs
Ineligible-NoneHealthy h loads [] cs s = tt
Ineligible-NoneHealthy h loads (b ∷ bs) ((c, e), cs) (out, s) =
    (sick (is_healthy h b) refl, Ineligible-NoneHealthy h loads bs cs s)
  where
    sick : (v : Bool) → is_healthy h b ≡ v → is_healthy h b ≡ false
    sick true well = absurd (out c (well, e))
    sick false e' = e'

Chooses-Serves :
    (h : Heap) (loads : List (ℕ × ℕ)) (bs : List ℕ) (o : Outcome Choice)
    → Covered loads bs
    → Chooses h loads bs o
    → Serves h bs (λ c. c.backend) o
Chooses-Serves h loads bs (ok m) cs s =
    (rw s.place (mem-append_right s.before mem-cons_self), s.eligible.0)
Chooses-Serves h loads bs no_healthy_backend cs s = Ineligible-NoneHealthy h loads bs cs s
Chooses-Serves h loads bs panic cs s = s

pub choose-Serves :
    (h : Heap) (s : Loads)
    → 0 < length s.backends
    → length s.backends ≤ max_backends
    → s.next < two63
    → Covered s.loads s.backends
    → Serves h s.backends (λ c. c.backend) (choose h s).1
choose-Serves h s some_backend fits hn cs =
    let start = s.next % length s.backends in
    Serves-rotate h start s.backends _ (choose h s).1 (
      Chooses-Serves h s.loads (rotate start s.backends) (choose h s).1
        (All-rotate _ start s.backends cs) (choose-Chooses h s some_backend fits hn))
