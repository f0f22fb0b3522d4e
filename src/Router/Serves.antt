-- ===== src/Router/Serves.antt =====
-- What a selection owes its caller: a healthy backend of the list, or none if there is none.
use mathlib.Core.Logic.Or
use mathlib.Core.List.{mem-cons_of_mem, not-mem-nil, eq-or-mem_of_mem-cons}
use mathlib.Core.List.Perm
use infer_flow.Prelude.{
  ℕ, nat_eq, ap, inl, inr, Bool-cases, ◌≡◌, refl, true, false, List, [], ◌∷◌, arith, All,
  All-rotate_inv, rotate, rotate-perm, Mem,
}
use infer_flow.Router.Heap.{Heap, is_healthy, any_healthy}
use infer_flow.Router.Decision.{Outcome, ok, no_healthy_backend, panic}

abbrev pub NoneHealthy : Heap → List ℕ → Type 0
NoneHealthy h = All (λ b. is_healthy h b ≡ false)

-- The answer `ok b` is a healthy member of `bs`, the error means that no member is, and there is no
-- panic.
abbrev pub Serves {ℓ} : {A : Type ℓ} → Heap → List ℕ → (A → ℕ) → Outcome A → Type 0
Serves h bs backend (ok a) = Mem (backend a) bs × (is_healthy h (backend a) ≡ true)
Serves h bs backend no_healthy_backend = NoneHealthy h bs
Serves h bs backend panic = ⊥

pub Serves-rotate {ℓ} :
    {A : Type ℓ} (h : Heap) (n : ℕ) (bs : List ℕ) (backend : A → ℕ) (o : Outcome A)
    → Serves h (rotate n bs) backend o
    → Serves h bs backend o
Serves-rotate h n bs backend (ok a) (m, healthy) = ((Perm.mem_iff (rotate-perm n bs)).0 m, healthy)
Serves-rotate h n bs backend no_healthy_backend s = All-rotate_inv _ n bs s
Serves-rotate h n bs backend panic s = s

-- `HasHealthyBackend` is false exactly when no backend is healthy.
pub any_healthy-false : (h : Heap) (bs : List ℕ) → any_healthy h bs ≡ false → NoneHealthy h bs
unfolding any_healthy
any_healthy-false h [] e = tt
any_healthy-false h (b ∷ bs) e = ground (arith, any_healthy-false h bs)

pub any_healthy_none : (h : Heap) (bs : List ℕ) → NoneHealthy h bs → any_healthy h bs ≡ false
unfolding any_healthy
any_healthy_none h [] s = refl
any_healthy_none h (b ∷ bs) (sick, s) = rw (sick, any_healthy_none h bs s) refl

pub Serves-cons {ℓ} :
    {A : Type ℓ} (h : Heap) (b : ℕ) (bs : List ℕ) (backend : A → ℕ) (o : Outcome A)
    → is_healthy h b ≡ false
    → Serves h bs backend o
    → Serves h (b ∷ bs) backend o
Serves-cons h b bs backend (ok a) sick (m, healthy) = (mem-cons_of_mem b m, healthy)
Serves-cons h b bs backend no_healthy_backend sick s = (sick, s)
Serves-cons h b bs backend panic sick s = s

-- A healthy backend of the list is found.
pub any_healthy-here :
    (h : Heap) (bs : List ℕ) (b : ℕ) → Mem b bs → is_healthy h b ≡ true → any_healthy h bs ≡ true
unfolding any_healthy
any_healthy-here h [] b m e = absurd (not-mem-nil m)
any_healthy-here h (b' ∷ bs) b m e = elim (Bool-cases (is_healthy h b')) [
  | inl up ↦ rw up refl
  | inr down ↦
      Or.elim (hlevel) (eq-or-mem_of_mem-cons m) (λ same. absurd (cc (ap (is_healthy h) same)))
        (λ later. rw (down) (any_healthy-here h bs b later e))
]
