-- ===== src/Server/System/Due.antt =====
-- What the requests in flight will still add to each counter when they release their decisions.
use infer_flow.Prelude.{
  ℕ, ◌≤◌, ◌<◌, ◌≡◌, refl, ap, ◌∙◌, List, [], ◌∷◌, ◌++◌, Option, none, some, arith, All, length,
  ◌==◌, if◌then◌else◌, suc, length-append,
}
use infer_flow.Int64.{two64, add64, neg64, add64_assoc}
use infer_flow.Router.Heap.{Heap}
use infer_flow.Server.Chat.{Pending}

unfoldable pub owed : ℕ → Option (ℕ × ℕ) → ℕ
owed c none = 0
owed c (some (k, e)) = if k == c then e else 0

unfoldable pub due : {F : Type 0} → ℕ → List (Pending F) → ℕ
due c [] = 0
due c (p ∷ ps) = add64 (owed c p.decision.release) (due c ps)

-- A release that is still to come goes to an allocated counter.
abbrev pub Allocated : Heap → Option (ℕ × ℕ) → Type 0
Allocated h none = Unit {0}
Allocated h (some (c, e)) = c < h.fresh

abbrev pub AllAllocated : {F : Type 0} → Heap → List (Pending F) → Type 0
AllAllocated h = All (λ p. Allocated h p.decision.release)

add64_left_comm : (a b c : ℕ) → add64 a (add64 b c) ≡ add64 b (add64 a c)
unfolding add64
add64_left_comm a b c = omega arith

pub due-middle :
    {F : Type 0} (c : ℕ) (before after : List (Pending F)) (p : Pending F)
    → due c (before ++ p ∷ after) ≡ add64 (owed c p.decision.release) (due c (before ++ after))
unfolding due
due-middle c [] after p = refl
due-middle c (q ∷ qs) after p =
    ap (add64 (owed c q.decision.release)) (due-middle c qs after p)
    ∙ add64_left_comm (owed c q.decision.release) (owed c p.decision.release) (due c (qs ++ after))

-- Nothing is due at a counter that is not allocated.
pub due_unallocated :
    {F : Type 0} (h : Heap) (c : ℕ) (ps : List (Pending F))
    → h.fresh ≤ c
    → AllAllocated h ps
    → due c ps ≡ 0
unfolding due
due_unallocated h c [] le a = refl
due_unallocated h c (p ∷ ps) le (ap, as') =
    rw (due_unallocated h c ps le as') (none_owed p.decision.release ap)
  where
    none_owed : (r : Option (ℕ × ℕ)) → Allocated h r → add64 (owed c r) 0 ≡ 0
    none_owed none a = unfold owed add64 in refl
    none_owed (some (k, e)) a = unfold owed add64 in ground arith

pub balance_opened : (x d y : ℕ) → add64 x y ≡ 0 → add64 (add64 x d) (add64 (neg64 d) y) ≡ 0
unfolding add64 neg64
balance_opened x d y e = omega arith

pub balance_same : (x y : ℕ) → add64 x y ≡ 0 → add64 x (add64 0 y) ≡ 0
unfolding add64
balance_same x y e = omega arith

pub balance_closed : (x e y : ℕ) → add64 x (add64 e y) ≡ 0 → add64 (add64 x e) y ≡ 0
balance_closed x e y b = add64_assoc x e y ∙ b

pub balance_zero : (x : ℕ) → x < two64 → add64 x 0 ≡ 0 → x ≡ 0
unfolding add64
balance_zero x h e = omega arith

pub length-middle :
    {F : Type 0} (before after : List (Pending F)) (p : Pending F)
    → length (before ++ p ∷ after) ≡ suc (length (before ++ after))
length-middle before after p =
    omega (arith, length-append before (p ∷ after), length-append before after)
