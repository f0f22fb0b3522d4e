-- ===== src/Router/Heap.antt =====
-- internal/router/backend.go, and the memory that the strategies share: a `*Backend` and a
-- `*atomic.Int64` are addresses. A pointer of the program is never dangling, so that the memory is
-- total; `fresh` is the address of the next counter.
use infer_flow.Prelude.{
  ℕ, arith, ◌≡◌, suc, Bool, true, false, Option, none, some, List, [], ◌∷◌, ◌==◌, if◌then◌else◌,
}
use infer_flow.Text.{Text, trim_space, trim_right_slash}
use infer_flow.Int64.{add64}

pub record Backend : Type 0 where
  pub name : Text
  pub base_url : Text
  pub healthy : Bool

pub record Heap : Type 0 where
  pub backend : ℕ → Backend
  pub counter : ℕ → ℕ
  pub fresh : ℕ

abbrev pub update {ℓ} : {A : Type ℓ} → (ℕ → A) → ℕ → A → ℕ → A
update f k v j = if k == j then v else f j

-- `NewBackend`; `parses` is `url.ParseRequestURI(baseURL)` without an error.
unfoldable pub new_backend : (Text → Bool) → Text → Text → Option Backend
new_backend parses name base_url =
    if parses base_url
    then some
        (record { name = trim_space name; base_url = trim_right_slash base_url; healthy = true })
    else none

unfoldable pub set_healthy : ℕ → Bool → Heap → Heap
set_healthy b healthy h = record h {
  backend = update h.backend b (record (h.backend b) { healthy = healthy });
}

unfoldable pub is_healthy : Heap → ℕ → Bool
is_healthy h b = (h.backend b).healthy

-- `&atomic.Int64{}`, at the address `h.fresh`.
unfoldable pub new_counter : Heap → Heap
new_counter h = record h { counter = update h.counter h.fresh 0; fresh = suc h.fresh }

-- `counter.Add(d)`.
unfoldable pub add_counter : ℕ → ℕ → Heap → Heap
add_counter c d h = record h { counter = update h.counter c (add64 (h.counter c) d) }

-- `HasHealthyBackend`, the same loop in every strategy.
unfoldable pub any_healthy : Heap → List ℕ → Bool
any_healthy h [] = false
any_healthy h (b ∷ bs) = if is_healthy h b then true else any_healthy h bs

-- Health is no name.
pub set_healthy-name :
    (k : ℕ) (v : Bool) (h : Heap) (b : ℕ)
    → ((set_healthy k v h).backend b).name ≡ (h.backend b).name
unfolding set_healthy
set_healthy-name k v h b = ground arith
