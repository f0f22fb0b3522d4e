-- ===== src/Router/Random.antt =====
-- internal/router/random.go. The generator of `math/rand` is a parameter: its state, `NewSource` and
-- `Intn`, which answers below its argument.
pub mod Healthy
use infer_flow.Prelude.{
  ℕ, ◌<◌, Bool, Option, none, some, List, [], ◌∷◌, ◌==◌, if◌then◌else◌, length, get_elem?,
}
use infer_flow.Text.{Text}
use infer_flow.Router.Names.{random_name}
use infer_flow.Router.Heap.{Heap, is_healthy, any_healthy}
use infer_flow.Router.Decision.{
  SelectionInput, Outcome, ok, no_healthy_backend, panic, Decision, no_release,
}

pub record Rng (R : Type 0) : Type 0 where
  pub new_source : ℕ → R
  pub intn : R → ℕ → R × ℕ
  pub intn_lt : (r : R) (n : ℕ) → 0 < n → (intn r n).1 < n

pub record Random (R : Type 0) : Type 0 where
  pub backends : List ℕ
  pub rng : R

-- The loop that collects `healthy`.
unfoldable pub healthy_of : Heap → List ℕ → List ℕ
healthy_of h [] = []
healthy_of h (b ∷ bs) = let rest = healthy_of h bs in if is_healthy h b then b ∷ rest else rest

-- `healthy[idx]`.
abbrev pub pick_index : Option ℕ → Outcome Decision
pick_index none = panic
pick_index (some b) = ok (no_release b)

module _ {R : Type 0} (g : Rng R) where
  unfoldable pub new_random : List ℕ → Random R
  new_random bs = record { backends = bs; rng = g.new_source 1 }

  unfoldable pub select : Heap → Random R → SelectionInput → Random R × Outcome Decision
  select h s input =
      let healthy = healthy_of h s.backends in
      if length healthy == 0
      then (s, no_healthy_backend)
      else (let (rng', idx) = g.intn s.rng (length healthy) in
          (record s { rng = rng' }, pick_index (get_elem? healthy idx)))

unfoldable pub set_backends : {R : Type 0} → List ℕ → Random R → Random R
set_backends bs s = record s { backends = bs }

unfoldable pub has_healthy_backend : {R : Type 0} → Heap → Random R → Bool
has_healthy_backend h s = any_healthy h s.backends

-- `Name`.
abbrev pub name : Text
name = random_name
