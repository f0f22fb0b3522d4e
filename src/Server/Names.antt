-- ===== src/Server/Names.antt =====
-- internal/server/server.go: the names of the strategies that the server offers.
use infer_flow.Prelude.{ℕ, ◌≡◌, ◌⊎◌, Bool, ◌||◌, arith, if◌then◌else◌}
use infer_flow.Text.{Text, is_empty, trim_space, to_lower, replace_char, text_beq, text_beq_iff}
use infer_flow.Router.Strategy.{round_robin_name, least_pending_name, random_name, kv_aware_name}

pub data NameError : Type 0 where
  strategy_required : NameError
  unsupported_strategy : NameError

pub data NameResult : Type 0 where
  named : Text → NameResult
  refused : NameError → NameResult

unfoldable pub is_offered : Text → Bool
is_offered name =
    text_beq name round_robin_name
    || text_beq name least_pending_name
    || text_beq name random_name
    || text_beq name kv_aware_name

-- `normalizeStrategyName`.
unfoldable pub normalize_strategy_name : (ℕ → ℕ) → Text → NameResult
unfolding is_offered
normalize_strategy_name lower raw =
    let name = replace_char b'-' b'_' (to_lower lower (trim_space raw)) in
    if is_empty name
    then refused strategy_required
    else if is_offered name
    then named name
    else refused unsupported_strategy

-- A name of a strategy that the server offers.
abbrev pub IsOffered : Text → Type 0
IsOffered name =
    (name ≡ round_robin_name)
    ⊎ ((name ≡ least_pending_name) ⊎ ((name ≡ random_name) ⊎ (name ≡ kv_aware_name)))

-- A name that passes `normalizeStrategyName` is one of the four that the server offers, in its plain
-- spelling; whatever the upper case, the dashes and the blanks of what came in.
pub normalize_strategy_name-IsOffered :
    (lower : ℕ → ℕ) (raw : Text) {name : Text}
    → normalize_strategy_name lower raw ≡ named name
    → IsOffered name
unfolding normalize_strategy_name
normalize_strategy_name-IsOffered lower raw {name} e = ground (
  arith,
  text_beq_iff name round_robin_name,
  text_beq_iff name least_pending_name,
  text_beq_iff name random_name,
  text_beq_iff name kv_aware_name,
)
