-- ===== src/Router/Names.antt =====
-- internal/router/strategy.go: the names of the strategies.
use infer_flow.Text.{Text, codes}

-- The constants `StrategyRoundRobin` to `StrategyCostAware`.
abbrev pub round_robin_name : Text
round_robin_name = codes "round_robin"

abbrev pub least_pending_name : Text
least_pending_name = codes "least_pending"

abbrev pub random_name : Text
random_name = codes "random"

abbrev pub kv_aware_name : Text
kv_aware_name = codes "kv_aware"

abbrev pub cost_aware_name : Text
cost_aware_name = codes "cost_aware"
