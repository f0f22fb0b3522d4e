-- ===== src/Server/Config.antt =====
-- internal/server/config.go: the configuration from the environment. `os.Getenv`, which gives "" for a
-- variable that is not set, `url.ParseRequestURI` and `time.ParseDuration` are parameters.
pub mod Urls
pub mod Backends
mod Tests
use infer_flow.Prelude.{ℕ, ◌+◌, ◌*◌, Bool, List, [], ◌∷◌, ◌++◌, Option, none, some, if◌then◌else◌}
use infer_flow.Text.{Text, codes, is_empty, trim_space, split}
use infer_flow.Text.Decimal.{decimal}
use infer_flow.Cache.Store.{ten_minutes}
use infer_flow.Router.Heap.{Backend, new_backend}

-- The loop of `splitAndTrim`.
unfoldable pub trim_parts : List Text → List Text
trim_parts [] = []
trim_parts (part ∷ parts) =
    let rest = trim_parts parts in
    let trimmed = trim_space part in if is_empty trimmed then rest else trimmed ∷ rest

unfoldable pub split_and_trim : Text → List Text
split_and_trim value = trim_parts (split b',' value)

-- The store that the configuration asks for.
pub data Affinity : Type 0 where
  redis : Text → Affinity
  memory : Affinity

-- Each backend is a new object; durations are in nanoseconds.
pub record Loaded : Type 0 where
  pub listen_addr : Text
  pub backends : List Backend
  pub probe_interval : ℕ
  pub backend_request_timeout : ℕ
  pub affinity_store : Affinity
  pub cache_ttl : ℕ

pub data ConfigResult : Type 0 where
  loaded : Loaded → ConfigResult
  no_backends : ConfigResult
  invalid_backend : Text → ConfigResult

pub data BackendsResult : Type 0 where
  made : List Backend → BackendsResult
  invalid : Text → BackendsResult

abbrev pub backend_name : ℕ → Text
backend_name n = codes "backend-" ++ decimal n

abbrev add_backend : Backend → BackendsResult → BackendsResult
add_backend b (made bs) = made (b ∷ bs)
add_backend b (invalid raw) = invalid raw

module _ (env : Text → Text) (parses : Text → Bool) (parse_duration : Text → Option ℕ) where
  unfoldable pub getenv : Text → Text → Text
  getenv key default_value = if is_empty (env key) then default_value else env key

  unfoldable pub duration_from_env : Text → ℕ → ℕ
  duration_from_env key fallback =
      if is_empty (env key)
      then fallback
      else elim (parse_duration (env key)) [ none ↦ fallback | some parsed ↦ parsed ]

  -- The loop over the URLs, from `idx` on: the first that is not valid ends it.
  unfoldable pub load_backends : ℕ → List Text → BackendsResult
  load_backends idx [] = made []
  load_backends idx (raw ∷ urls) =
      let rest = load_backends (idx + 1) urls in
      elim (new_backend parses (backend_name (idx + 1)) raw) [
        | none ↦ invalid raw
        | some backend ↦ add_backend backend rest
      ]

  unfoldable pub affinity_of : Text → Affinity
  affinity_of addr = if is_empty addr then memory else redis addr

  abbrev pub load_from : BackendsResult → ConfigResult
  load_from (invalid raw) = invalid_backend raw
  load_from (made backends) = loaded (record {
    listen_addr = getenv (codes "INFERFLOW_LISTEN_ADDR") (codes ":8080");
    backends = backends;
    probe_interval = 2 * 1000000000;
    backend_request_timeout = 10 * 1000000000;
    affinity_store = affinity_of (trim_space (getenv (codes "INFERFLOW_REDIS_ADDR") []));
    cache_ttl = duration_from_env (codes "INFERFLOW_CACHE_TTL") ten_minutes;
  })

  -- `LoadConfigFromEnv`.
  unfoldable pub load_config_from_env : ConfigResult
  load_config_from_env =
      let urls =
        split_and_trim (getenv (codes "INFERFLOW_BACKENDS") (codes "http://localhost:9000")) in
      elim urls [ [] ↦ no_backends | url ∷ more ↦ load_from (load_backends 0 (url ∷ more)) ]
