-- ===== src/Programs/Router.antt =====
-- cmd/router/main.go: the router from its start on.
pub mod Mocked
pub mod Adapted
pub mod Process
pub mod Sticky
pub mod Moves
mod Tests
use infer_flow.Prelude.{ℕ, zero, suc, List, [], ◌∷◌, Option, none, some, false, get_elem?, length}
use infer_flow.Router.Heap.{Backend, Heap}
use infer_flow.Server.Config.{Affinity, Loaded, ConfigResult, loaded, no_backends, invalid_backend}
use infer_flow.Server.State.{Config}
use infer_flow.Server.System.{System, initial}

-- The memory behind `LoadConfigFromEnv`: the backends that it made stand at the addresses from 0 on.
-- What stands at other addresses does not matter, since nothing points there.
abbrev nowhere : Backend
nowhere = record { name = []; base_url = []; healthy = false }

abbrev pub backend_or : Option Backend → Backend
backend_or none = nowhere
backend_or (some b) = b

abbrev pub memory_of : List Backend → Heap
memory_of bs = record { backend = λ k. backend_or (get_elem? bs k); counter = λ c. 0; fresh = 0 }

abbrev pub addresses : ℕ → ℕ → List ℕ
addresses zero from = []
addresses (suc n) from = from ∷ addresses n (suc from)

abbrev pub config_of : Loaded → Config
config_of l = record {
  listen_addr = l.listen_addr;
  backends = addresses (length l.backends) 0;
  probe_interval = l.probe_interval;
  backend_request_timeout = l.backend_request_timeout;
  cache_ttl = l.cache_ttl;
}

-- What `main` runs once the configuration is loaded, with the store that it is connected to.
abbrev pub boot : {S R F : Type 0} → (Affinity → S) → Loaded → System S R F
boot connect l = initial (config_of l) (connect l.affinity_store) (memory_of l.backends)

-- `main` up to `Run`; `none` is `log.Fatalf`.
unfoldable pub start : {S R F : Type 0} → (Affinity → S) → ConfigResult → Option (System S R F)
start connect (loaded l) = some (boot connect l)
start connect no_backends = none
start connect (invalid_backend raw) = none
