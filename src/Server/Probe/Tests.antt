-- ===== src/Server/Probe/Tests.antt =====
-- A round of health checks that all pass.
use infer_flow.Prelude.{ℕ, ◌≡◌, some, if◌then◌else◌}
use infer_flow.Cache.Memory.{MemoryStore, new_memory_store, memory_store}
use infer_flow.Proxy.{unreachable, replied}
use infer_flow.Proxy.Client.{Net, check_backend}
use infer_flow.Router.Heap.{is_healthy}
use infer_flow.Server.Samples.{die, whole, one_memory, config, no_digest, keep}
use infer_flow.Server.Handlers.{handle_readyz}
use infer_flow.Server.Probe.{listed, any_passes, probed_all, Reach-probe_backends}
use infer_flow.Server.System.{System, here, initial}

abbrev answering : Net ℕ
answering = record { get = λ url. replied 200 (some tt); post = λ url r. unreachable }

abbrev start : System MemoryStore ℕ ℕ
start = initial config new_memory_store one_memory

Reach-probe_backends_example :
    let s' = probed_all answering start.server in
    ((b : ℕ)
      → is_healthy s'.heap b ≡ (
          if listed b config.backends
          then check_backend answering (start.server.heap.backend b)
          else is_healthy start.server.heap b))
    × ((handle_readyz s').status
        ≡ (if any_passes answering start.server.heap config.backends then 200 else 503))
Reach-probe_backends_example =
    Reach-probe_backends memory_store die whole keep no_digest answering config new_memory_store
      one_memory here
