-- ===== src/Programs/Router/Tests.antt =====
-- A router that has just been started, in front of two mock backends.
use infer_flow.Prelude.{ℕ, ◌/◌, ◌<◌, ◌≡◌, refl, Bool, true, Mem, some, none, arith}
use infer_flow.Text.{codes}
use infer_flow.Int64.{two63}
use infer_flow.Cache.Memory.{MemoryStore, new_memory_store, memory_store}
use infer_flow.MockBackend.Answers.{mock_net}
use infer_flow.Adapter.{Generator, opts_of, serve}
use infer_flow.Adapter.EndToEnd.{delivered, completed}
use infer_flow.Proxy.{backend_request}
use infer_flow.Proxy.Client.{Net}
use infer_flow.Router.Heap.{is_healthy, any_healthy}
use infer_flow.Router.RoundRobin.{new_round_robin}
use infer_flow.Router.RoundRobin
use infer_flow.Router.Strategy.{has_healthy_backend}
use infer_flow.Server.Config.{Affinity}
use infer_flow.Server.State.{new_server}
use infer_flow.Server.Chat.{get, post}
use infer_flow.Server.Handlers.{handle_readyz}
use infer_flow.Server.Handle.{handle_chat_completions}
use infer_flow.Server.Handle.Outcomes.{Forwarded}
use infer_flow.Server.Samples.{die, whole, keep, no_digest, question, question_valid, two_backends}
use infer_flow.Server.System.{System, here}
use infer_flow.Server.System.Equipped.{turns}
use infer_flow.Programs.Router.{boot, config_of, memory_of}
use infer_flow.Programs.Router.Adapted.{checked, Reach-completed}
use infer_flow.Programs.Router.Mocked.{Greeted, start-Greeted}

abbrev connect : Affinity → MemoryStore
connect a = new_memory_store

abbrev router : System MemoryStore ℕ ℕ
router = boot connect two_backends

few_turns : turns router.server.strategy < two63
unfolding turns new_server new_round_robin
few_turns = omega arith

ready : (handle_readyz router.server).status ≡ 200
unfolding handle_readyz has_healthy_backend RoundRobin.has_healthy_backend any_healthy is_healthy
    new_server new_round_robin
ready = refl

start-Greeted_example :
    let (s', reply) =
      handle_chat_completions memory_store die whole no_digest mock_net 7 9000000000 router.server
        post
        (some question) in
    Greeted
      (9000000000 / 1000000000)
      (config_of two_backends).backends
      router.server
      question
      s'
      reply
start-Greeted_example =
    start-Greeted memory_store die whole keep no_digest connect two_backends 7 9000000000 question
      (omega arith) here few_turns question_valid ready

-- The adapters at both backends greet.
abbrev greeter : Generator ℕ
greeter = record { health_check = true; generate = λ opts. some (codes "Hello") }

abbrev wire : Net ℕ
wire = record {
  get = λ url. checked (serve greeter (codes "/healthz") get none);
  post = λ url b. delivered (serve greeter (codes "/infer") post (some b));
}

Reach-completed_example :
    let (s', reply) =
      handle_chat_completions memory_store die whole no_digest wire 7 9000000000 router.server post
        (some question) in
    (b : ℕ) × (hit : Bool) × Mem b (config_of two_backends).backends
    × (is_healthy router.server.heap b ≡ true)
    × Forwarded router.server b hit s' reply (
        completed
          (9000000000 / 1000000000)
          question
          (greeter.generate (opts_of (backend_request question))))
Reach-completed_example =
    Reach-completed memory_store die whole keep no_digest wire (λ base. greeter)
      (record { healthz = λ base. refl; infer = λ base b. refl }) (config_of two_backends)
      new_memory_store (memory_of two_backends.backends) 7 9000000000 question (λ c. refl) here
      (omega arith) few_turns question_valid ready
