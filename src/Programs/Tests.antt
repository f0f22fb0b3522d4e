-- ===== src/Programs/Tests.antt =====
-- A router with two backends that is switched to `kv_aware`, and then asked the same question twice.
use mathlib.Core.List.{mem-cons_self, mem-cons_of_mem}
use infer_flow.Prelude.{ℕ, ◌+◌, ◌<◌, ◌≡◌, ◌≢◌, ◌++◌, refl, true, false, [], ◌∷◌, none, some, arith}
use infer_flow.Text.{
  Text, codes, trim_space, trim_left, trim_right, is_space, to_lower, replace_char,
}
use infer_flow.Assoc.{lookup, insert}
use infer_flow.Int64.{two63, add64, sub64, srem64, slt64, neg64}
use infer_flow.Cache.Store.{lifetime, ten_minutes}
use infer_flow.Cache.Memory.{
  MemoryStore, new_memory_store, memory_store, memory_store-StoreLaws, preferred_backend,
  read_entry, remember_backend,
}
use infer_flow.Proxy.{ChatCompletionResponse, completion_of}
use infer_flow.Router.Heap.{is_healthy, add_counter, new_counter}
use infer_flow.Router.Slots.{start_of, slot}
use infer_flow.Router.Loads.{Loads}
use infer_flow.Router.Loads
use infer_flow.Router.LeastPending
use infer_flow.Router.KvAware
use infer_flow.Router.Strategy.{Strategy, kv_aware, kv_aware_name}
use infer_flow.Router.Strategy
use infer_flow.Server.Config.{Affinity}
use infer_flow.Server.Names.{normalize_strategy_name, is_offered}
use infer_flow.Server.Request.{validate_chat_request, build_cache_key, key_payload}
use infer_flow.Server.State.{new_server, set_strategy, make_strategy}
use infer_flow.Server.Chat.{post, Pending, dispatched, open_chat, accept, dispatch, close_chat}
use infer_flow.Server.Samples.{
  die, whole, keep, no_digest, question, question_valid, environment, two_backends, two_loaded,
}
use infer_flow.Server.System.{System, switched, opened, here, next, opens, switches}
use infer_flow.Server.System.Identity.{name_at}
use infer_flow.Server.System.Equipped.{turns}
use infer_flow.Programs.Router.{boot}
use infer_flow.Programs.Router.Moves.{start-moves}
use infer_flow.Programs.Router.Sticky.{start-sticky}

abbrev connect : Affinity → MemoryStore
connect a = new_memory_store

abbrev switched_router : System MemoryStore ℕ ℕ
switched_router = switched die keep (codes "kv-aware") (boot connect two_backends)

-- The question goes to the first backend.
abbrev first : Pending ℕ
first = record {
  request = question;
  decision = record {
    backend = 0;
    pending_requests = 1;
    pending_cost = 0;
    cache_hit = false;
    release = some (0, neg64 1);
    released = false;
  };
  strategy_name = kv_aware_name;
  cache_key = build_cache_key no_digest (codes "m") question.messages;
  started = 7;
}

abbrev waiting_router : System MemoryStore ℕ ℕ
waiting_router = opened memory_store die no_digest 7 post (some question) switched_router

abbrev kv_loads : Loads
kv_loads = record { backends = 0 ∷ 1 ∷ []; next = 1; loads = (0, 0) ∷ (1, 1) ∷ [] }

abbrev response : ChatCompletionResponse
response = completion_of 8 question (record { model = codes "m"; output_text = codes "Ho" })

-- What the first request leaves behind.
first_waits :
    ((open_chat memory_store die no_digest 7 switched_router.server post (some question)).1
      ≡ dispatched first)
    × (waiting_router.server.strategy ≡ kv_aware kv_loads)
    × (is_healthy waiting_router.server.heap 0 ≡ true)
    × (waiting_router.server.cfg.cache_ttl ≡ ten_minutes)
    × (waiting_router.active ≡ [] ++ first ∷ [])
    × (is_healthy waiting_router.server.heap 1 ≡ true)
unfolding set_strategy normalize_strategy_name trim_space open_chat validate_chat_request accept
    dispatch Strategy.select replace_char to_lower make_strategy KvAware.select KvAware.ask_store
    KvAware.select_least_pending preferred_backend read_entry new_memory_store KvAware.new_kv_aware
    Loads.set_backends new_server Loads.choose Loads.scan Loads.track Loads.consider
    LeastPending.grant slot srem64 add64 insert lookup neg64 slt64 sub64 add_counter is_healthy
    new_counter start_of is_offered is_space trim_left trim_right build_cache_key key_payload
first_waits = (refl, refl, refl, refl, refl, refl)

few_turns : turns switched_router.server.strategy < two63
unfolding turns set_strategy normalize_strategy_name trim_space replace_char to_lower make_strategy
    KvAware.new_kv_aware Loads.set_backends new_server Loads.track is_offered is_space trim_left
    trim_right insert lookup new_counter
few_turns = omega arith

first_kept :
    (memory_store.remember_backend 8 first.cache_key
      (name_at waiting_router.server 0)
      waiting_router.server.cfg.cache_ttl
      waiting_router.server.cache_store).1
    ≡ true
unfolding remember_backend
first_kept = ground arith

in_time : 9 < 8 + lifetime waiting_router.server.cfg.cache_ttl
unfolding lifetime
in_time = rw (first_waits.3) (omega arith)

start-sticky_example :
    let s = (close_chat memory_store whole 8 waiting_router.server first (some response)).0 in
    (q : Pending ℕ) × ((open_chat memory_store die no_digest 9 s post (some question)).1
      ≡ dispatched q)
    × (q.decision.backend ≡ 0)
    × (q.decision.cache_hit ≡ true)
start-sticky_example =
    start-sticky environment (λ url. true) (λ s. none) two_backends two_loaded memory_store
      memory_store-StoreLaws die whole keep no_digest connect 7 8 9 question first response kv_loads
      (omega arith) (next here (switches (codes "kv-aware"))) few_turns first_waits.0 here
      first_waits.1 first_waits.2 first_kept in_time

-- The first backend fails, and the question moves to the second.
waiting_turns : turns waiting_router.server.strategy < two63
unfolding turns
waiting_turns = rw (first_waits.1) (omega arith)

takes_all :
    (key name : Text) (ttl : ℕ) (st : MemoryStore)
    → (memory_store.remember_backend 8 key name ttl st).1 ≡ true
unfolding remember_backend
takes_all key name ttl st = ground arith

start-moves_example :
    let s = (close_chat memory_store whole 7 waiting_router.server first none).0 in
    (q : Pending ℕ) × ((open_chat memory_store die no_digest 8 s post (some question)).1
      ≡ dispatched q)
    × (q.decision.backend ≢ 0)
    × (is_healthy waiting_router.server.heap q.decision.backend ≡ true)
    × (let s' = (open_chat memory_store die no_digest 8 s post (some question)).0 in
        let s'' = (close_chat memory_store whole 8 s' q (some response)).0 in
        (t : Pending ℕ) × ((open_chat memory_store die no_digest 9 s'' post (some question)).1
          ≡ dispatched t)
        × (t.decision.backend ≡ q.decision.backend)
        × (t.decision.cache_hit ≡ true))
start-moves_example =
    start-moves environment (λ url. true) (λ s. none) two_backends two_loaded memory_store
      memory_store-StoreLaws die whole keep no_digest connect 7 8 8 9 1 question first [] []
      response kv_loads (omega arith)
      (next (next here (switches (codes "kv-aware"))) (opens 7 post (some question)))
      (first_waits.4) (first_waits.1) waiting_turns question_valid (mem-cons_of_mem 0 mem-cons_self)
      (first_waits.5) (λ e. omega arith) takes_all in_time
