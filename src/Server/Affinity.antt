-- ===== src/Server/Affinity.antt =====
-- Prompts that come again, through the whole of the server.
pub mod Again
use infer_flow.Prelude.{
  ℕ, ◌+◌, ◌-◌, ◌<◌, ◌≡◌, ◌≢◌, refl, ◌∙◌, ap, true, List, [], Option, none, some, Mem, arith,
}
use infer_flow.Text.{Text, trim_space}
use infer_flow.Cache.Store.{Store, StoreLaws}
use infer_flow.Proxy.{ChatCompletionRequest}
use infer_flow.Router.Heap.{Heap, is_healthy, add_counter}
use infer_flow.Router.Decision.{SelectionInput, ok, Decision, release, Outcome}
use infer_flow.Router.Random.{Rng}
use infer_flow.Router.Loads.{Loads}
use infer_flow.Router.Loads.Serves.{Covered}
use infer_flow.Router.KvAware
use infer_flow.Router.KvAware.Affinity.{any_named, select-remember_backend}
use infer_flow.Router.Strategy.{Strategy, kv_aware}
use infer_flow.Router.Strategy
use infer_flow.Server.Request.{validate_chat_request, estimate_request_cost, build_cache_key}
use infer_flow.Server.Request.Key.{build_cache_key_filled}
use infer_flow.Server.State.{Server}
use infer_flow.Server.Chat.{post, Pending, Opened, dispatched, dispatch, accept, open_chat}

-- A request that goes to a healthy backend of the list with this name, as a cache hit.
pub record IsHit {S R F : Type 0} (h : Heap) (bs : List ℕ) (name : Text)
    (o : Server S R F × Opened F) : Type 0 where
  pub pending : Pending F
  pub opened : o.1 ≡ dispatched pending
  pub hit : pending.decision.cache_hit ≡ true
  pub member : Mem pending.decision.backend bs
  pub healthy : is_healthy h pending.decision.backend ≡ true
  pub named : (h.backend pending.decision.backend).name ≡ name

-- A release moves a load counter and no backend.
pub release-backend : (d : Decision) (h : Heap) → (release d h).1.backend ≡ h.backend
unfolding release add_counter
release-backend d h = ground arith

module _ {S R F : Type 0} where
  pub dispatch_ok :
      (now : ℕ) (s : Server S R F) (r : ChatCompletionRequest F) (key : Text) (o : Outcome Decision)
      (d : Decision)
      → o ≡ ok d
      → (dispatch now s r key o).1
        ≡ dispatched (record {
          request = r;
          decision = d;
          strategy_name = s.strategy_name;
          cache_key = key;
          started = now;
        })
  unfolding dispatch
  dispatch_ok now s r key o d e = rw e

module _ {S R : Type 0} (store : Store S) (g : Rng R) where
  -- The strategy `kv_aware` asks its own `Select`.
  select-kv_aware :
      (now : ℕ) (h : Heap) (st : Option S) (q : Strategy R) (l : Loads) (input : SelectionInput)
      → q ≡ kv_aware l
      → (Strategy.select store g now h st q input).decision
        ≡ (KvAware.select store now h st l input).1.2
  unfolding Strategy.select
  select-kv_aware now h st q l input e = rw e

module _ {S R F : Type 0} (store : Store S) (g : Rng R) (sha256 : Text → List ℕ) where
  pub open_chat-accept :
      (now : ℕ) (s : Server S R F) (r : ChatCompletionRequest F)
      → validate_chat_request r ≡ none
      → open_chat store g sha256 now s post (some r) ≡ accept store g sha256 now s r
  unfolding open_chat
  open_chat-accept now s r e = rw (e, open_chat) refl

module _ {S R F : Type 0} (store : Store S) {lasts : ℕ → ℕ} (laws : StoreLaws lasts store)
    (g : Rng R) (sha256 : Text → List ℕ) (now later : ℕ) (r : ChatCompletionRequest F)
    (valid : validate_chat_request r ≡ none) where
  -- A server whose store has just been told where the prompt went.
  open_chat-IsHit :
      (s : Server S R F) (l : Loads) (st : S) (name : Text) (ttl : ℕ)
      → s.strategy ≡ kv_aware l
      → s.cache_store
        ≡ (store.remember_backend now (build_cache_key sha256 r.model r.messages) name ttl st).0
      → trim_space name ≢ []
      → (store.remember_backend now (build_cache_key sha256 r.model r.messages) name ttl st).1
        ≡ true
      → later < now + lasts ttl
      → Covered l.loads l.backends
      → any_named s.heap (trim_space name) l.backends ≡ true
      → IsHit s.heap l.backends (trim_space name) (open_chat store g sha256 later s post (some r))
  unfolding accept
  open_chat-IsHit s l st name ttl kv told filled done lt cs e =
      let input : SelectionInput = record {
        estimated_cost = estimate_request_cost r.messages;
        cache_key = build_cache_key sha256 r.model r.messages;
      } in
      let (d, chosen, hit, member, healthy, named) =
        select-remember_backend store laws now later ttl name st s.heap l input
          (build_cache_key_filled sha256 r valid) filled done lt cs e in
      record {
        pending = record {
          request = r;
          decision = d;
          strategy_name = s.strategy_name;
          cache_key = build_cache_key sha256 r.model r.messages;
          started = later;
        };
        opened =
            ap (λ o. o.1) (open_chat-accept store g sha256 later s r valid)
            ∙ dispatch_ok later _ r _ _ d (
                select-kv_aware store g later s.heap (some s.cache_store) s.strategy l input kv
                ∙ ap (λ t. (KvAware.select store later s.heap (some t) l input).1.2) told
                ∙ chosen);
        hit = hit;
        member = member;
        healthy = healthy;
        named = named;
      }
