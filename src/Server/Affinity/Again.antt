-- ===== src/Server/Affinity/Again.antt =====
-- internal/server/server.go: a prompt that comes again after it was answered.
use mathlib.Core.List.{not-mem-nil, eq-or-mem_of_mem-cons}
use mathlib.Core.Logic.Or
use infer_flow.Prelude.{
  ℕ, ◌+◌, ◌<◌, ◌≡◌, ◌≢◌, refl, sym, ◌∙◌, ap, Bool, true, false, ◌||◌, List, [], ◌∷◌, none, some,
  Mem, arith,
}
use infer_flow.Text.{trim_left, trim_right, Text, is_empty, trim_space, text_beq_refl}
use infer_flow.Cache.Store.{Store, StoreLaws}
use infer_flow.Metrics.{Float64}
use infer_flow.Proxy.{ChatCompletionRequest, ChatCompletionResponse}
use infer_flow.Router.Heap.{Heap, is_healthy}
use infer_flow.Router.Random.{Rng}
use infer_flow.Router.Loads.{Loads}
use infer_flow.Router.Loads.Serves.{Covered}
use infer_flow.Router.KvAware.Affinity.{is_named, any_named}
use infer_flow.Router.Strategy.{kv_aware}
use infer_flow.Server.Request.{validate_chat_request, build_cache_key}
use infer_flow.Server.Request.Key.{build_cache_key_filled, not_empty}
use infer_flow.Server.State.{Server}
use infer_flow.Server.Chat.{
  post, Pending, dispatched, open_chat, record_affinity, run_defers, settle_chat, close_chat,
}
use infer_flow.Server.Affinity.{release-backend, open_chat-IsHit}

any_named-here :
    (h : Heap) (name : Text) (b : ℕ) (bs : List ℕ)
    → Mem b bs
    → is_named h name b ≡ true
    → any_named h name bs ≡ true
any_named-here h name b [] m e = absurd (not-mem-nil m)
any_named-here h name b (b' ∷ bs) m e =
    Or.elim (hlevel) (eq-or-mem_of_mem-cons m)
      (λ same. ap (λ k. is_named h name k || any_named h name bs) (sym same) ∙ rw e refl)
      (λ later. rw (any_named-here h name b bs later e) (or_true (is_named h name b')))
  where
    or_true : (v : Bool) → (v || true) ≡ true
    or_true v = ground arith

-- The backends of two memories that hold the same backends.
is_named-same :
    (h h' : Heap) (b : ℕ)
    → h'.backend ≡ h.backend
    → is_healthy h b ≡ true
    → is_named h' (h.backend b).name b ≡ true
unfolding is_healthy
is_named-same h h' b same e = rw (same, text_beq_refl (h.backend b).name) e

key_filled :
    {F : Type 0} (sha256 : Text → List ℕ) (r : ChatCompletionRequest F)
    → validate_chat_request r ≡ none
    → build_cache_key sha256 r.model r.messages ≢ []
key_filled sha256 r valid e =
    build_cache_key_filled sha256 r valid
      (ap trim_space e ∙ (unfold trim_space trim_left trim_right in refl))

module _ {S R F : Type 0} (store : Store S) (float : Float64 F) where
  -- What a request that was answered leaves: the strategy, the backends and the store's new name.
  record IsSettled (now : ℕ) (s : Server S R F) (p : Pending F) (s' : Server S R F) : Type 0 where
    cfg : s'.cfg ≡ s.cfg
    strategy : s'.strategy ≡ s.strategy
    backends : s'.heap.backend ≡ s.heap.backend
    told :
        s'.cache_store
        ≡ (store.remember_backend now p.cache_key
            (s.heap.backend p.decision.backend).name
            s.cfg.cache_ttl
            s.cache_store).0

  close_chat-IsSettled :
      (now : ℕ) (s : Server S R F) (p : Pending F) (response : ChatCompletionResponse)
      → is_empty p.cache_key ≡ false
      → is_empty (s.heap.backend p.decision.backend).name ≡ false
      → IsSettled now s p (close_chat store float now s p (some response)).0
  unfolding close_chat settle_chat record_affinity run_defers
  close_chat-IsSettled now s p response key name =
      rw (key, name)
        (record {
          cfg = refl;
          strategy = refl;
          backends = release-backend p.decision s.heap;
          told = refl;
        })

module _ {S R F : Type 0} (store : Store S) {lasts : ℕ → ℕ} (laws : StoreLaws lasts store)
    (float : Float64 F) (g : Rng R) (sha256 : Text → List ℕ) where
  pub open_chat-close_chat :
      (now later : ℕ) (s : Server S R F) (l : Loads) (p : Pending F)
      (response : ChatCompletionResponse) (r : ChatCompletionRequest F)
      → validate_chat_request r ≡ none
      → p.cache_key ≡ build_cache_key sha256 r.model r.messages
      → s.strategy ≡ kv_aware l
      → Covered l.loads l.backends
      → Mem p.decision.backend l.backends
      → is_healthy s.heap p.decision.backend ≡ true
      → let name = (s.heap.backend p.decision.backend).name in
        trim_space name ≡ name
        → name ≢ []
        → ((b : ℕ) → Mem b l.backends → (s.heap.backend b).name ≡ name → b ≡ p.decision.backend)
        → (store.remember_backend now p.cache_key name s.cfg.cache_ttl s.cache_store).1 ≡ true
        → later < now + lasts s.cfg.cache_ttl
        → let s' = (close_chat store float now s p (some response)).0 in
          (q : Pending F) × ((open_chat store g sha256 later s' post (some r)).1 ≡ dispatched q)
          × (q.decision.backend ≡ p.decision.backend)
          × (q.decision.cache_hit ≡ true)
  open_chat-close_chat now later s l p response r valid same_key kv cs member healthy trimmed filled
        distinct done lt =
      let name = (s.heap.backend p.decision.backend).name in
      let s' = (close_chat store float now s p (some response)).0 in
      let settled =
        close_chat-IsSettled store float now s p response
          (not_empty p.cache_key (rw same_key (key_filled sha256 r valid)))
          (not_empty name filled) in
      let hit =
        open_chat-IsHit store laws g sha256 now later r valid s' l s.cache_store name
          s.cfg.cache_ttl (settled.strategy ∙ kv) (rw (← same_key) (settled.told))
          (rw trimmed filled) (rw (← same_key) done) lt cs
          (rw (trimmed) (
            any_named-here s'.heap name p.decision.backend l.backends member
              (is_named-same s.heap s'.heap p.decision.backend settled.backends healthy))) in
      (
        hit.pending,
        hit.opened,
        distinct hit.pending.decision.backend hit.member (
            ap (λ f. (f hit.pending.decision.backend).name) (sym settled.backends)
            ∙ hit.named
            ∙ trimmed),
        hit.hit,
      )
