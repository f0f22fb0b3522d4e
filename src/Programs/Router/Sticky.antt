-- ===== src/Programs/Router/Sticky.antt =====
-- The router from its start on: a prompt that comes again goes where it went.
use mathlib.Core.Path.{subst}
use mathlib.Core.Logic.Or
use mathlib.Core.List.{not-mem-nil, eq-or-mem_of_mem-cons}
use native.Mathlib.Bridge.{le_prop}
use infer_flow.Prelude.{
  ℕ, zero, suc, ◌+◌, ◌≤◌, ◌<◌, ◌≡◌, refl, sym, ap, ◌∙◌, inl, inr, Bool, true, false, List, [],
  Option, none, some, Mem, arith, length, get_elem?_total, Option-cases,
}
use infer_flow.Text.{Text}
use infer_flow.Int64.{two63}
use infer_flow.Cache.Store.{Store, StoreLaws}
use infer_flow.Metrics.{Float64}
use infer_flow.Proxy.{ChatCompletionRequest, ChatCompletionResponse}
use infer_flow.Router.Heap.{is_healthy}
use infer_flow.Router.Slots.{max_backends}
use infer_flow.Router.Decision.{Outcome, ok, no_healthy_backend, panic, Decision}
use infer_flow.Router.Random.{Rng}
use infer_flow.Router.Loads.{Loads}
use infer_flow.Router.Loads.Serves.{Covered}
use infer_flow.Router.Strategy.{kv_aware, backends_of, has_healthy_backend}
use infer_flow.Server.Config.{Affinity, Loaded, loaded, load_config_from_env, backend_name}
use infer_flow.Server.Config.Backends.{
  backend_name_trimmed, backend_name-injective, load_config_from_env_name,
}
use infer_flow.Server.Request.{validate_chat_request, build_cache_key}
use infer_flow.Server.State.{Server, new_server}
use infer_flow.Server.Chat.{
  post, Pending, Opened, rejected, dispatched, aborted, dispatch, accept, open_chat, close_chat,
}
use infer_flow.Server.Affinity.{open_chat-accept}
use infer_flow.Server.Affinity.Again.{open_chat-close_chat}
use infer_flow.Server.System.{System, Reach, here, next, opens, opened}
use infer_flow.Server.System.Equipped.{turns, IsCovered}
use infer_flow.Server.System.Service.{Reach-IsServing, Served, Reach-Served}
use infer_flow.Server.System.Identity.{name_at, Reach-name}
use infer_flow.Programs.Router.{memory_of, addresses, config_of, boot}

addresses-bounds : (n from b : ℕ) → Mem b (addresses n from) → b < from + n
addresses-bounds zero from b m = absurd (not-mem-nil m)
addresses-bounds (suc n) from b m =
    Or.elim le_prop (eq-or-mem_of_mem-cons m) (λ same. omega arith)
      (λ later. let h = addresses-bounds n (suc from) b later in omega arith)

pub length-addresses : (n from : ℕ) → length (addresses n from) ≡ n
length-addresses zero from = refl
length-addresses (suc n) from = ap suc (length-addresses n (suc from))

module _ {S R F : Type 0} (store : Store S) (g : Rng R) (sha256 : Text → List ℕ) where
  dispatch-key :
      (now : ℕ) (s : Server S R F) (r : ChatCompletionRequest F) (key : Text) (o : Outcome Decision)
      (p : Pending F)
      → (dispatch now s r key o).1 ≡ dispatched p
      → p.cache_key ≡ key
  unfolding dispatch
  dispatch-key now s r key (ok d) p e = ap (λ o. key_or o) (sym e)
    where
      key_or : Opened F → Text
      key_or (dispatched q) = q.cache_key
      key_or (rejected x) = []
      key_or aborted = []
  dispatch-key now s r key no_healthy_backend p e = cc
  dispatch-key now s r key panic p e = cc

  -- What is sent to a backend is valid, and carries the key of its prompt.
  dispatched-key :
      (now : ℕ) (s : Server S R F) (r : ChatCompletionRequest F) (p : Pending F)
      → (open_chat store g sha256 now s post (some r)).1 ≡ dispatched p
      → (validate_chat_request r ≡ none) × (p.cache_key ≡ build_cache_key sha256 r.model r.messages)
  unfolding open_chat accept
  dispatched-key now s r p e = elim (Option-cases (validate_chat_request r)) [
    | inl valid ↦ (
      valid,
      dispatch-key now _ r _ _ p
          (sym (ap (λ o. o.1) (open_chat-accept store g sha256 now s r valid)) ∙ e),
    )
    | inr (error, bad) ↦ (let refused = rw (bad, open_chat) at e in cc)
  ]

module _ {S R F : Type 0} (store : Store S) (g : Rng R) (float : Float64 F) (lower : ℕ → ℕ)
    (sha256 : Text → List ℕ) where
  pub Reach-trans :
      {w v u : System S R F}
      → Reach store g float lower sha256 w v
      → Reach store g float lower sha256 v u
      → Reach store g float lower sha256 w u
  Reach-trans r here = r
  Reach-trans r (next q s) = next (Reach-trans r q) s

abbrev sent_to : {F : Type 0} → Opened F → ℕ
sent_to (dispatched p) = p.decision.backend
sent_to (rejected r) = 0
sent_to aborted = 0

Served-Mem :
    {S R F : Type 0} (bs : List ℕ) (s : Server S R F) (v : Bool) (o : Opened F) (p : Pending F)
    → Served bs s v o
    → o ≡ dispatched p
    → Mem p.decision.backend bs
Served-Mem bs s true o p (ready, (q, (sent, m, well))) e =
    subst (λ b. Mem b bs) (ap sent_to (sym sent ∙ e)) m
Served-Mem bs s false o p (unready, out) e = cc

module _ (env : Text → Text) (parses : Text → Bool) (duration : Text → Option ℕ) (l : Loaded)
    (load : load_config_from_env env parses duration ≡ loaded l) where
  -- The backends at the addresses of the configuration have the names of their positions.
  loaded-name :
      (b : ℕ)
      → Mem b (config_of l).backends
      → ((memory_of l.backends).backend b).name ≡ backend_name (b + 1)
  loaded-name b m =
      let lt : b < length l.backends =
        let below = addresses-bounds (length l.backends) 0 b m in omega arith in
      let (k, found) = get_elem?_total l.backends b lt in
      rw found (load_config_from_env_name env parses duration l b load found)

  module _ {S R F : Type 0} (store : Store S) {lasts : ℕ → ℕ} (laws : StoreLaws lasts store)
      (g : Rng R) (float : Float64 F) (lower : ℕ → ℕ) (sha256 : Text → List ℕ)
      (connect : Affinity → S) where
    -- A router that is started from an environment that loads, with at most 2 ^ 62 backends, on a
    -- store that keeps the contract: say a request is sent to a backend, in a reachable state whose
    -- strategy has its counter of turns below 2 ^ 63, and the server runs on, in any way, to a state
    -- in which `kv_aware` is active and that backend is healthy. If the backend answers then, and the
    -- store takes its name, then the same request that comes next, before the time is over for which
    -- the store keeps the name, is sent to the same backend, as a cache hit.
    pub start-sticky :
        {w v : System S R F} (asked now later : ℕ) (r : ChatCompletionRequest F) (p : Pending F)
        (response : ChatCompletionResponse) (loads : Loads)
        → length l.backends ≤ max_backends
        → Reach store g float lower sha256 (boot connect l) w
        → turns w.server.strategy < two63
        → (open_chat store g sha256 asked w.server post (some r)).1 ≡ dispatched p
        → Reach store g float lower sha256 (opened store g sha256 asked post (some r) w) v
        → v.server.strategy ≡ kv_aware loads
        → is_healthy v.server.heap p.decision.backend ≡ true
        → (store.remember_backend now p.cache_key
            (name_at v.server p.decision.backend)
            v.server.cfg.cache_ttl
            v.server.cache_store).1
          ≡ true
        → later < now + lasts v.server.cfg.cache_ttl
        → let s = (close_chat store float now v.server p (some response)).0 in
          (q : Pending F) × ((open_chat store g sha256 later s post (some r)).1 ≡ dispatched q)
          × (q.decision.backend ≡ p.decision.backend)
          × (q.decision.cache_hit ≡ true)
    unfolding new_server
    start-sticky {w} {v} asked now later r p response loads fits run low sent more kv healthy done
          lt =
        let cfg = config_of l in
        let h = memory_of l.backends in
        let (valid, same_key) = dispatched-key store g sha256 asked w.server r p sent in
        let member : Mem p.decision.backend cfg.backends =
          Served-Mem cfg.backends w.server (has_healthy_backend w.server.heap w.server.strategy) _ p
            (Reach-Served store g float lower sha256 cfg (connect l.affinity_store) h asked r run
              (rw (length-addresses (length l.backends) 0) fits) low valid)
            sent in
        let whole =
          Reach-trans store g float lower sha256 (next run (opens asked post (some r))) more in
        let serving =
          Reach-IsServing store g float lower sha256 cfg (connect l.affinity_store) h whole in
        let named : (b : ℕ) → Mem b cfg.backends → name_at v.server b ≡ backend_name (b + 1) =
          λ b m. Reach-name store g float lower sha256 b whole ∙ loaded-name b m in
        let listed : loads.backends ≡ cfg.backends =
          ap backends_of (sym kv) ∙ serving.equipped.backends in
        let covered : Covered loads.loads loads.backends =
          subst IsCovered kv serving.equipped.covered in
        let own = named p.decision.backend member in
        open_chat-close_chat store laws float g sha256 now later v.server loads p response r valid
          same_key kv covered (rw listed member) healthy
          (rw own (backend_name_trimmed (p.decision.backend + 1))) (rw own (λ e. cc))
          (λ b m same.
            (let twice =
                backend_name-injective (b + 1) (p.decision.backend + 1)
                  (sym (named b (rw (← listed) m)) ∙ same ∙ own) in
              omega arith))
          done lt
