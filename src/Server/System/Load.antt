-- ===== src/Server/System/Load.antt =====
-- The load counters count the requests in flight.
use infer_flow.Prelude.{
  ℕ, nat_eq, ◌%◌, ◌<◌, ◌≡◌, refl, inl, inr, List, ◌∷◌, ◌++◌, Option, none, some, arith, All,
  All-middle, Bool-cases, Option-cases,
}
use infer_flow.Text.{Text, text_beq}
use infer_flow.Int64.{two64, add64}
use infer_flow.Cache.Store.{Store}
use infer_flow.Metrics.{Float64}
use infer_flow.Proxy.{ChatCompletionRequest, ChatCompletionResponse}
use infer_flow.Router.Heap.{Heap}
use infer_flow.Router.Decision.{Outcome, ok, no_healthy_backend, panic, Decision}
use infer_flow.Router.Random.{Rng}
use infer_flow.Router.Strategy.{
  Strategy, round_robin_name, least_pending_name, random_name, kv_aware_name,
}
use infer_flow.Server.Names.{NameResult, named, refused, normalize_strategy_name}
use infer_flow.Server.Request.{validate_chat_request}
use infer_flow.Server.State.{
  Server, Config, new_server, set_strategy, adopt, install, make_strategy,
}
use infer_flow.Server.Chat.{
  Method, get, post, put, options, other, Pending, dispatch, accept, open_chat, close_chat,
  run_defers, settle_chat, record_affinity,
}
use infer_flow.Server.System.{
  System, enter, opened, closed, switched, Step, opens, closes, switches, probes, Reach, here, next,
  initial,
}
use infer_flow.Server.System.Due.{due}
use infer_flow.Server.System.Runs.{initial-IsConsistent, Reach-IsConsistent}
use infer_flow.Server.System.Units.{
  holders, IsUnitRelease, IsUnitOutcome, IsInstalled, due_of_units, select-IsUnit,
}

record IsCounted {S R F : Type 0} (w : System S R F) : Type 0 where
  units : All (λ p. IsUnitRelease p.decision.release) w.active
  installed : IsInstalled w.server.strategy

module _ {S R F : Type 0} where
  dispatch-IsCounted :
      (now : ℕ) (s : Server S R F) (r : ChatCompletionRequest F) (key : Text) (o : Outcome Decision)
      (ps : List (Pending F))
      → All (λ p. IsUnitRelease p.decision.release) ps
      → IsUnitOutcome o × IsInstalled s.strategy
      → let (s', result) = dispatch now s r key o in
        IsCounted (record { server = s'; active = enter result ps })
  unfolding dispatch
  dispatch-IsCounted now s r key (ok d) ps us (u, i) = record { units = (u, us); installed = i }
  dispatch-IsCounted now s r key no_healthy_backend ps us (u, i) = record {
    units = us;
    installed = i;
  }
  dispatch-IsCounted now s r key panic ps us (u, i) = record { units = us; installed = i }

  opened-IsCounted :
      (store : Store S) (g : Rng R) (sha256 : Text → List ℕ) (now : ℕ) (w : System S R F)
      (method : Method) (body : Option (ChatCompletionRequest F))
      → IsCounted w
      → IsCounted (opened store g sha256 now method body w)
  unfolding open_chat accept
  opened-IsCounted store g sha256 now w post none c = c
  opened-IsCounted store g sha256 now w post (some r) c =
      elim (Option-cases (validate_chat_request r)) [
        | inl e ↦
            rw (e, open_chat)
              (dispatch-IsCounted now _ r _ _ w.active c.units (
                select-IsUnit store g now w.server.heap (some w.server.cache_store)
                  w.server.strategy _ c.installed))
        | inr (error, e) ↦ rw (e, open_chat) c
      ]
  opened-IsCounted store g sha256 now w get body c = c
  opened-IsCounted store g sha256 now w put body c = c
  opened-IsCounted store g sha256 now w options body c = c
  opened-IsCounted store g sha256 now w other body c = c

  settle_chat-strategy :
      (store : Store S) (now : ℕ) (s : Server S R F) (p : Pending F)
      (answer : Option ChatCompletionResponse)
      → (settle_chat store now s p answer).0.strategy ≡ s.strategy
  unfolding settle_chat record_affinity
  settle_chat-strategy store now s p none = refl
  settle_chat-strategy store now s p (some response) = ground arith

  closed-IsCounted :
      (store : Store S) (float : Float64 F) (now : ℕ) (answer : Option ChatCompletionResponse)
      (p : Pending F) (before after : List (Pending F)) (w : System S R F)
      → w.active ≡ before ++ p ∷ after
      → IsCounted w
      → IsCounted (closed store float now answer p (before ++ after) w)
  unfolding close_chat run_defers
  closed-IsCounted store float now answer p before after w e c =
      let units : All (λ q. IsUnitRelease q.decision.release) (before ++ p ∷ after) =
        rw (← e) c.units in
      record {
        units = (All-middle _ before after units).1;
        installed = rw (settle_chat-strategy store now _ p answer) c.installed;
      }

abbrev AllInstalled : {R : Type 0} → Option (Heap × Strategy R) → Type 0
AllInstalled none = Unit {0}
AllInstalled (some (h, s)) = IsInstalled s

make_strategy-IsInstalled :
    {R : Type 0} (g : Rng R) (name : Text) (bs : List ℕ) (h : Heap)
    → AllInstalled (make_strategy g name bs h)
unfolding make_strategy
make_strategy-IsInstalled g name bs h = elim (Bool-cases (text_beq name round_robin_name)) [
  | inl e ↦ rw e tt
  | inr e ↦ rw e (elim (Bool-cases (text_beq name least_pending_name)) [
    | inl e ↦ rw e tt
    | inr e ↦ rw e (elim (Bool-cases (text_beq name random_name)) [
      | inl e ↦ rw e tt
      | inr e ↦
          rw e
            (elim (Bool-cases (text_beq name kv_aware_name)) [ inl e ↦ rw e tt | inr e ↦ rw e tt ])
    ])
  ])
]

switched-IsCounted :
    {S R F : Type 0} (g : Rng R) (lower : ℕ → ℕ) (raw : Text) (w : System S R F)
    → IsCounted w
    → IsCounted (switched g lower raw w)
unfolding set_strategy
switched-IsCounted g lower raw w c = go (normalize_strategy_name lower raw)
  where
    put_in :
        (name : Text) (o : Option (Heap × Strategy _))
        → AllInstalled o
        → IsCounted (record w { server = (install w.server name o).0 })
    put_in name none i = c
    put_in name (some (h, s)) i = record { units = c.units; installed = i }

    go : (n : NameResult) → IsCounted (record w { server = (adopt g w.server n).0 })
    go (named name) =
        put_in name _ (make_strategy-IsInstalled g name w.server.cfg.backends w.server.heap)
    go (refused e) = c

from_balance : (x d n : ℕ) → x < two64 → add64 x d ≡ 0 → add64 d n ≡ 0 → x ≡ n % two64
unfolding add64
from_balance x d n lt b u = omega arith

module _ {S R F : Type 0} (store : Store S) (g : Rng R) (float : Float64 F) (lower : ℕ → ℕ)
    (sha256 : Text → List ℕ) where
  Step-IsCounted :
      {w v : System S R F} → Step store g float lower sha256 w v → IsCounted w → IsCounted v
  Step-IsCounted {w} (opens now method body) c = opened-IsCounted store g sha256 now w method body c
  Step-IsCounted {w} (closes now answer before after p e) c =
      closed-IsCounted store float now answer p before after w e c
  Step-IsCounted {w} (switches raw) c = switched-IsCounted g lower raw w c
  Step-IsCounted {w} (probes b answer) c = record { units = c.units; installed = c.installed }

  Reach-IsCounted :
      (cfg : Config) (st : S) (h : Heap) {w : System S R F}
      → Reach store g float lower sha256 (initial cfg st h) w
      → IsCounted w
  unfolding new_server
  Reach-IsCounted cfg st h here = record { units = tt; installed = tt }
  Reach-IsCounted cfg st h (next r s) = Step-IsCounted s (Reach-IsCounted cfg st h r)

  -- From a start with all counters at zero, in every state that the server reaches: each load counter is
  -- the number, modulo 2 ^ 64, of the requests in flight that were counted on it. A switch of the
  -- strategy, which makes new counters, leaves those of the requests in flight alone.
  pub Reach-holders :
      (cfg : Config) (st : S) (h : Heap) {w : System S R F}
      → ((c : ℕ) → h.counter c ≡ 0)
      → Reach store g float lower sha256 (initial cfg st h) w
      → (c : ℕ) → w.server.heap.counter c ≡ holders c w.active % two64
  Reach-holders cfg st h {w} zero r c =
      let consistent =
        Reach-IsConsistent store g float lower sha256 (initial-IsConsistent cfg st h zero) r in
      from_balance (w.server.heap.counter c) (due c w.active) (holders c w.active)
        (consistent.balanced.words c) (consistent.balanced.balance c)
        (due_of_units c w.active (Reach-IsCounted cfg st h r).units)
