-- ===== src/Server/Switch.antt =====
-- internal/server/server.go: what `PUT /strategy` does, and what `GET /strategy` says then.
mod Tests
use infer_flow.Prelude.{
  ℕ, ◌≡◌, refl, sym, ap, ◌∙◌, inl, inr, false, List, [], Option, none, some, arith, Bool-cases,
}
use infer_flow.Text.{Text, text_beq, text_beq_iff}
use infer_flow.Router.Heap.{Heap}
use infer_flow.Router.Random.{Rng}
use infer_flow.Router.Loads.{no_loads, set_backends}
use infer_flow.Router.Loads.Track.{Extends}
use infer_flow.Router.Loads.Rebuilt.{set_backends-Rebuilt}
use infer_flow.Router.RoundRobin
use infer_flow.Router.LeastPending
use infer_flow.Router.KvAware
use infer_flow.Router.Strategy.{
  Strategy, name_of, round_robin_name, least_pending_name, random_name, kv_aware_name,
}
use infer_flow.Server.Names.{
  NameError, NameResult, named, refused, normalize_strategy_name, IsOffered,
  normalize_strategy_name-IsOffered,
}
use infer_flow.Server.State.{Server, set_strategy, adopt, install, make_strategy}
use infer_flow.Server.Handlers.{handle_strategy, name_error_text, strategy_response}
use infer_flow.Server.Chat.{get, put, Response, fail, write_json, strategy_is}
use infer_flow.Server.System.Equipped.{turns, IsEquipped, AllEquipped, make_strategy-IsEquipped}
use infer_flow.Server.System.Sound.{no_loads-IsSound}

-- A new strategy of a name: its turns begin at 0, and the backends and the counters that were there
-- are as they were.
pub record IsNewStrategy {R : Type 0} (name : Text) (h h' : Heap) (s : Strategy R) : Type 0 where
  pub named_so : name_of s ≡ name
  pub turn : turns s ≡ 0
  pub extends : Extends h h'

abbrev pub AllNew : {R : Type 0} → Text → Heap → Option (Heap × Strategy R) → Type 0
AllNew name h none = ⊥
AllNew name h (some (h', s)) = IsNewStrategy name h h' s

Extends-refl : (h : Heap) → Extends h h
Extends-refl h = record { backend = refl; fresh = omega arith; counter = λ c lt. refl }

not_offered :
    (name : Text)
    → IsOffered name
    → text_beq name round_robin_name ≡ false
    → text_beq name least_pending_name ≡ false
    → text_beq name random_name ≡ false
    → text_beq name kv_aware_name ≡ false
    → ⊥
not_offered name (inl e) rr lp r kv = (let same = (text_beq_iff name round_robin_name).1 e in cc)
not_offered name (inr (inl e)) rr lp r kv =
    (let same = (text_beq_iff name least_pending_name).1 e in cc)
not_offered name (inr (inr (inl e))) rr lp r kv =
    (let same = (text_beq_iff name random_name).1 e in cc)
not_offered name (inr (inr (inr e))) rr lp r kv =
    (let same = (text_beq_iff name kv_aware_name).1 e in cc)

module _ {R : Type 0} (g : Rng R) (name : Text) (bs : List ℕ) (h : Heap) where
  pub make_strategy-AllNew : IsOffered name → AllNew name h (make_strategy g name bs h)
  unfolding make_strategy LeastPending.new_least_pending KvAware.new_kv_aware
      RoundRobin.new_round_robin turns name_of set_backends
  make_strategy-AllNew offered =
      let rebuilt = set_backends-Rebuilt bs h no_loads (no_loads-IsSound h) in
      elim (Bool-cases (text_beq name round_robin_name)) [
        | inl e ↦ rw e (record {
          named_so = sym ((text_beq_iff name round_robin_name).0 e);
          turn = refl;
          extends = Extends-refl h;
        })
        | inr not_rr ↦ rw not_rr (elim (Bool-cases (text_beq name least_pending_name)) [
          | inl e ↦ rw e (record {
            named_so = sym ((text_beq_iff name least_pending_name).0 e);
            turn = refl;
            extends = rebuilt.extends;
          })
          | inr not_lp ↦ rw not_lp (elim (Bool-cases (text_beq name random_name)) [
            | inl e ↦ rw e (record {
              named_so = sym ((text_beq_iff name random_name).0 e);
              turn = refl;
              extends = Extends-refl h;
            })
            | inr not_r ↦ rw not_r (elim (Bool-cases (text_beq name kv_aware_name)) [
              | inl e ↦ rw e (record {
                named_so = sym ((text_beq_iff name kv_aware_name).0 e);
                turn = refl;
                extends = rebuilt.extends;
              })
              | inr not_kv ↦ absurd (not_offered name offered not_rr not_lp not_r not_kv)
            ])
          ])
        ])
      ]

-- What else than the strategy, its name and new counters a switch could change, and does not.
pub record IsSwitched {S R F : Type 0} (name : Text) (s s' : Server S R F) : Type 0 where
  pub active : s'.strategy_name ≡ name
  pub named_so : name_of s'.strategy ≡ name
  pub turn : turns s'.strategy ≡ 0
  pub equipped : IsEquipped s.cfg.backends s'.strategy
  pub extends : Extends s.heap s'.heap
  pub kept : (s'.cfg ≡ s.cfg) × (s'.metrics ≡ s.metrics) × (s'.cache_store ≡ s.cache_store)

-- What `PUT /strategy` makes of the server, the response, and that of a `GET` behind it.
pub data HasPut {S R F : Type 0} (s : Server S R F) (normalized : NameResult) (s' : Server S R F)
    (response got : Response) : Type 0 where
  refuses :
      (e : NameError)
      → normalized ≡ refused e
      → s' ≡ s
      → response ≡ fail 400 (name_error_text e)
      → got ≡ write_json [] 200 (strategy_is s.strategy_name)
      → HasPut s normalized s' response got
  switches :
      (name : Text)
      → normalized ≡ named name
      → IsOffered name
      → IsSwitched name s s'
      → response ≡ write_json [] 200 (strategy_is name)
      → got ≡ response
      → HasPut s normalized s' response got

module _ {S R F : Type 0} (g : Rng R) (lower : ℕ → ℕ) where
  pub install-IsSwitched :
      (s : Server S R F) (name : Text) (o : Option (Heap × Strategy R))
      → AllNew name s.heap o
      → AllEquipped s.cfg.backends o
      → IsSwitched name s (install s name o).0 × ((install s name o).1 ≡ named name)
  install-IsSwitched s name none new_one q = absurd new_one
  install-IsSwitched s name (some (h, t)) new_one q = (
    record {
      active = refl;
      named_so = new_one.named_so;
      turn = new_one.turn;
      equipped = q;
      extends = new_one.extends;
      kept = (refl, refl, refl);
    },
    refl,
  )

  -- A `PUT` of a name that `normalizeStrategyName` lets pass, which is one of the four that the server
  -- offers then, answers it with status 200 and makes a new strategy of that name for the backends of the
  -- configuration, whose turns begin at 0, while the backends, the load counters that were there, the
  -- metrics, the affinity store and the configuration stay as they are; a `GET` then answers the same as
  -- the `PUT`. A `PUT` of a name that it refuses answers 400 and changes nothing, and a `GET` then
  -- answers the name that was active.
  pub handle_strategy-HasPut :
      (s : Server S R F) (raw : Text) (body : Option Text)
      → let (s', response) = handle_strategy g lower s put (some raw) in
        HasPut s
          (normalize_strategy_name lower raw)
          s'
          response
          (handle_strategy g lower s' get body).1
  unfolding handle_strategy set_strategy
  handle_strategy-HasPut s raw body = go (normalize_strategy_name lower raw) refl
    where
      go :
          (n : NameResult)
          → normalize_strategy_name lower raw ≡ n
          → let (s', result) = adopt g s n in
            HasPut s n s'
              (strategy_response result)
              (write_json [] 200 (strategy_is s'.strategy_name))
      go (refused e) same = refuses e refl refl refl refl
      go (named name) same =
          let offered = normalize_strategy_name-IsOffered lower raw same in
          let (switched, answer) =
            install-IsSwitched s name (make_strategy g name s.cfg.backends s.heap)
              (make_strategy-AllNew g name s.cfg.backends s.heap offered)
              (make_strategy-IsEquipped g name s.cfg.backends s.heap) in
          switches name refl offered switched (ap strategy_response answer) (
            ap (λ n. write_json [] 200 (strategy_is n)) switched.active
            ∙ sym (ap strategy_response answer))
