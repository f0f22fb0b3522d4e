-- ===== src/Server/System/Runs.antt =====
-- Every run of the server, from its start.
use mathlib.Core.Path.{subst}
use infer_flow.Prelude.{
  ℕ, ◌%◌, ◌≡◌, refl, ap, ◌∙◌, inl, inr, List, [], Option, none, some, arith, length, Bool-cases,
}
use infer_flow.Text.{Text, text_beq}
use infer_flow.Int64.{two64, add64}
use infer_flow.Cache.Store.{Store}
use infer_flow.Metrics.{Float64, new_metrics}
use infer_flow.Proxy.{Exchange, health_check}
use infer_flow.Router.Heap.{Heap, set_healthy}
use infer_flow.Router.Random.{Rng}
use infer_flow.Router.Loads.{set_backends, no_loads}
use infer_flow.Router.Loads.Track.{IsSound}
use infer_flow.Router.Loads.Rebuilt.{set_backends-Rebuilt}
use infer_flow.Router.LeastPending.{new_least_pending}
use infer_flow.Router.KvAware.{new_kv_aware}
use infer_flow.Router.Strategy.{
  Strategy, round_robin_name, least_pending_name, random_name, kv_aware_name,
}
use infer_flow.Router.Strategy.Release.{SoundLoads}
use infer_flow.Server.Names.{NameResult, named, refused, normalize_strategy_name}
use infer_flow.Server.State.{Config, new_server, make_strategy, install, adopt, set_strategy}
use infer_flow.Server.Chat.{Pending}
use infer_flow.Server.System.{
  System, switched, probed, Step, opens, closes, switches, probes, Reach, here, next, initial,
}
use infer_flow.Server.System.Due.{due, balance_zero}
use infer_flow.Server.System.Balance.{IsBalanced, IsBalanced-set_healthy, IsBalanced-track}
use infer_flow.Server.System.Sound.{SoundLoads-mono, no_loads-IsSound}
use infer_flow.Server.System.Invariant.{IsConsistent, opened-IsConsistent, closed-IsConsistent}

pub initial-IsConsistent :
    {S R F : Type 0} (cfg : Config) (st : S) (h : Heap)
    → ((c : ℕ) → h.counter c ≡ 0)
    → IsConsistent (initial {R = R} {F = F} cfg st h)
unfolding new_server new_metrics
initial-IsConsistent cfg st h zero = record {
  balanced = record {
    words = λ c. rw (zero c) (omega arith);
    allocated = tt;
    unreleased = tt;
    balance = λ c. rw (zero c) (unfold due add64 in refl);
  };
  sound = tt;
  gauge = omega arith;
}

-- The memory and the strategy that a switch puts in place.
abbrev Made : {R F : Type 0} → List (Pending F) → Option (Heap × Strategy R) → Type 0
Made ps none = Unit {0}
Made ps (some (h, s)) = IsBalanced h ps × SoundLoads h s

module _ {F : Type 0} (bs : List ℕ) (h : Heap) (ps : List (Pending F)) (b : IsBalanced h ps) where
  rebuilt :
      IsBalanced (set_backends bs h no_loads).0 ps
      × IsSound (set_backends bs h no_loads).0 (set_backends bs h no_loads).1.loads
  rebuilt = (
    (unfold set_backends in IsBalanced-track h [] bs [] ps b),
    (set_backends-Rebuilt bs h no_loads (no_loads-IsSound h)).sound,
  )

  -- A new strategy starts with counters of its own; those of the requests in flight stay.
  make_strategy-Made : {R : Type 0} (g : Rng R) (name : Text) → Made ps (make_strategy g name bs h)
  unfolding make_strategy new_least_pending new_kv_aware
  make_strategy-Made g name = elim (Bool-cases (text_beq name round_robin_name)) [
    | inl e ↦ rw e (b, tt)
    | inr e ↦ rw e (elim (Bool-cases (text_beq name least_pending_name)) [
      | inl e ↦ rw e rebuilt
      | inr e ↦ rw e (elim (Bool-cases (text_beq name random_name)) [
        | inl e ↦ rw e (b, tt)
        | inr e ↦ rw e (elim (Bool-cases (text_beq name kv_aware_name)) [
          | inl e ↦ rw e rebuilt
          | inr e ↦ rw e tt
        ])
      ])
    ])
  ]

install-IsConsistent :
    {S R F : Type 0} (w : System S R F) (name : Text) (o : Option (Heap × Strategy R))
    → IsConsistent w
    → Made w.active o
    → IsConsistent (record w { server = (install w.server name o).0 })
install-IsConsistent w name none c made = c
install-IsConsistent w name (some (h, s)) c (b, sound) = record {
  balanced = b;
  sound = sound;
  gauge = c.gauge;
}

switched-IsConsistent :
    {S R F : Type 0} (g : Rng R) (lower : ℕ → ℕ) (raw : Text) (w : System S R F)
    → IsConsistent w
    → IsConsistent (switched g lower raw w)
unfolding set_strategy
switched-IsConsistent g lower raw w c = go (normalize_strategy_name lower raw)
  where
    go : (n : NameResult) → IsConsistent (record w { server = (adopt g w.server n).0 })
    go (named name) =
        install-IsConsistent w name (make_strategy g name w.server.cfg.backends w.server.heap) c
          (make_strategy-Made w.server.cfg.backends w.server.heap w.active c.balanced g name)
    go (refused e) = c

probed-IsConsistent :
    {S R F : Type 0} (b : ℕ) (answer : Exchange (Unit {0})) (w : System S R F)
    → IsConsistent w
    → IsConsistent (probed b answer w)
unfolding set_healthy
probed-IsConsistent b answer w c = record {
  balanced = IsBalanced-set_healthy w.server.heap b (health_check answer) w.active c.balanced;
  sound = SoundLoads-mono w.server.heap _ w.server.strategy (omega arith) c.sound;
  gauge = c.gauge;
}

module _ {S R F : Type 0} (store : Store S) (g : Rng R) (float : Float64 F) (lower : ℕ → ℕ)
    (sha256 : Text → List ℕ) where
  Step-IsConsistent :
      {w v : System S R F} → Step store g float lower sha256 w v → IsConsistent w → IsConsistent v
  Step-IsConsistent {w} (opens now method body) c =
      opened-IsConsistent store g sha256 now w method body c
  Step-IsConsistent {w} (closes now answer before after p e) c =
      closed-IsConsistent store float now answer p before after w e c
  Step-IsConsistent {w} (switches raw) c = switched-IsConsistent g lower raw w c
  Step-IsConsistent {w} (probes b answer) c = probed-IsConsistent b answer w c

  pub Reach-IsConsistent :
      {w v : System S R F} → IsConsistent w → Reach store g float lower sha256 w v → IsConsistent v
  Reach-IsConsistent c here = c
  Reach-IsConsistent c (next r s) = Step-IsConsistent s (Reach-IsConsistent c r)

  -- From a start with all counters at zero, and however requests, answers, health checks and switches
  -- of strategy interleave: once no request is in flight, every load counter that was ever made is back
  -- at zero, and so is the gauge.
  pub Reach-idle :
      (cfg : Config) (st : S) (h : Heap) {w : System S R F}
      → ((c : ℕ) → h.counter c ≡ 0)
      → Reach store g float lower sha256 (initial cfg st h) w
      → w.active ≡ []
      → ((c : ℕ) → w.server.heap.counter c ≡ 0) × (w.server.metrics.in_flight ≡ 0)
  unfolding due
  Reach-idle cfg st h {w} zero r idle =
      let c = Reach-IsConsistent (initial-IsConsistent cfg st h zero) r in
      (
        (λ k. balance_zero (w.server.heap.counter k) (c.balanced.words k) (
            subst (λ ps. add64 (w.server.heap.counter k) (due k ps) ≡ 0) idle
              (c.balanced.balance k))),
        c.gauge ∙ ap (λ ps. length ps % two64) idle,
      )
