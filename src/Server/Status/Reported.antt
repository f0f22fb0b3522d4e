-- ===== src/Server/Status/Reported.antt =====
-- What `/api/status` reports of the running server.
use infer_flow.Prelude.{ℕ, ◌%◌, ◌≡◌, refl, ap, ◌∙◌, List, [], ◌∷◌, some, map, length}
use infer_flow.Text.{Text, codes}
use infer_flow.Int64.{two64, add64}
use infer_flow.Cache.Store.{Store}
use infer_flow.Metrics.{Float64}
use infer_flow.Metrics.Counts.{count_of}
use infer_flow.Router.Heap.{Heap, is_healthy}
use infer_flow.Router.Random.{Rng}
use infer_flow.Router.Strategy.{name_of, kv_aware_name}
use infer_flow.Server.State.{Server, Config, new_server}
use infer_flow.Server.Chat.{get}
use infer_flow.Server.Status.{StatusReport, backend_status, backend_statuses, handle_status}
use infer_flow.Server.System.{System, Reach, initial}
use infer_flow.Server.System.Identity.{name_at, Reach-name}
use infer_flow.Server.System.Ledger.{Reach-IsLedger}
use infer_flow.Server.System.Named.{Reach-IsNamed}
use infer_flow.Server.System.Runs.{initial-IsConsistent, Reach-IsConsistent}
use infer_flow.Server.System.Service.{Reach-IsServing}

module _ {S R F : Type 0} (float : Float64 F) where
  statuses-name :
      (h : Heap) (s : Server S R F) (bs : List ℕ)
      → ((b : ℕ) → name_at s b ≡ (h.backend b).name)
      → map (λ r. r.name) (map (backend_status float s) bs) ≡ map (λ b. (h.backend b).name) bs
  statuses-name h s [] names = refl
  statuses-name h s (b ∷ bs) names = rw (names b, statuses-name h s bs names) refl

  statuses-healthy :
      (s : Server S R F) (bs : List ℕ)
      → map (λ r. r.healthy) (map (backend_status float s) bs) ≡ map (is_healthy s.heap) bs
  statuses-healthy s [] = refl
  statuses-healthy s (b ∷ bs) = rw (statuses-healthy s bs) refl

-- What a report owes its reader, about a server that was started with these backends.
pub record IsReport {S R F : Type 0} (cfg : Config) (h : Heap) (w : System S R F)
    (r : StatusReport F) : Type 0 where
  pub strategy : r.strategy ≡ name_of w.server.strategy
  pub names : map (λ b. b.name) r.backends ≡ map (λ b. (h.backend b).name) cfg.backends
  pub health : map (λ b. b.healthy) r.backends ≡ map (is_healthy w.server.heap) cfg.backends
  pub in_flight : r.in_flight ≡ length w.active % two64
  pub kv_cache :
      add64 r.kv_cache_hits r.kv_cache_misses
      ≡ count_of kv_aware_name w.server.metrics.strategy_counts

module _ {S R F : Type 0} (store : Store S) (g : Rng R) (float : Float64 F) (lower : ℕ → ℕ)
    (sha256 : Text → List ℕ) where
  -- From a start with all counters at zero, in every state that the server reaches: `GET /api/status`
  -- answers 200 with a report, as JSON by its `Content-Type`, that names the strategy that is active, lists the backends of the configuration in
  -- their order, with the names that they started with and the health that they have, gives the number
  -- of requests in flight, modulo 2 ^ 64, and hits and misses that sum up to the selections of `kv_aware`.
  pub Reach-IsReport :
      (cfg : Config) (st : S) (h : Heap) {w : System S R F}
      → ((c : ℕ) → h.counter c ≡ 0)
      → Reach store g float lower sha256 (initial cfg st h) w
      → (r : StatusReport F) × (handle_status float w.server get
          ≡ some (record {
            status = 200;
            headers = (codes "Content-Type", codes "application/json") ∷ [];
            body = r;
          }))
        × IsReport cfg h w r
  unfolding handle_status backend_statuses new_server
  Reach-IsReport cfg st h {w} zero run =
      let serving = Reach-IsServing store g float lower sha256 cfg st h run in
      (
        _,
        refl,
        record {
          strategy = Reach-IsNamed store g float lower sha256 cfg st h run;
          names =
              statuses-name float h w.server w.server.cfg.backends
                (λ b. Reach-name store g float lower sha256 b run)
              ∙ ap (map (λ b. (h.backend b).name)) serving.configured;
          health =
              statuses-healthy float w.server w.server.cfg.backends
              ∙ ap (map (is_healthy w.server.heap)) serving.configured;
          in_flight =
              (Reach-IsConsistent store g float lower sha256 (initial-IsConsistent cfg st h zero)
                run).gauge;
          kv_cache = (Reach-IsLedger store g float lower sha256 cfg st h run).hits_and_misses;
        },
      )
