-- ===== src/Server/System.antt =====
-- The running server: requests interleave at the wait for their backends, with the health checks and
-- the switches of strategy between them. One step is what happens between two waits.
pub mod Due
pub mod Balance
pub mod Sound
pub mod Settle
pub mod Invariant
pub mod Runs
pub mod Ledger
pub mod Units
pub mod Load
pub mod Equipped
pub mod Service
pub mod Identity
pub mod Named
use infer_flow.Prelude.{ℕ, ◌≡◌, List, [], ◌∷◌, ◌++◌, Option}
use infer_flow.Text.{Text}
use infer_flow.Cache.Store.{Store}
use infer_flow.Metrics.{Float64}
use infer_flow.Proxy.{ChatCompletionRequest, ChatCompletionResponse, Exchange, health_check}
use infer_flow.Router.Heap
use infer_flow.Router.Random.{Rng}
use infer_flow.Server.State.{Server, Config, set_strategy, new_server}
use infer_flow.Server.Chat.{
  Method, Pending, Opened, rejected, dispatched, aborted, open_chat, close_chat,
}

pub record System (S R F : Type 0) : Type 0 where
  pub server : Server S R F
  pub active : List (Pending F)

-- The requests in flight after a request has come in.
abbrev pub enter : {F : Type 0} → Opened F → List (Pending F) → List (Pending F)
enter (rejected r) ps = ps
enter (dispatched p) ps = p ∷ ps
enter aborted ps = ps

module _ {S R F : Type 0} (store : Store S) (g : Rng R) (sha256 : Text → List ℕ) where
  abbrev pub opened : ℕ → Method → Option (ChatCompletionRequest F) → System S R F → System S R F
  opened now method body w =
      let (s, o) = open_chat store g sha256 now w.server method body in
      record { server = s; active = enter o w.active }

module _ {S R F : Type 0} (store : Store S) (float : Float64 F) where
  abbrev pub closed :
      ℕ → Option ChatCompletionResponse → Pending F → List (Pending F) → System S R F → System S R F
  closed now answer p rest w = record {
    server = (close_chat store float now w.server p answer).0;
    active = rest;
  }

module _ {S R F : Type 0} (g : Rng R) (lower : ℕ → ℕ) where
  abbrev pub switched : Text → System S R F → System S R F
  switched raw w = record w { server = (set_strategy g lower raw w.server).0 }

module _ {S R F : Type 0} where
  abbrev pub probed : ℕ → Exchange (Unit {0}) → System S R F → System S R F
  probed b answer w = record w {
    server = record w.server { heap = Heap.set_healthy b (health_check answer) w.server.heap };
  }

module _ {S R F : Type 0} (store : Store S) (g : Rng R) (float : Float64 F) (lower : ℕ → ℕ)
    (sha256 : Text → List ℕ) where
  -- A request comes in, the backend of any waiting request answers or fails, the strategy is
  -- switched, or a backend is probed.
  pub data Step (w : System S R F) : System S R F → Type 0 where
    opens :
        (now : ℕ) (method : Method) (body : Option (ChatCompletionRequest F))
        → Step w (opened store g sha256 now method body w)
    closes :
        (now : ℕ) (answer : Option ChatCompletionResponse) (before after : List (Pending F))
        (p : Pending F)
        → w.active ≡ before ++ p ∷ after
        → Step w (closed store float now answer p (before ++ after) w)
    switches : (raw : Text) → Step w (switched g lower raw w)
    probes : (b : ℕ) (answer : Exchange (Unit {0})) → Step w (probed b answer w)

  pub data Reach (w : System S R F) : System S R F → Type 0 where
    here : Reach w w
    next : {v u : System S R F} → Reach w v → Step v u → Reach w u

-- The server that `New` returns, with no request in flight.
abbrev pub initial : {S R F : Type 0} → Config → S → Heap.Heap → System S R F
initial cfg st h = record { server = new_server cfg st h; active = [] }
