-- ===== src/Server/Http/Answered.antt =====
-- The answers to requests over HTTP, path by path.
use infer_flow.Prelude.{ℕ, ◌/◌, ◌≤◌, ◌<◌, ◌≡◌, List, length}
use infer_flow.Text.{Text}
use infer_flow.Int64.{two63}
use infer_flow.Cache.Store.{Store}
use infer_flow.Metrics.{Float64}
use infer_flow.Proxy.Client.{Net}
use infer_flow.Router.Heap.{Heap}
use infer_flow.Router.Slots.{max_backends}
use infer_flow.Router.Random.{Rng}
use infer_flow.Server.State.{Server, Config}
use infer_flow.Server.Routes.{HttpRequest, Content}
use infer_flow.Server.Http.{finish}
use infer_flow.Server.Http.Answers.{IsHandled}
use infer_flow.Server.Http.Answers
use infer_flow.Server.System.{System, Reach, initial}
use infer_flow.Server.System.Equipped.{turns}

module _ {S R F : Type 0} (store : Store S) (g : Rng R) (float : Float64 F) (lower : ℕ → ℕ)
    (sha256 : Text → List ℕ) (quote : Text → Text) (net : Net F) (cfg : Config) (st : S) (h : Heap)
    (zero : (c : ℕ) → h.counter c ≡ 0) (now later : ℕ) (w : System S R F)
    (run : Reach store g float lower sha256 (initial cfg st h) w)
    (fits : length cfg.backends ≤ max_backends) (low : turns w.server.strategy < two63)
    (r : HttpRequest F) where
  abbrev unix : ℕ
  unix = later / 1000000000

  -- The answer is right once a chat is at its end, and the server behind it is one that is reached.
  abbrev Done : Server S R F × Content F → Type 0
  Done x =
      let (s', c) = finish store g float sha256 net later x.0 x.1 in
      IsHandled g lower quote net unix cfg h w r s' c
      × Reach store g float lower sha256 (initial cfg st h)
          (record { server = s'; active = w.active })
