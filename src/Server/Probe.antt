-- ===== src/Server/Probe.antt =====
-- internal/server/server.go: what a round of `probeBackends` finds.
mod Tests
use infer_flow.Prelude.{
  ℕ, nat_eq, ◌≡◌, refl, ap, ◌∙◌, inl, inr, Bool, true, false, ◌||◌, ◌==◌, List, [], ◌∷◌, arith,
  if◌then◌else◌, Bool-cases,
}
use infer_flow.Text.{Text}
use infer_flow.Cache.Store.{Store}
use infer_flow.Metrics.{Float64}
use infer_flow.Proxy.Client.{Net, check_backend}
use infer_flow.Router.Heap.{Heap, is_healthy, set_healthy, any_healthy}
use infer_flow.Router.Random.{Rng}
use infer_flow.Router.Strategy.{has_healthy_backend}
use infer_flow.Router.Strategy.Serves.{has_healthy_backend-any_healthy}
use infer_flow.Server.State.{Server, Config, probe_backends}
use infer_flow.Server.Handlers.{handle_readyz}
use infer_flow.Server.System.{System, Reach, initial}
use infer_flow.Server.System.Service.{Reach-IsServing}

abbrev pub listed : ℕ → List ℕ → Bool
listed b [] = false
listed b (c ∷ bs) = c == b || listed b bs

is_healthy-set_healthy :
    (k : ℕ) (v : Bool) (h : Heap) (b : ℕ)
    → is_healthy (set_healthy k v h) b ≡ (if k == b then v else is_healthy h b)
unfolding is_healthy set_healthy
is_healthy-set_healthy k v h b = ground arith

module _ {F : Type 0} (net : Net F) where
  -- Whether the check of any backend of the list passes.
  abbrev pub any_passes : Heap → List ℕ → Bool
  any_passes h [] = false
  any_passes h (b ∷ bs) = check_backend net (h.backend b) || any_passes h bs

  -- The health of a backend is no part of a check.
  check_backend-set_healthy :
      (k : ℕ) (v : Bool) (h : Heap) (b : ℕ)
      → check_backend net ((set_healthy k v h).backend b) ≡ check_backend net (h.backend b)
  unfolding check_backend set_healthy
  check_backend-set_healthy k v h b = elim (Bool-cases (k == b)) [
    | inl same ↦ (let at : k ≡ b = (nat_eq.beq_iff k b).0 same in rw (same, at) refl)
    | inr other ↦ rw other refl
  ]

  marked :
      (c : ℕ) (h : Heap) (b : ℕ) (rest : Bool)
      → (if rest
          then check_backend net (h.backend b)
          else is_healthy (set_healthy c (check_backend net (h.backend c)) h) b)
        ≡ (if c == b || rest then check_backend net (h.backend b) else is_healthy h b)
  marked c h b true = ground arith
  marked c h b false =
      rw (is_healthy-set_healthy c (check_backend net (h.backend c)) h b)
        (elim (Bool-cases (c == b)) [
          | inl same ↦
              (let at : c ≡ b = (nat_eq.beq_iff c b).0 same in
                rw same (ap (λ k. check_backend net (h.backend k)) at))
          | inr other ↦ rw other refl
        ])

  -- A round of health checks sets the health of each backend of the list to the result of its check,
  -- and leaves every other backend as it is.
  pub probe_backends-is_healthy :
      (bs : List ℕ) (h : Heap) (b : ℕ)
      → is_healthy (probe_backends net bs h) b
        ≡ (if listed b bs then check_backend net (h.backend b) else is_healthy h b)
  unfolding probe_backends
  probe_backends-is_healthy [] h b = refl
  probe_backends-is_healthy (c ∷ bs) h b =
      let v = check_backend net (h.backend c) in
      probe_backends-is_healthy bs (set_healthy c v h) b
      ∙ rw (check_backend-set_healthy c v h b) (marked c h b (listed b bs))

  any_healthy-any_passes :
      (h h' : Heap) (bs : List ℕ)
      → ((b : ℕ) → listed b bs ≡ true → is_healthy h' b ≡ check_backend net (h.backend b))
      → any_healthy h' bs ≡ any_passes h bs
  unfolding any_healthy
  any_healthy-any_passes h h' [] each = refl
  any_healthy-any_passes h h' (c ∷ bs) each =
      let first = each c (ground (arith, (nat_eq.beq_iff c c).1 refl)) in
      let rest = any_healthy-any_passes h h' bs (λ b m. each b (ground (arith, m))) in
      rw (first, rest) (ground arith)

  probe_backends-any_passes :
      (bs : List ℕ) (h : Heap) → any_healthy (probe_backends net bs h) bs ≡ any_passes h bs
  probe_backends-any_passes bs h =
      any_healthy-any_passes h (probe_backends net bs h) bs
        (λ b m. probe_backends-is_healthy bs h b ∙ rw m refl)

-- The server after a round of health checks that nothing runs beside.
abbrev pub probed_all : {S R F : Type 0} → Net F → Server S R F → Server S R F
probed_all net s = record s { heap = probe_backends net s.cfg.backends s.heap }

module _ {S R F : Type 0} (store : Store S) (g : Rng R) (float : Float64 F) (lower : ℕ → ℕ)
    (sha256 : Text → List ℕ) (net : Net F) where
  -- In every state that the server reaches, a round of health checks that nothing runs beside sets the
  -- health of each backend of the configuration to the result of its check and leaves every other
  -- backend as it is; behind it `/readyz` answers 200 if any check has passed, also where every backend
  -- was marked as down before, and 503 if none has.
  pub Reach-probe_backends :
      (cfg : Config) (st : S) (h : Heap) {w : System S R F}
      → Reach store g float lower sha256 (initial cfg st h) w
      → let s' = probed_all net w.server in
        ((b : ℕ)
          → is_healthy s'.heap b ≡ (
              if listed b cfg.backends
              then check_backend net (w.server.heap.backend b)
              else is_healthy w.server.heap b))
        × ((handle_readyz s').status
            ≡ (if any_passes net w.server.heap cfg.backends then 200 else 503))
  unfolding handle_readyz
  Reach-probe_backends cfg st h {w} run =
      let serving = Reach-IsServing store g float lower sha256 cfg st h run in
      let s' = probed_all net w.server in
      let up : has_healthy_backend s'.heap w.server.strategy
          ≡ any_passes net w.server.heap cfg.backends =
        has_healthy_backend-any_healthy s'.heap w.server.strategy
        ∙ ap (any_healthy s'.heap) serving.equipped.backends
        ∙ ap (λ bs. any_healthy (probe_backends net bs w.server.heap) cfg.backends)
            serving.configured
        ∙ probe_backends-any_passes net cfg.backends w.server.heap in
      (
        (λ b.
            ap (λ bs. is_healthy (probe_backends net bs w.server.heap) b) serving.configured
            ∙ probe_backends-is_healthy net cfg.backends w.server.heap b),
        rw up (ground arith),
      )
