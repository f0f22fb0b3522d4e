-- ===== src/Server/Config/Backends.antt =====
-- The backends of the configuration have names of their own.
use mathlib.Core.Path.{subst}
use infer_flow.Prelude.{
  ℕ, zero, suc, ◌+◌, ◌≡◌, ◌≢◌, refl, sym, ◌∙◌, ap, Bool, false, List, [], ◌∷◌, Option, some, arith,
  get_elem?, drop, All, Option-cases, inl, inr,
}
use infer_flow.Text.{Text, codes, is_space, trim_space, trim_left, trim_right}
use infer_flow.Text.Decimal.{decimal-injective, decimal-All}
use infer_flow.Router.Heap.{Backend, new_backend}
use infer_flow.Server.Config.{
  backend_name, add_backend, load_backends, BackendsResult, made, invalid, ConfigResult, loaded,
  no_backends, invalid_backend, Loaded, load_from, load_config_from_env, getenv, split_and_trim,
}

abbrev IsInk : ℕ → Type 0
IsInk c = is_space c ≡ false

-- A text without a blank stays as it is.
trim_right_ink : (s : Text) → All IsInk s → trim_right is_space s ≡ s
unfolding trim_right
trim_right_ink [] k = refl
trim_right_ink (c ∷ s) (i, k) = rw (trim_right_ink s k) (ground arith)

trim_left_ink : (s : Text) → All IsInk s → trim_left is_space s ≡ s
unfolding trim_left
trim_left_ink [] k = refl
trim_left_ink (c ∷ s) (i, k) = rw (i, trim_left) refl

trim_space_ink : (s : Text) → All IsInk s → trim_space s ≡ s
unfolding trim_space
trim_space_ink s k = ap (trim_right is_space) (trim_left_ink s k) ∙ trim_right_ink s k

-- The name of a backend is not changed by the trimming in `NewBackend`.
pub backend_name_trimmed : (n : ℕ) → trim_space (backend_name n) ≡ backend_name n
backend_name_trimmed n = trim_space_ink (backend_name n) (
    unfold is_space in
    (
      refl,
      (
        refl,
        (refl, (refl, (refl, (refl, (refl, (refl, decimal-All IsInk (λ d lt. ground arith) n)))))),
      ),
    ))

-- The backends have the names of their positions, from `idx + 1` on.
abbrev IsNumbered : ℕ → List Backend → Type 0
IsNumbered idx [] = Unit {0}
IsNumbered idx (b ∷ bs) = (b.name ≡ backend_name (idx + 1)) × IsNumbered (idx + 1) bs

abbrev AllNumbered : ℕ → BackendsResult → Type 0
AllNumbered idx (made bs) = IsNumbered idx bs
AllNumbered idx (invalid raw) = Unit {0}

add_backend-Numbered :
    (idx : ℕ) (b : Backend) (o : BackendsResult)
    → b.name ≡ backend_name (idx + 1)
    → AllNumbered (idx + 1) o
    → AllNumbered idx (add_backend b o)
add_backend-Numbered idx b (made bs) e n = (e, n)
add_backend-Numbered idx b (invalid raw) e n = tt

new_backend_name :
    (parses : Text → Bool) (n : ℕ) (raw : Text) (b : Backend)
    → new_backend parses (backend_name n) raw ≡ some b
    → b.name ≡ backend_name n
unfolding new_backend
new_backend_name parses n raw b e = ground (arith, backend_name_trimmed n)

load_backends-Numbered :
    (env : Text → Text) (parses : Text → Bool) (duration : Text → Option ℕ) (idx : ℕ)
    (urls : List Text)
    → AllNumbered idx (load_backends env parses duration idx urls)
unfolding load_backends
load_backends-Numbered env parses duration idx [] = tt
load_backends-Numbered env parses duration idx (raw ∷ urls) =
    elim (Option-cases (new_backend parses (backend_name (idx + 1)) raw)) [
      | inl e ↦ rw (e, load_backends) tt
      | inr (b, e) ↦
          rw (e, load_backends)
            (add_backend-Numbered idx b _ (new_backend_name parses (idx + 1) raw b e)
              (load_backends-Numbered env parses duration (idx + 1) urls))
    ]

IsNumbered-name :
    (idx i : ℕ) (bs : List Backend) {b : Backend}
    → IsNumbered idx bs
    → get_elem? bs i ≡ some b
    → b.name ≡ backend_name (idx + i + 1)
IsNumbered-name idx i [] n e = cc
IsNumbered-name idx zero (b ∷ bs) {b = c} (n, ns) e =
    let same : b ≡ c = ground arith in rw (← same, n) (ap backend_name (omega arith))
IsNumbered-name idx (suc i) (b ∷ bs) (n, ns) e =
    IsNumbered-name (idx + 1) i bs ns e ∙ ap backend_name (omega arith)

pub backend_name-injective : (m n : ℕ) → backend_name m ≡ backend_name n → m ≡ n
backend_name-injective m n e = decimal-injective m n (ap (drop 8) e)

AllLoaded : ConfigResult → Type 0
AllLoaded (loaded l) = IsNumbered 0 l.backends
AllLoaded no_backends = Unit {0}
AllLoaded (invalid_backend raw) = Unit {0}

module _ (env : Text → Text) (parses : Text → Bool) (duration : Text → Option ℕ) where
  load_from-Loaded :
      (o : BackendsResult) → AllNumbered 0 o → AllLoaded (load_from env parses duration o)
  unfolding AllLoaded
  load_from-Loaded (made bs) n = n
  load_from-Loaded (invalid raw) n = tt

  load_config-Loaded : AllLoaded (load_config_from_env env parses duration)
  unfolding AllLoaded load_config_from_env
  load_config-Loaded = go (
      split_and_trim
        (getenv env parses duration (codes "INFERFLOW_BACKENDS") (codes "http://localhost:9000")))
    where
      go :
          (urls : List Text)
          → AllLoaded (elim urls [
            | [] ↦ no_backends
            | url ∷ more ↦
                load_from env parses duration (load_backends env parses duration 0 (url ∷ more))
          ])
      go [] = tt
      go (url ∷ more) =
          load_from-Loaded _ (load_backends-Numbered env parses duration 0 (url ∷ more))

  -- The backends of a configuration that loads are numbered from 1 on.
  pub load_config_from_env_name :
      (l : Loaded) (i : ℕ) {b : Backend}
      → load_config_from_env env parses duration ≡ loaded l
      → get_elem? l.backends i ≡ some b
      → b.name ≡ backend_name (i + 1)
  unfolding AllLoaded
  load_config_from_env_name l i e at_i =
      let n : IsNumbered 0 l.backends = subst AllLoaded e load_config-Loaded in
      IsNumbered-name 0 i l.backends n at_i ∙ ap backend_name (omega arith)

  -- In a configuration that loads, no two backends have the same name, so that the name that the affinity
  -- store keeps belongs to one backend.
  pub load_config_from_env_distinct :
      (l : Loaded) (i j : ℕ) {b c : Backend}
      → load_config_from_env env parses duration ≡ loaded l
      → get_elem? l.backends i ≡ some b
      → get_elem? l.backends j ≡ some c
      → i ≢ j
      → b.name ≢ c.name
  load_config_from_env_distinct l i j e at_i at_j apart same =
      let numbers : i + 1 ≡ j + 1 = backend_name-injective (i + 1) (j + 1) (
        sym (load_config_from_env_name l i e at_i) ∙ same ∙ load_config_from_env_name l j e at_j) in
      apart (omega arith)
