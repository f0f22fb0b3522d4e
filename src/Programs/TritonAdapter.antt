-- ===== src/Programs/TritonAdapter.antt =====
-- cmd/triton-adapter/main.go: an adapter in front of a Triton server.
pub mod Answers
mod Tests
use infer_flow.Prelude.{ℕ, ◌*◌, Option, none, some, if◌then◌else◌}
use infer_flow.Text.{Text, codes, is_empty}
use infer_flow.Proxy.{Exchange}
use infer_flow.Triton
use infer_flow.Triton.{Client, new_client, InferRequest, InferResponse}
use infer_flow.Adapter.{Generator}

-- What `main` reads: where it listens, and the client that it makes.
pub record Settings : Type 0 where
  pub addr : Text
  pub client : Client

-- Negative numbers are left out.
module _ (env : Text → Text) (atoi : Text → Option ℕ) (parse_duration : Text → Option ℕ) where
  unfoldable pub getenv : Text → Text → Text
  getenv key fallback = if is_empty (env key) then fallback else env key

  unfoldable pub int_from_env : Text → ℕ → ℕ
  int_from_env key fallback =
      if is_empty (env key)
      then fallback
      else elim (atoi (env key)) [ none ↦ fallback | some parsed ↦ parsed ]

  unfoldable pub duration_from_env : Text → ℕ → ℕ
  duration_from_env key fallback =
      if is_empty (env key)
      then fallback
      else elim (parse_duration (env key)) [ none ↦ fallback | some parsed ↦ parsed ]

  unfoldable pub settings : Settings
  settings = record {
    addr = getenv (codes "TRITON_ADAPTER_ADDR") (codes ":9000");
    client =
        new_client (getenv (codes "TRITON_BASE_URL") (codes "http://localhost:8000"))
          (getenv (codes "TRITON_MODEL_NAME") (codes "qwen3_0_6b"))
          (duration_from_env (codes "TRITON_TIMEOUT") (60 * 1000000000))
          (int_from_env (codes "TRITON_MAX_NEW_TOKENS") 128);
  }

-- `adapter.NewHandler(client)`: the client as the adapter sees it.
abbrev pub generator :
    {F : Type 0}
    → (Text → Text)
    → Client
    → (Text → Exchange (Unit {0}))
    → (Text → InferRequest → Exchange (InferResponse F))
    → Generator F
generator path_escape c http_get http_post = record {
  health_check = Triton.health_check path_escape c http_get;
  generate = Triton.generate path_escape c http_post;
}
