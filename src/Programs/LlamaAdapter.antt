-- ===== src/Programs/LlamaAdapter.antt =====
-- cmd/vllm-adapter/main.go: an adapter in front of a llama.cpp server.
use infer_flow.Prelude.{ℕ, ◌*◌, Option, none, some, if◌then◌else◌}
use infer_flow.Text.{Text, codes, is_empty}
use infer_flow.Llm.{Client, new_client}

-- What `main` reads: where it listens, and the client that it makes.
pub record Settings : Type 0 where
  pub addr : Text
  pub client : Client

-- Negative numbers are left out.
module _ (env : Text → Text) (parse_duration : Text → Option ℕ) where
  unfoldable pub getenv : Text → Text → Text
  getenv key fallback = if is_empty (env key) then fallback else env key

  unfoldable pub duration_from_env : Text → ℕ → ℕ
  duration_from_env key fallback =
      if is_empty (env key)
      then fallback
      else elim (parse_duration (env key)) [ none ↦ fallback | some parsed ↦ parsed ]

  unfoldable pub settings : Settings
  settings = record {
    addr = getenv (codes "LLAMA_ADAPTER_ADDR") (codes ":9000");
    client =
        new_client (getenv (codes "LLAMA_BASE_URL") (codes "http://localhost:8080"))
          (getenv (codes "LLAMA_MODEL_NAME") (codes "Qwen/Qwen2.5-0.5B-Instruct"))
          (duration_from_env (codes "LLAMA_TIMEOUT") (60 * 1000000000));
  }
