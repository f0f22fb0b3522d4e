-- ===== src/Vllm.antt =====
-- internal/vllm/client.go: a client of its own for the same protocol as internal/llm/client.go.
pub mod Llama
mod Tests
use infer_flow.Prelude.{
  ℕ, Bool, true, false, List, [], ◌∷◌, ◌++◌, Option, none, some, leb, if◌then◌else◌,
}
use infer_flow.Text.{Text, codes, is_empty, trim_space, trim_right_slash}
use infer_flow.Proxy.{Exchange, unreachable, replied}

pub record Client : Type 0 where
  pub base_url : Text
  pub model_name : Text
  pub timeout : ℕ

pub record ChatMessage : Type 0 where
  pub role : Text
  pub content : Text

pub record ChatRequest (F : Type 0) : Type 0 where
  pub model : Text
  pub messages : List ChatMessage
  pub max_tokens : ℕ
  pub temperature : F
  pub repetition_penalty : F

pub record ChatChoice : Type 0 where
  pub message : ChatMessage

pub record ChatResponse : Type 0 where
  pub choices : List ChatChoice

pub record GenerateOpts (F : Type 0) : Type 0 where
  pub messages : List ChatMessage
  pub max_tokens : ℕ
  pub temperature : F
  pub repetition_penalty : F

unfoldable pub new_client : Text → Text → ℕ → Client
new_client base_url model_name timeout = record {
  base_url = trim_right_slash base_url;
  model_name = model_name;
  timeout = timeout;
}

abbrev pub first_text : List ChatChoice → Option Text
first_text [] = none
first_text (first ∷ more) =
    let text = trim_space first.message.content in if is_empty text then none else some text

abbrev pub read_reply : Exchange ChatResponse → Option Text
read_reply unreachable = none
read_reply (replied status none) = none
read_reply (replied status (some completion)) =
    if leb 400 status then none else first_text completion.choices

abbrev pub check_reply : Exchange (Unit {0}) → Bool
check_reply unreachable = false
check_reply (replied status body) = if leb 400 status then false else true

abbrev pub unless_empty : List ChatMessage → Option Text → Option Text
unless_empty [] result = none
unless_empty (m ∷ ms) result = result

module _ (c : Client) where
  unfoldable pub health_check : (Text → Exchange (Unit {0})) → Bool
  health_check http_get = check_reply (http_get (c.base_url ++ codes "/health"))

  unfoldable pub generate :
      {F : Type 0} → (Text → ChatRequest F → Exchange ChatResponse) → GenerateOpts F → Option Text
  generate http_post opts = unless_empty opts.messages (
      read_reply (
        http_post (c.base_url ++ codes "/v1/chat/completions") (record {
          model = c.model_name;
          messages = opts.messages;
          max_tokens = opts.max_tokens;
          temperature = opts.temperature;
          repetition_penalty = opts.repetition_penalty;
        })))
