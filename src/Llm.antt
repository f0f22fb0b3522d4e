-- ===== src/Llm.antt =====
-- internal/llm/client.go: the client of a llama.cpp server. A call over HTTP is one of its possible
-- outcomes, chosen by a function of the URL and the body; `unreachable` stands for every error on the
-- way to a reply, those of building the request included.
pub mod Texts
use infer_flow.Prelude.{
  ℕ, Bool, true, false, List, [], ◌∷◌, ◌++◌, Option, none, some, leb, if◌then◌else◌,
}
use infer_flow.Text.{Text, codes, is_empty, trim_space, trim_right_slash}
use infer_flow.Proxy.{Exchange, unreachable, replied}

pub record Message : Type 0 where
  pub role : Text
  pub content : Text

-- The body of the request; `F` is the type of `float64`.
pub record ChatRequest (F : Type 0) : Type 0 where
  pub model : Text
  pub messages : List Message
  pub max_tokens : ℕ
  pub temperature : F
  pub repetition_penalty : F

-- The message of each choice of the reply.
pub record ChatResponse : Type 0 where
  pub choices : List Message

pub record GenerateOpts (F : Type 0) : Type 0 where
  pub messages : List Message
  pub max_tokens : ℕ
  pub temperature : F
  pub repetition_penalty : F

-- The timeout, in nanoseconds, is that of the HTTP client.
pub record Client : Type 0 where
  pub base_url : Text
  pub model_name : Text
  pub timeout : ℕ

unfoldable pub new_client : Text → Text → ℕ → Client
new_client base_url model_name timeout = record {
  base_url = trim_right_slash base_url;
  model_name = model_name;
  timeout = timeout;
}

abbrev pub is_fine : Exchange (Unit {0}) → Bool
is_fine unreachable = false
is_fine (replied status body) = if leb 400 status then false else true

unfoldable pub chat_request : {F : Type 0} → Text → GenerateOpts F → ChatRequest F
chat_request model_name opts = record {
  model = model_name;
  messages = opts.messages;
  max_tokens = opts.max_tokens;
  temperature = opts.temperature;
  repetition_penalty = opts.repetition_penalty;
}

-- The text of the first choice.
unfoldable pub text_of : ChatResponse → Option Text
text_of completion = elim completion.choices [
  | [] ↦ none
  | first ∷ more ↦ let text = trim_space first.content in if is_empty text then none else some text
]

abbrev pub text_of_exchange : Exchange ChatResponse → Option Text
text_of_exchange unreachable = none
text_of_exchange (replied status none) = none
text_of_exchange (replied status (some completion)) =
    if leb 400 status then none else text_of completion

-- `if len(opts.Messages) == 0`, with the error that follows.
abbrev pub unless_empty {ℓ} : {A : Type ℓ} → List A → Option Text → Option Text
unless_empty [] result = none
unless_empty (m ∷ ms) result = result

module _ (c : Client) where
  -- `HealthCheck`: whether it returned without an error.
  unfoldable pub health_check : (Text → Exchange (Unit {0})) → Bool
  health_check http_get = is_fine (http_get (c.base_url ++ codes "/health"))

  -- `Generate`, where `none` is an error.
  unfoldable pub generate :
      {F : Type 0} → (Text → ChatRequest F → Exchange ChatResponse) → GenerateOpts F → Option Text
  generate http_post opts = unless_empty opts.messages (
      text_of_exchange
        (http_post (c.base_url ++ codes "/v1/chat/completions") (chat_request c.model_name opts)))
