-- ===== src/Proxy.antt =====
-- internal/proxy/client.go: what the router exchanges with its clients and its backends. HTTP and
-- JSON are the standard library's: an exchange with a backend is one of its possible outcomes.
pub mod Client
pub mod Tokens
use infer_flow.Prelude.{
  ℕ, ◌+◌, ◌/◌, ◌%◌, Bool, true, false, List, [], ◌∷◌, ◌++◌, Option, none, some, length, leb, ◌==◌,
  if◌then◌else◌,
}
use infer_flow.Text.{Text, codes, is_empty, trim_space}
use infer_flow.Text.Decimal.{decimal}

pub record ChatMessage : Type 0 where
  pub role : Text
  pub content : Text

-- `F` is the type of `float64`.
pub record ChatCompletionRequest (F : Type 0) : Type 0 where
  pub model : Text
  pub messages : List ChatMessage
  pub stream : Bool
  pub max_tokens : ℕ
  pub temperature : F
  pub repetition_penalty : F

pub record Usage : Type 0 where
  pub prompt_tokens : ℕ
  pub completion_tokens : ℕ
  pub total_tokens : ℕ

pub record Choice : Type 0 where
  pub index : ℕ
  pub message : ChatMessage
  pub finish_reason : Text

pub record ChatCompletionResponse : Type 0 where
  pub id : Text
  pub object : Text
  pub created : ℕ
  pub model : Text
  pub choices : List Choice
  pub usage : Usage

pub record BackendRequest (F : Type 0) : Type 0 where
  pub model : Text
  pub messages : List ChatMessage
  pub stream : Bool
  pub max_tokens : ℕ
  pub temperature : F
  pub repetition_penalty : F

pub record BackendResponse : Type 0 where
  pub model : Text
  pub output_text : Text

-- The outcome of a call over HTTP: no request was made or no reply came, or a reply with a status and
-- its decoded body, if that is valid.
pub data Exchange (B : Type 0) : Type 0 where
  unreachable : Exchange B
  replied : ℕ → Option B → Exchange B

-- `estimateTokens` behind the trimming, and then whole: a token for each four characters, begun ones
-- included.
count_tokens : Text → ℕ
count_tokens trimmed =
    if is_empty trimmed
    then 0
    else (let runes = length trimmed in
        let tokens = if runes % 4 == 0 then runes / 4 else runes / 4 + 1 in
        if tokens == 0 then 1 else tokens)

unfoldable pub estimate_tokens : Text → ℕ
unfolding count_tokens
estimate_tokens text = count_tokens (trim_space text)

-- The text that the loop of `estimateTokensFromMessages` builds.
unfoldable pub join_contents : List ChatMessage → Text
join_contents [] = []
join_contents (m ∷ ms) = m.content ++ b' ' ∷ join_contents ms

unfoldable pub estimate_tokens_from_messages : List ChatMessage → ℕ
unfolding join_contents
estimate_tokens_from_messages messages = estimate_tokens (join_contents messages)

unfoldable pub choose_model : Text → Text → Text
choose_model primary fallback =
    if is_empty primary then (if is_empty fallback then codes "mock-llm" else fallback) else primary

-- The body that `SendChatCompletion` sends.
unfoldable pub backend_request : {F : Type 0} → ChatCompletionRequest F → BackendRequest F
backend_request r = record {
  model = r.model;
  messages = r.messages;
  stream = r.stream;
  max_tokens = r.max_tokens;
  temperature = r.temperature;
  repetition_penalty = r.repetition_penalty;
}

-- The response that it returns, at the Unix time `now`.
unfoldable pub completion_of :
    {F : Type 0} → ℕ → ChatCompletionRequest F → BackendResponse → ChatCompletionResponse
completion_of now r b =
    let prompt_tokens = estimate_tokens_from_messages r.messages in
    let completion_tokens = estimate_tokens b.output_text in
    record {
      id = codes "chatcmpl-" ++ decimal now;
      object = codes "chat.completion";
      created = now;
      model = choose_model b.model r.model;
      choices =
          record {
            index = 0;
            message = record { role = codes "assistant"; content = b.output_text };
            finish_reason = codes "stop";
          }
          ∷ [];
      usage = record {
        prompt_tokens = prompt_tokens;
        completion_tokens = completion_tokens;
        total_tokens = prompt_tokens + completion_tokens;
      };
    }

-- `SendChatCompletion`, where `none` is an error.
unfoldable pub send_chat_completion :
    {F : Type 0}
    → ℕ
    → ChatCompletionRequest F
    → (BackendRequest F → Exchange BackendResponse)
    → Option ChatCompletionResponse
send_chat_completion now r call = elim (call (backend_request r)) [
  | unreachable ↦ none
  | replied status body ↦
      if leb 400 status
      then none
      else elim body [ none ↦ none | some b ↦ some (completion_of now r b) ]
]

-- `HealthCheck`: whether it returned without an error.
unfoldable pub health_check : Exchange (Unit {0}) → Bool
health_check unreachable = false
health_check (replied status body) = if leb 400 status then false else true
