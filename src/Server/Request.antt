-- ===== src/Server/Request.antt =====
-- internal/server/server.go: what the server derives from a chat request.
pub mod Cost
pub mod Key
mod Tests
use infer_flow.Prelude.{
  ℕ, ◌+◌, ◌-◌, ◌/◌, ◌%◌, List, [], ◌∷◌, ◌++◌, Option, none, some, take, ◌==◌, ltb, if◌then◌else◌,
}
use infer_flow.Text.{Text, codes, is_empty, trim_space, byte_len}
use infer_flow.Proxy.{ChatMessage, ChatCompletionRequest}

pub data RequestError : Type 0 where
  model_required : RequestError
  messages_empty : RequestError

-- `validateChatRequest`.
unfoldable pub validate_chat_request : {F : Type 0} → ChatCompletionRequest F → Option RequestError
validate_chat_request r =
    if is_empty (trim_space r.model)
    then some model_required
    else elim r.messages [ [] ↦ some messages_empty | m ∷ ms ↦ none ]

unfoldable pub total_bytes : List ChatMessage → ℕ
total_bytes [] = 0
total_bytes (m ∷ ms) = byte_len (trim_space m.content) + total_bytes ms

-- `estimateRequestCost` behind its loop, and then whole: the bytes of the trimmed contents, divided
-- by four and rounded up, and at least 1.
cost_of_bytes : ℕ → ℕ
cost_of_bytes total =
    if total == 0
    then 1
    else (let cost = if total % 4 == 0 then total / 4 else total / 4 + 1 in
        if cost == 0 then 1 else cost)

unfoldable pub estimate_request_cost : List ChatMessage → ℕ
unfolding total_bytes cost_of_bytes
estimate_request_cost messages = cost_of_bytes (total_bytes messages)

-- The text that the loop of `buildCacheKey` builds.
unfoldable pub key_lines : List ChatMessage → Text
key_lines [] = []
key_lines (m ∷ ms) = trim_space m.role ++ b':' ∷ (trim_space m.content ++ 10 ∷ key_lines ms)

unfoldable pub key_payload : Text → List ChatMessage → Text
unfolding key_lines
key_payload model messages = trim_space (trim_space model ++ 10 ∷ key_lines messages)

abbrev pub hex_digit : ℕ → ℕ
hex_digit n = if ltb n 10 then b'0' + n else b'a' + n - 10

-- `hex.EncodeToString`.
unfoldable pub hex : List ℕ → Text
hex [] = []
hex (b ∷ bs) = hex_digit (b / 16) ∷ hex_digit (b % 16) ∷ hex bs

-- `buildCacheKey`. `sha256` is the standard library's digest, as bytes, of a text.
unfoldable pub build_cache_key : (Text → List ℕ) → Text → List ChatMessage → Text
unfolding hex
build_cache_key sha256 model messages =
    let payload = key_payload model messages in
    if is_empty payload then [] else codes "inferflow:prefix:" ++ hex (take 16 (sha256 payload))
