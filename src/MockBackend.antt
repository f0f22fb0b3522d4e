-- ===== src/MockBackend.antt =====
-- cmd/mock-backend/main.go: a backend that answers at once. The sleep of 20 milliseconds is left out.
pub mod Answers
pub mod Greeting
use infer_flow.Prelude.{ℕ, Bool, List, [], ◌∷◌, ◌++◌, Option, none, some, if◌then◌else◌}
use infer_flow.Text.{Text, codes, is_empty, text_beq, trim_space, join}
use infer_flow.Server.Chat.{Method, post}

pub record Message : Type 0 where
  pub role : Text
  pub content : Text

pub record Request : Type 0 where
  pub model : Text
  pub messages : List Message
  pub stream : Bool

pub record Response : Type 0 where
  pub model : Text
  pub output_text : Text

pub data Payload : Type 0 where
  status_is : Text → Payload
  inferred : Response → Payload

-- `http.Error` and `writeJSON`, and what the multiplexer answers on another path.
pub data Reply : Type 0 where
  refused : ℕ → Text → Reply
  json : ℕ → List (Text × Text) → Payload → Reply
  not_found : Reply

unfoldable pub getenv : (Text → Text) → Text → Text → Text
getenv env key default_value = if is_empty (env key) then default_value else env key

unfoldable pub write_json : ℕ → Payload → Reply
write_json status payload =
    json status ((codes "Content-Type", codes "application/json") ∷ []) payload

-- The loop of `collapseMessages`.
unfoldable pub filled_contents : List Message → List Text
filled_contents [] = []
filled_contents (m ∷ ms) =
    let rest = filled_contents ms in
    if is_empty (trim_space m.content) then rest else m.content ∷ rest

unfoldable pub collapse_messages : List Message → Text
collapse_messages ms = join (filled_contents ms) (codes " ")

unfoldable pub fallback : Text → Text → Text
fallback value default_value = if is_empty value then default_value else value

unfoldable pub output_text : Text → Text
output_text prompt =
    if is_empty (trim_space prompt)
    then codes "Mock response with no prompt content"
    else codes "Mock response to: " ++ prompt

-- The handler of `/infer`; a body that does not decode is `none`.
unfoldable pub handle_infer : Method → Option Request → Reply
handle_infer post none = refused 400 (codes "invalid json")
handle_infer post (some r) = write_json 200 (
    inferred (record {
      model = fallback r.model (codes "mock-llm");
      output_text = output_text (collapse_messages r.messages);
    }))
handle_infer method body = refused 405 (codes "method not allowed")

-- The handler of `/healthz`.
unfoldable pub handle_healthz : Reply
handle_healthz = write_json 200 (status_is (codes "ok"))

-- `main`: where it listens, and its routes.
unfoldable pub address : (Text → Text) → Text
address env = getenv env (codes "MOCK_BACKEND_ADDR") (codes ":9000")

unfoldable pub serve : Text → Method → Option Request → Reply
serve path method body =
    if text_beq path (codes "/healthz")
    then handle_healthz
    else if text_beq path (codes "/infer")
    then handle_infer method body
    else not_found
