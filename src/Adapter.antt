-- ===== src/Adapter.antt =====
-- internal/adapter/server.go: the handler between the router and a model server.
pub mod EndToEnd
pub mod Llama
mod Tests
use infer_flow.Prelude.{ℕ, Bool, [], ◌∷◌, Option, none, some, map, if◌then◌else◌}
use infer_flow.Text.{Text, text_beq, codes, is_empty}
use infer_flow.Proxy.{BackendRequest, BackendResponse, ChatMessage}
use infer_flow.Llm.{Message, GenerateOpts}
use infer_flow.Server.Chat.{Method, post}

-- `Generator`: the health check, without an error or with one, and the generation.
pub record Generator (F : Type 0) : Type 0 where
  pub health_check : Bool
  pub generate : GenerateOpts F → Option Text

-- `not_found` is the multiplexer's answer on another path.
pub data Reply : Type 0 where
  refused : ℕ → Text → Reply
  not_found : Reply
  status_ok : Reply
  answered : BackendResponse → Reply

abbrev pub message_of : ChatMessage → Message
message_of m = record { role = m.role; content = m.content }

unfoldable pub opts_of : {F : Type 0} → BackendRequest F → GenerateOpts F
opts_of r = record {
  messages = map message_of r.messages;
  max_tokens = r.max_tokens;
  temperature = r.temperature;
  repetition_penalty = r.repetition_penalty;
}

module _ {F : Type 0} (client : Generator F) where
  unfoldable pub handle_health : Reply
  handle_health =
      if client.health_check then status_ok else refused 503 (codes "backend unavailable")

  unfoldable pub run_inference : BackendRequest F → Reply
  run_inference r = elim (client.generate (opts_of r)) [
    | none ↦ refused 502 (codes "backend inference failed")
    | some output ↦ answered (record { model = r.model; output_text = output })
  ]

  -- The handler of `/infer`; a body that does not decode is `none`.
  unfoldable pub handle_infer : Method → Option (BackendRequest F) → Reply
  handle_infer post none = refused 400 (codes "invalid json")
  handle_infer post (some r) =
      if is_empty r.model then refused 400 (codes "model is required") else elim r.messages [
        | [] ↦ refused 400 (codes "messages must not be empty")
        | m ∷ ms ↦ run_inference r
      ]
  handle_infer method body = refused 405 (codes "method not allowed")

  -- The multiplexer of `NewHandler`.
  unfoldable pub serve : Text → Method → Option (BackendRequest F) → Reply
  serve path method body =
      if text_beq path (codes "/healthz")
      then handle_health
      else if text_beq path (codes "/infer")
      then handle_infer method body
      else not_found
