-- ===== src/MockBackend/Answers.antt =====
-- The router's client in front of the mock backend, over a connection that delivers what is sent.
use infer_flow.Prelude.{
  ℕ, ◌≤◌, ◌≡◌, refl, inl, inr, false, [], ◌∷◌, ◌++◌, none, some, map, Bool-cases,
}
use infer_flow.Text.{Text, codes, is_empty, is_space, trim_space, trim_left, trim_right}
use infer_flow.Proxy.{
  ChatMessage, ChatCompletionRequest, ChatCompletionResponse, BackendRequest, BackendResponse,
  Exchange, replied, backend_request, completion_of, send_chat_completion,
}
use infer_flow.Proxy.Tokens.{estimate_tokens_positive}
use infer_flow.Proxy.Client.{Net}
use infer_flow.Server.Chat.{get, post}
use infer_flow.MockBackend.{
  Message, Request, Reply, refused, json, not_found, status_is, inferred, output_text, handle_infer,
  collapse_messages, write_json, serve,
}

abbrev pub message_of : ChatMessage → Message
message_of m = record { role = m.role; content = m.content }

-- The fields of the body that the mock backend reads.
abbrev pub request_of : {F : Type 0} → BackendRequest F → Request
request_of r = record { model = r.model; messages = map message_of r.messages; stream = r.stream }

-- The body as the router's client decodes it; it knows no field of a status.
abbrev pub delivered : Reply → Exchange BackendResponse
delivered (refused status text) = replied status none
delivered (json status headers (inferred r)) =
    replied status (some (record { model = r.model; output_text = r.output_text }))
delivered (json status headers (status_is text)) =
    replied status (some (record { model = []; output_text = [] }))
delivered not_found = replied 404 none

-- The reply to a health check.
abbrev pub checked : Reply → Exchange (Unit {0})
checked (refused status text) = replied status (some tt)
checked (json status headers payload) = replied status (some tt)
checked not_found = replied 404 (some tt)

-- A network on which every URL ends at a mock backend.
abbrev pub mock_net : {F : Type 0} → Net F
mock_net = record {
  get = λ url. checked (serve (codes "/healthz") get none);
  post = λ url b. delivered (serve (codes "/infer") post (some (request_of b)));
}

-- What begins with an `M` is not blank.
trim_space-M : (s : Text) → is_empty (trim_space (b'M' ∷ s)) ≡ false
unfolding trim_space trim_left trim_right is_space
trim_space-M s = elim (Bool-cases (is_empty (trim_right is_space s))) [
  | inl e ↦ rw e refl
  | inr e ↦ rw e refl
]

output_text_filled : (prompt : Text) → is_empty (trim_space (output_text prompt)) ≡ false
unfolding output_text
output_text_filled prompt = elim (Bool-cases (is_empty (trim_space prompt))) [
  | inl e ↦ rw e (trim_space-M (codes "ock response with no prompt content"))
  | inr e ↦ rw e (trim_space-M (codes "ock response to: " ++ prompt))
]

-- Every request that the router sends to the mock backend is answered, valid or not, with a
-- completion of at least one token.
pub send_chat_completion-mock :
    {F : Type 0} (now : ℕ) (r : ChatCompletionRequest F)
    → (c : ChatCompletionResponse) × (send_chat_completion now r
          (λ b. delivered (handle_infer post (some (request_of b))))
        ≡ some c)
      × (1 ≤ c.usage.completion_tokens)
unfolding send_chat_completion handle_infer completion_of write_json
send_chat_completion-mock now r = (
  _,
  refl,
  estimate_tokens_positive
      (output_text (collapse_messages (map message_of (backend_request r).messages)))
      (output_text_filled _),
)
