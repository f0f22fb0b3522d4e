-- ===== src/Vllm/Llama.antt =====
-- The client of internal/vllm beside that of internal/llm, on the same server.
use infer_flow.Prelude.{
  ℕ, ◌≡◌, refl, ap, List, [], ◌∷◌, Option, none, some, map, leb, if◌then◌else◌,
}
use infer_flow.Text.{Text}
use infer_flow.Proxy.{Exchange, unreachable, replied}
use infer_flow.Llm
use infer_flow.Llm.{Message}
use infer_flow.Vllm.{
  ChatMessage, ChatRequest, ChatChoice, ChatResponse, GenerateOpts, new_client, first_text,
  check_reply, read_reply, unless_empty, generate, health_check,
}

abbrev pub message_of : ChatMessage → Message
message_of m = record { role = m.role; content = m.content }

abbrev pub opts_of : {F : Type 0} → GenerateOpts F → Llm.GenerateOpts F
opts_of o = record {
  messages = map message_of o.messages;
  max_tokens = o.max_tokens;
  temperature = o.temperature;
  repetition_penalty = o.repetition_penalty;
}

abbrev pub request_of : {F : Type 0} → ChatRequest F → Llm.ChatRequest F
request_of r = record {
  model = r.model;
  messages = map message_of r.messages;
  max_tokens = r.max_tokens;
  temperature = r.temperature;
  repetition_penalty = r.repetition_penalty;
}

-- The reply of the one server, as the other client reads it.
abbrev back : Message → ChatChoice
back m = record { message = record { role = m.role; content = m.content } }

abbrev pub reply_of : Exchange Llm.ChatResponse → Exchange ChatResponse
reply_of unreachable = unreachable
reply_of (replied status none) = replied status none
reply_of (replied status (some r)) = replied status (some (record { choices = map back r.choices }))

first_text-text_of :
    (ms : List Message) → first_text (map back ms) ≡ Llm.text_of (record { choices = ms })
unfolding Llm.text_of
first_text-text_of [] = refl
first_text-text_of (m ∷ ms) = refl

check_reply-is_fine : (x : Exchange (Unit {0})) → check_reply x ≡ Llm.is_fine x
check_reply-is_fine unreachable = refl
check_reply-is_fine (replied status body) = refl

unless_empty-map :
    (ms : List ChatMessage) (o o' : Option Text)
    → o ≡ o'
    → unless_empty ms o ≡ Llm.unless_empty (map message_of ms) o'
unless_empty-map [] o o' e = refl
unless_empty-map (m ∷ ms) o o' e = e

read_reply-text_of_exchange :
    (x : Exchange Llm.ChatResponse) → read_reply (reply_of x) ≡ Llm.text_of_exchange x
read_reply-text_of_exchange unreachable = refl
read_reply-text_of_exchange (replied status none) = refl
read_reply-text_of_exchange (replied status (some r)) =
    ap (λ t. if leb 400 status then none else t) (first_text-text_of r.choices)

-- On a server that speaks the protocol, given as a function of the URL and the request, both clients
-- return the same text or an error for the same messages and parameters, and agree on its health.
pub generate-eq-generate :
    {F : Type 0} (base model : Text) (timeout : ℕ)
    (http_post : Text → Llm.ChatRequest F → Exchange Llm.ChatResponse)
    (http_get : Text → Exchange (Unit {0})) (opts : GenerateOpts F)
    → (generate
          (new_client base model timeout)
          (λ url r. reply_of (http_post url (request_of r)))
          opts
        ≡ Llm.generate (Llm.new_client base model timeout) http_post (opts_of opts))
      × (health_check (new_client base model timeout) http_get
          ≡ Llm.health_check (Llm.new_client base model timeout) http_get)
unfolding generate new_client health_check Llm.generate Llm.new_client Llm.health_check
    Llm.chat_request
generate-eq-generate base model timeout http_post http_get opts = (
  unless_empty-map opts.messages _ _ (read_reply-text_of_exchange (http_post _ _)),
  check_reply-is_fine (http_get _),
)
