-- ===== src/Adapter/Llama.antt =====
-- The router's client, the adapter and the client of a llama.cpp server, one behind the other.
use mathlib.Core.Path.{subst}
use infer_flow.Prelude.{ℕ, ◌≤◌, ◌≡◌, refl, sym, ◌∙◌, [], ◌∷◌, Option, none, some, map}
use infer_flow.Text.{Text, trim_space}
use infer_flow.Proxy.{
  ChatCompletionRequest, ChatCompletionResponse, Exchange, backend_request, completion_of,
  send_chat_completion,
}
use infer_flow.Proxy.Tokens.{estimate_tokens_positive}
use infer_flow.Llm
use infer_flow.Llm.{Client, ChatRequest, ChatResponse}
use infer_flow.Llm.Texts.{IsText, generate-IsText}
use infer_flow.Server.Request.{validate_chat_request}
use infer_flow.Server.Chat.{post}
use infer_flow.Adapter.{Generator, opts_of, handle_infer}
use infer_flow.Adapter.EndToEnd.{delivered, completed, send_chat_completion-handle_infer}

-- The adapter of a llama.cpp server.
abbrev pub llama :
    {F : Type 0}
    → Client
    → (Text → Exchange (Unit {0}))
    → (Text → ChatRequest F → Exchange ChatResponse)
    → Generator F
llama c http_get http_post = record {
  health_check = Llm.health_check c http_get;
  generate = Llm.generate c http_post;
}

-- One choice whose text has no blanks around it, and a token at least.
abbrev pub IsAnswer : ChatCompletionResponse → Type 0
IsAnswer c =
    (t : Text) × (map (λ choice. choice.message.content) c.choices ≡ t ∷ [])
    × (trim_space t ≡ t)
    × (1 ≤ c.usage.completion_tokens)

completed-IsAnswer :
    {F : Type 0} (now : ℕ) (r : ChatCompletionRequest F) (o : Option Text)
    (c : ChatCompletionResponse)
    → IsText o
    → completed now r o ≡ some c
    → IsAnswer c
unfolding completion_of
completed-IsAnswer now r none c k e = cc
completed-IsAnswer now r (some t) c (filled, trimmed) e =
    let same : completion_of now r (record { model = r.model; output_text = t }) ≡ c = cc in
    subst IsAnswer same (t, refl, trimmed, estimate_tokens_positive t (rw trimmed filled))

-- A completion that comes back for a valid request from a llama.cpp server behind the adapter has one
-- choice, whose text has no blanks around it, and at least one token.
pub llama-IsAnswer :
    {F : Type 0} (now : ℕ) (r : ChatCompletionRequest F) (client : Client)
    (http_get : Text → Exchange (Unit {0}))
    (http_post : Text → ChatRequest F → Exchange ChatResponse) (c : ChatCompletionResponse)
    → validate_chat_request r ≡ none
    → send_chat_completion now r
        (λ b. delivered (handle_infer (llama client http_get http_post) post (some b)))
      ≡ some c
    → IsAnswer c
llama-IsAnswer now r client http_get http_post c valid e =
    completed-IsAnswer now r (Llm.generate client http_post (opts_of (backend_request r))) c
      (generate-IsText client http_post (opts_of (backend_request r)))
      (sym (send_chat_completion-handle_infer (llama client http_get http_post) now r valid) ∙ e)
