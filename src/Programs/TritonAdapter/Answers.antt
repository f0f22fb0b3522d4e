-- ===== src/Programs/TritonAdapter/Answers.antt =====
-- The router's client, the adapter and the client of a Triton server, one behind the other.
use infer_flow.Prelude.{
  ℕ, ◌≡◌, ◌↔◌, sym, ap, ◌∙◌, inl, inr, false, List, [], ◌∷◌, Option, none, some, leb, map,
  Bool-cases, arith,
}
use infer_flow.Text.{Text, codes}
use infer_flow.Proxy.{
  ChatCompletionRequest, ChatCompletionResponse, Exchange, unreachable, replied, backend_request,
  completion_of, send_chat_completion,
}
use infer_flow.Triton.{
  InferRequest, InferResponse, generate, model_url, build_infer_request, flatten_messages,
  read_reply, Client,
}
use infer_flow.Triton.Extraction.{Extracts, extract_generated_text_iff}
use infer_flow.Server.Request.{validate_chat_request}
use infer_flow.Server.Chat.{post}
use infer_flow.Adapter.{message_of, opts_of, handle_infer}
use infer_flow.Adapter.EndToEnd.{delivered, completed, send_chat_completion-handle_infer}
use infer_flow.Programs.TritonAdapter.{generator}

-- A reply below status 400 whose outputs give the text.
abbrev pub Gave : {F : Type 0} → Exchange (InferResponse F) → Text → Type 0
Gave unreachable t = ⊥
Gave (replied status none) t = ⊥
Gave (replied status (some r)) t = (leb 400 status ≡ false) × Extracts r.outputs t

read_reply_iff :
    {F : Type 0} (x : Exchange (InferResponse F)) (t : Text) → (read_reply x ≡ some t) ↔ Gave x t
read_reply_iff unreachable t = ((λ e. cc), (λ g. absurd g))
read_reply_iff (replied status none) t = ((λ e. cc), (λ g. absurd g))
read_reply_iff (replied status (some r)) t = elim (Bool-cases (leb 400 status)) [
  | inl bad ↦ ((λ e. absurd (ground arith)), (λ g. absurd (ground arith)))
  | inr good ↦ (
    (λ e. (good, (extract_generated_text_iff r.outputs t).0 (ground arith))),
    (λ g. rw good ((extract_generated_text_iff r.outputs t).1 g.1)),
  )
]

abbrev texts_of : Option ChatCompletionResponse → List Text
texts_of none = []
texts_of (some c) = map (λ choice. choice.message.content) c.choices

texts_of-completed :
    {F : Type 0} (now : ℕ) (r : ChatCompletionRequest F) (o : Option Text) (t : Text)
    → completed now r o ≡ completed now r (some t)
    → o ≡ some t
unfolding completion_of
texts_of-completed now r none t e = cc
texts_of-completed now r (some s) t e = let same : s ∷ [] ≡ t ∷ [] = ap texts_of e in cc

module _ {F : Type 0} (path_escape : Text → Text) (c : Client)
    (http_get : Text → Exchange (Unit {0}))
    (http_post : Text → InferRequest → Exchange (InferResponse F)) where
  -- For a valid request, the router's client behind the adapter of a Triton server returns the
  -- completion of a text exactly if the server's reply, to a request with the flattened messages and
  -- the client's own number of tokens, has a status below 400 and an output that gives the text.
  pub send_chat_completion-generate :
      (now : ℕ) (r : ChatCompletionRequest F) (t : Text)
      → validate_chat_request r ≡ none
      → let prompt = flatten_messages (map message_of r.messages) in
        (send_chat_completion now r (λ b.
            delivered (handle_infer (generator path_escape c http_get http_post) post (some b)))
          ≡ completed now r (some t))
        ↔ Gave
            (http_post
              (model_url path_escape c (codes "infer"))
              (build_infer_request prompt c.max_new_tokens))
            t
  unfolding generate opts_of backend_request
  send_chat_completion-generate now r t valid =
      let whole =
        send_chat_completion-handle_infer (generator path_escape c http_get http_post) now r
          valid in
      (
        (λ e. (read_reply_iff _ t).0 (texts_of-completed now r _ t (sym whole ∙ e))),
        (λ g. whole ∙ ap (completed now r) ((read_reply_iff _ t).1 g)),
      )
