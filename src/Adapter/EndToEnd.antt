-- ===== src/Adapter/EndToEnd.antt =====
-- The router's client in front of the adapter, over a connection that delivers what is sent.
use infer_flow.Prelude.{
  ℕ, ◌≡◌, refl, inl, inr, false, [], ◌∷◌, Option, none, some, arith, Option-cases,
}
use infer_flow.Text.{Text, is_empty, trim_space}
use infer_flow.Proxy.{
  ChatCompletionRequest, ChatCompletionResponse, BackendResponse, Exchange, replied,
  backend_request, completion_of, send_chat_completion,
}
use infer_flow.Server.Request.{validate_chat_request}
use infer_flow.Server.Chat.{post}
use infer_flow.Adapter.{
  Generator, Reply, refused, not_found, status_ok, answered, opts_of, run_inference, handle_infer,
}

-- What the router's client receives of a reply.
abbrev pub delivered : Reply → Exchange BackendResponse
delivered (refused status text) = replied status none
delivered not_found = replied 404 none
delivered status_ok = replied 200 none
delivered (answered response) = replied 200 (some response)

abbrev pub completed :
    {F : Type 0} → ℕ → ChatCompletionRequest F → Option Text → Option ChatCompletionResponse
completed now r none = none
completed now r (some text) =
    some (completion_of now r (record { model = r.model; output_text = text }))

pub model_nonempty : (s : Text) → is_empty (trim_space s) ≡ false → is_empty s ≡ false
unfolding trim_space
model_nonempty [] e = e
model_nonempty (c ∷ s) e = refl

module _ {F : Type 0} (client : Generator F) where
  handle_infer-run_inference :
      (r : ChatCompletionRequest F)
      → validate_chat_request r ≡ none
      → handle_infer client post (some (backend_request r))
        ≡ run_inference client (backend_request r)
  unfolding handle_infer backend_request validate_chat_request
  handle_infer-run_inference r valid = ground (arith, model_nonempty r.model)

  -- A request that passes the router's validation passes the adapter's checks: the router's client
  -- returns the completion of the text that the adapter's client generates for the same messages, and an
  -- error exactly if the generation fails.
  pub send_chat_completion-handle_infer :
      (now : ℕ) (r : ChatCompletionRequest F)
      → validate_chat_request r ≡ none
      → send_chat_completion now r (λ b. delivered (handle_infer client post (some b)))
        ≡ completed now r (client.generate (opts_of (backend_request r)))
  unfolding send_chat_completion run_inference
  send_chat_completion-handle_infer now r valid =
      rw (handle_infer-run_inference r valid, send_chat_completion)
        (elim (Option-cases (client.generate (opts_of (backend_request r)))) [
          | inl e ↦ rw (e, run_inference, send_chat_completion) refl
          | inr (text, e) ↦
              rw (e, run_inference, send_chat_completion) (unfold backend_request in refl)
        ])
