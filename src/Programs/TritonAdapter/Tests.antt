-- ===== src/Programs/TritonAdapter/Tests.antt =====
-- An adapter that is started without a setting, in front of a server that answers "Ho".
use infer_flow.Prelude.{ℕ, ◌≡◌, ◌↔◌, [], ◌∷◌, Option, none, some, map}
use infer_flow.Text.{Text, codes}
use infer_flow.Proxy.{Exchange, unreachable, replied, send_chat_completion}
use infer_flow.Triton.{
  Client, InferRequest, InferResponse, text, generated_text, model_url, build_infer_request,
  flatten_messages,
}
use infer_flow.Adapter.{message_of, handle_infer}
use infer_flow.Adapter.EndToEnd.{delivered, completed}
use infer_flow.Server.Chat.{post}
use infer_flow.Server.Samples.{question, question_valid}
use infer_flow.Programs.TritonAdapter.{settings, generator}
use infer_flow.Programs.TritonAdapter.Answers.{Gave, send_chat_completion-generate}

abbrev unset : Text → Text
unset key = []

abbrev unread : Text → Option ℕ
unread s = none

abbrev client : Client
client = (settings unset unread unread).client

abbrev escaped : Text → Text
escaped s = s

abbrev dead : Text → Exchange (Unit {0})
dead url = unreachable

abbrev triton : Text → InferRequest → Exchange (InferResponse ℕ)
triton url r = replied 200 (
    some (record {
      outputs =
          record { name = generated_text; values = text (codes "Ho") ∷ []; shape = 1 ∷ [] } ∷ [];
    }))

send_chat_completion-generate_example :
    (send_chat_completion 9 question
        (λ b. delivered (handle_infer (generator escaped client dead triton) post (some b)))
      ≡ completed 9 question (some (codes "Ho")))
    ↔ Gave
        (triton (model_url escaped client (codes "infer")) (
          build_infer_request
            (flatten_messages (map message_of question.messages))
            client.max_new_tokens))
        (codes "Ho")
send_chat_completion-generate_example =
    send_chat_completion-generate escaped client dead triton 9 question (codes "Ho") question_valid
