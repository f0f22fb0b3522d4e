-- ===== src/Adapter/Tests.antt =====
-- A request through the router's client, the adapter and the client of a llama.cpp server.
use infer_flow.Prelude.{ℕ, ◌≡◌, refl, true, false, [], ◌∷◌, none, some}
use infer_flow.Text.{codes, trim_right_slash, trim_space, trim_left, trim_right, is_space}
use infer_flow.Proxy.{
  ChatCompletionRequest, Exchange, unreachable, replied, ChatCompletionResponse, completion_of,
  backend_request, send_chat_completion,
}
use infer_flow.Llm.{Client, ChatRequest, ChatResponse, new_client, generate, text_of, chat_request}
use infer_flow.Text.{Text}
use infer_flow.Server.Request.{validate_chat_request}
use infer_flow.Server.Chat.{post}
use infer_flow.Adapter.{Generator, opts_of, handle_infer, run_inference}
use infer_flow.Adapter.Llama
use infer_flow.Adapter.Llama.{IsAnswer, llama-IsAnswer}
use infer_flow.Adapter.EndToEnd.{delivered}

abbrev question : ChatCompletionRequest ℕ
question = record {
  model = codes "m";
  messages = record { role = codes "user"; content = codes "Hi" } ∷ [];
  stream = false;
  max_tokens = 0;
  temperature = 0;
  repetition_penalty = 0;
}

question_valid : validate_chat_request question ≡ none
unfolding validate_chat_request trim_space trim_left trim_right is_space
question_valid = refl

abbrev llama : Text → ChatRequest ℕ → Exchange ChatResponse
llama url r =
    replied 200
      (some (record { choices = record { role = codes "assistant"; content = codes " Ho " } ∷ [] }))

abbrev client : Client
client = new_client (codes "http://localhost:8080/") (codes "m") 60

abbrev generator : Generator ℕ
generator = record { health_check = true; generate = generate client llama }

abbrev no_reply : Text → Exchange (Unit {0})
no_reply url = unreachable

-- What the router's client returns for the question.
abbrev answer : ChatCompletionResponse
answer = completion_of 9 question (record { model = codes "m"; output_text = codes "Ho" })

question_answered :
    send_chat_completion 9 question
      (λ b. delivered (handle_infer (Llama.llama client no_reply llama) post (some b)))
    ≡ some answer
unfolding send_chat_completion handle_infer run_inference opts_of backend_request generate text_of
    chat_request new_client trim_space trim_left trim_right is_space trim_right_slash completion_of
question_answered = refl

llama-IsAnswer_example : IsAnswer answer
llama-IsAnswer_example =
    llama-IsAnswer 9 question client no_reply llama answer question_valid question_answered
