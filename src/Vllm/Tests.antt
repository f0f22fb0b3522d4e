-- ===== src/Vllm/Tests.antt =====
-- Both clients at one server.
use infer_flow.Prelude.{ℕ, ◌≡◌, [], ◌∷◌, some}
use infer_flow.Text.{Text, codes}
use infer_flow.Proxy.{Exchange, replied, unreachable}
use infer_flow.Llm
use infer_flow.Vllm.{GenerateOpts, new_client, generate, health_check}
use infer_flow.Vllm.Llama.{opts_of, request_of, reply_of, generate-eq-generate}

-- It answers with the first message that it gets.
abbrev echo : Text → Llm.ChatRequest ℕ → Exchange Llm.ChatResponse
echo url r = replied 200 (some (record { choices = r.messages }))

abbrev dead : Text → Exchange (Unit {0})
dead url = unreachable

abbrev asked : GenerateOpts ℕ
asked = record {
  messages = record { role = codes "user"; content = codes "Hi" } ∷ [];
  max_tokens = 5;
  temperature = 1;
  repetition_penalty = 1;
}

generate-eq-generate_example :
    (generate
        (new_client (codes "http://a/") (codes "m") 60)
        (λ url r. reply_of (echo url (request_of r)))
        asked
      ≡ Llm.generate (Llm.new_client (codes "http://a/") (codes "m") 60) echo (opts_of asked))
    × (health_check (new_client (codes "http://a/") (codes "m") 60) dead
        ≡ Llm.health_check (Llm.new_client (codes "http://a/") (codes "m") 60) dead)
generate-eq-generate_example =
    generate-eq-generate (codes "http://a/") (codes "m") 60 echo dead asked
