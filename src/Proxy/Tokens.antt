-- ===== src/Proxy/Tokens.antt =====
-- Laws of the estimates and of the completion.
use infer_flow.Prelude.{
  false, ℕ, ◌+◌, ◌*◌, ◌≤◌, ◌<◌, ◌≡◌, refl, ◌↔◌, arith, length, none, some, [], ◌∷◌,
}
use infer_flow.Text.{Text, is_empty, trim_space}
use infer_flow.Proxy.{
  ChatCompletionRequest, ChatCompletionResponse, BackendRequest, BackendResponse, Exchange,
  unreachable, replied, count_tokens, estimate_tokens, send_chat_completion, completion_of,
  backend_request,
}

count_tokens_ceil :
    (t : Text) → (length t ≤ 4 * count_tokens t) × (4 * count_tokens t < length t + 4)
unfolding count_tokens
count_tokens_ceil [] = omega arith
count_tokens_ceil (c ∷ t) = ground arith

-- The estimate is the number of characters without surrounding blanks, divided by four and rounded
-- up: four times it reaches the length, and exceeds it by less than four.
pub estimate_tokens_ceil :
    (text : Text)
    → (length (trim_space text) ≤ 4 * estimate_tokens text)
      × (4 * estimate_tokens text < length (trim_space text) + 4)
unfolding estimate_tokens
estimate_tokens_ceil text = count_tokens_ceil (trim_space text)

-- The reply that a completion is made of.
abbrev pub IsCompletion :
    {F : Type 0}
    → ℕ
    → ChatCompletionRequest F
    → Exchange BackendResponse
    → ChatCompletionResponse
    → Type 0
IsCompletion now r x response =
    (status : ℕ) × ((b : BackendResponse) × (x ≡ replied status (some b))
      × (status < 400)
      × (response ≡ completion_of now r b))

-- A call of a backend gives a completion exactly when a reply came with a status below 400 and a valid
-- body, and the completion is made of that body; everything else is an error.
pub send_chat_completion_iff :
    {F : Type 0} (now : ℕ) (r : ChatCompletionRequest F)
    (call : BackendRequest F → Exchange BackendResponse) (response : ChatCompletionResponse)
    → (send_chat_completion now r call ≡ some response)
      ↔ IsCompletion now r (call (backend_request r)) response
unfolding send_chat_completion
send_chat_completion_iff now r call response =
    (only_if (call (backend_request r)) refl, λ c. if_part c.0 c.1.0 c.1.1 c.1.2 c.1.3)
  where
    only_if :
        (x : Exchange BackendResponse)
        → call (backend_request r) ≡ x
        → send_chat_completion now r call ≡ some response
        → IsCompletion now r (call (backend_request r)) response
    only_if unreachable at e = absurd (ground arith)
    only_if (replied status none) at e = absurd (ground arith)
    only_if (replied status (some b)) at e = (status, (b, at, ground arith, ground arith))

    if_part :
        (status : ℕ) (b : BackendResponse)
        → call (backend_request r) ≡ replied status (some b)
        → status < 400
        → response ≡ completion_of now r b
        → send_chat_completion now r call ≡ some response
    if_part status b at lt made = ground arith

-- A text that is not blank has a token at least.
pub estimate_tokens_positive : (t : Text) → is_empty (trim_space t) ≡ false → 1 ≤ estimate_tokens t
estimate_tokens_positive t filled =
    omega (arith, (estimate_tokens_ceil t).0, some_length (trim_space t) filled)
  where
    some_length : (s : Text) → is_empty s ≡ false → 1 ≤ length s
    some_length [] e = cc
    some_length (c ∷ s) e = omega arith
