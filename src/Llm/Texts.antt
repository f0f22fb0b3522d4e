-- ===== src/Llm/Texts.antt =====
-- The texts that the client of a llama.cpp server returns.
use infer_flow.Prelude.{
  ◌≡◌, inl, inr, false, List, [], ◌∷◌, ◌++◌, Option, none, some, leb, if◌then◌else◌, Bool-cases,
}
use infer_flow.Text.{Text, codes, is_empty, trim_space}
use infer_flow.Text.Trim.{trim_space_idem}
use infer_flow.Proxy.{Exchange, unreachable, replied}
use infer_flow.Llm.{
  Client, ChatRequest, ChatResponse, GenerateOpts, Message, text_of, text_of_exchange, unless_empty,
  chat_request, generate,
}

-- A text with something in it, and without blanks around it.
abbrev pub IsText : Option Text → Type 0
IsText none = Unit {0}
IsText (some t) = (is_empty t ≡ false) × (trim_space t ≡ t)

text_of-IsText : (r : ChatResponse) → IsText (text_of r)
unfolding text_of
text_of-IsText r = go r.choices
  where
    go :
        (cs : List Message)
        → IsText (elim cs [
          | [] ↦ none
          | first ∷ more ↦
              (let text = trim_space first.content in if is_empty text then none else some text)
        ])
    go [] = tt
    go (m ∷ ms) = elim (Bool-cases (is_empty (trim_space m.content))) [
      | inl e ↦ rw e tt
      | inr e ↦ rw e (e, trim_space_idem m.content)
    ]

text_of_exchange-IsText : (x : Exchange ChatResponse) → IsText (text_of_exchange x)
text_of_exchange-IsText unreachable = tt
text_of_exchange-IsText (replied status none) = tt
text_of_exchange-IsText (replied status (some r)) = elim (Bool-cases (leb 400 status)) [
  | inl e ↦ rw e tt
  | inr e ↦ rw e (text_of-IsText r)
]

any : (ms : List Message) (o : Option Text) → IsText o → IsText (unless_empty ms o)
any [] o t = tt
any (m ∷ ms) o t = t

pub generate-IsText :
    {F : Type 0} (c : Client) (http_post : Text → ChatRequest F → Exchange ChatResponse)
    (opts : GenerateOpts F)
    → IsText (generate c http_post opts)
unfolding generate
generate-IsText c http_post opts = any opts.messages _ (
    text_of_exchange-IsText
      (http_post (c.base_url ++ codes "/v1/chat/completions") (chat_request c.model_name opts)))
