-- ===== src/Triton/Prompts.antt =====
-- What the client of a Triton server sends.
use infer_flow.Prelude.{◌≡◌, ◌≢◌, ◌↔◌, refl, inl, inr, List, [], ◌∷◌, ◌++◌, All, arith, Bool-cases}
use infer_flow.Text.{Text, codes, is_empty, trim_space, join}
use infer_flow.Text.Trim.{nil_of_empty}
use infer_flow.Llm.{Message, GenerateOpts}
use infer_flow.Proxy.{Exchange}
use infer_flow.Triton.{
  Client, InferRequest, InferResponse, prompt_parts, flatten_messages, generate,
}

abbrev pub IsBlankMessage : Message → Type 0
IsBlankMessage m = trim_space m.content ≡ []

part_ne_nil : (role c : Text) → role ++ (codes ": " ++ c) ≢ []
part_ne_nil [] c e = cc
part_ne_nil (r ∷ role) c e = cc

join-nil : (p : Text) (ps : List Text) → p ≢ [] → join (p ∷ ps) (10 ∷ []) ≢ []
unfolding join
join-nil [] ps ne e = absurd (ne refl)
join-nil (c ∷ p) [] ne e = cc
join-nil (c ∷ p) (q ∷ ps) ne e = cc

blank_of_flat : (ms : List Message) → flatten_messages ms ≡ [] → All IsBlankMessage ms
unfolding flatten_messages prompt_parts
blank_of_flat [] e = tt
blank_of_flat (m ∷ ms) e = elim (Bool-cases (is_empty (trim_space m.content))) [
  | inl blank ↦ (nil_of_empty (trim_space m.content) blank, blank_of_flat ms (ground arith))
  | inr filled ↦ absurd (
      join-nil (m.role ++ (codes ": " ++ trim_space m.content)) (prompt_parts ms)
        (part_ne_nil m.role (trim_space m.content)) (ground arith))
]

flat_of_blank : (ms : List Message) → All IsBlankMessage ms → flatten_messages ms ≡ []
unfolding flatten_messages prompt_parts join
flat_of_blank [] b = refl
flat_of_blank (m ∷ ms) (e, b) = rw e (flat_of_blank ms b)

-- The prompt is empty exactly if every message is blank.
pub flatten_messages_iff : (ms : List Message) → (flatten_messages ms ≡ []) ↔ All IsBlankMessage ms
flatten_messages_iff ms = (blank_of_flat ms, flat_of_blank ms)

-- The number of tokens, the temperature and the penalty that a request asks for make no difference: on
-- the same messages the client sends the same request, and returns the same text or an error.
pub generate_ignores :
    {F : Type 0} (path_escape : Text → Text) (c : Client)
    (http_post : Text → InferRequest → Exchange (InferResponse F)) (opts opts' : GenerateOpts F)
    → opts.messages ≡ opts'.messages
    → generate path_escape c http_post opts ≡ generate path_escape c http_post opts'
unfolding generate
generate_ignores path_escape c http_post opts opts' same = rw same refl
