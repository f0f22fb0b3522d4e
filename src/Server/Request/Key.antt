-- ===== src/Server/Request/Key.antt =====
-- Laws of the cache key.
use infer_flow.Prelude.{
  ℕ, ◌*◌, ◌≤◌, ◌≡◌, ◌≢◌, refl, sym, ◌∙◌, true, false, List, [], ◌∷◌, ◌++◌, none, map, arith, length,
  take, All-append_inv, length-append, length-take,
}
use mathlib.Core.List.{append_assoc}
use infer_flow.Text.{Text, codes, is_empty, is_space, trim_space}
use infer_flow.Text.Trim.{trim_space_idem, trim_space-nil, trim_space_blank}
use infer_flow.Proxy.{ChatMessage, ChatCompletionRequest}
use infer_flow.Server.Request.{key_lines, key_payload, hex, build_cache_key, validate_chat_request}

-- The message without the blanks around its role and its content.
abbrev pub trim_message : ChatMessage → ChatMessage
trim_message m = record { role = trim_space m.role; content = trim_space m.content }

key_lines-trim : (ms : List ChatMessage) → key_lines (map trim_message ms) ≡ key_lines ms
unfolding key_lines
key_lines-trim [] = refl
key_lines-trim (m ∷ ms) = rw (trim_space_idem m.role, trim_space_idem m.content, key_lines-trim ms)

-- Blanks around the model, the roles and the contents do not change the key.
pub build_cache_key-trim :
    (sha256 : Text → List ℕ) (model : Text) (ms : List ChatMessage)
    → build_cache_key sha256 (trim_space model) (map trim_message ms)
      ≡ build_cache_key sha256 model ms
unfolding build_cache_key key_payload
build_cache_key-trim sha256 model ms = rw (trim_space_idem model, key_lines-trim ms)

key_payload-ne-nil :
    (model : Text) (ms : List ChatMessage) → trim_space model ≢ [] → key_payload model ms ≢ []
unfolding key_payload
key_payload-ne-nil model ms named e = named (
    sym (trim_space_idem model)
    ∙ trim_space_blank (trim_space model)
        (All-append_inv (λ c. is_space c ≡ true) (trim_space model) (10 ∷ key_lines ms)
          (trim_space-nil (trim_space model ++ 10 ∷ key_lines ms) e)).0)

model_named :
    {F : Type 0} (r : ChatCompletionRequest F)
    → validate_chat_request r ≡ none
    → trim_space r.model ≢ []
unfolding validate_chat_request
model_named r valid e = absurd (ground arith)

length-hex : (bs : List ℕ) → length (hex bs) ≡ 2 * length bs
unfolding hex
length-hex [] = omega arith
length-hex (b ∷ bs) = omega (arith, length-hex bs)

pub not_empty : (s : Text) → s ≢ [] → is_empty s ≡ false
not_empty [] h = absurd (h refl)
not_empty (c ∷ s) h = refl

-- With a digest of at least 16 bytes: the key of a request that passes the validation has 49 characters.
pub length-build_cache_key :
    {F : Type 0} (sha256 : Text → List ℕ) (r : ChatCompletionRequest F)
    → ((s : Text) → 16 ≤ length (sha256 s))
    → validate_chat_request r ≡ none
    → length (build_cache_key sha256 r.model r.messages) ≡ 49
unfolding build_cache_key
length-build_cache_key sha256 r digest valid =
    rw
      (not_empty (key_payload r.model r.messages)
        (key_payload-ne-nil r.model r.messages (model_named r valid)))
      (omega (
        arith,
        length-append (codes "inferflow:prefix:")
            (hex (take 16 (sha256 (key_payload r.model r.messages)))),
        length-hex (take 16 (sha256 (key_payload r.model r.messages))),
        length-take 16 (sha256 (key_payload r.model r.messages)),
        digest (key_payload r.model r.messages),
      ))

-- A text that begins with no blank is not blank.
not_blank : (c : ℕ) (s : Text) → is_space c ≡ false → trim_space (c ∷ s) ≢ []
not_blank c s ink e = let blank = (trim_space-nil (c ∷ s) e).0 in cc

pub build_cache_key_filled :
    {F : Type 0} (sha256 : Text → List ℕ) (r : ChatCompletionRequest F)
    → validate_chat_request r ≡ none
    → trim_space (build_cache_key sha256 r.model r.messages) ≢ []
unfolding build_cache_key
build_cache_key_filled sha256 r valid =
    rw
      (not_empty (key_payload r.model r.messages)
        (key_payload-ne-nil r.model r.messages (model_named r valid)))
      (not_blank b'i'
        (codes "nferflow:prefix:" ++ hex (take 16 (sha256 (key_payload r.model r.messages))))
        (unfold is_space in refl))

-- A message whose content goes on with a line that reads as another message has the key of the two
-- messages, where nothing has blanks around it: the text that is hashed does not tell them apart.
pub build_cache_key_ambiguous :
    (sha256 : Text → List ℕ) (model role content role' content' : Text) (ms : List ChatMessage)
    → trim_space role' ≡ role'
    → trim_space content ≡ content
    → trim_space content' ≡ content'
    → trim_space (content ++ 10 ∷ (role' ++ b':' ∷ content'))
      ≡ content ++ 10 ∷ (role' ++ b':' ∷ content')
    → build_cache_key sha256 model
        (record { role = role; content = content ++ 10 ∷ (role' ++ b':' ∷ content') } ∷ ms)
      ≡ build_cache_key sha256 model (
          record { role = role; content = content }
          ∷ record { role = role'; content = content' }
          ∷ ms)
unfolding build_cache_key key_payload key_lines
build_cache_key_ambiguous sha256 model role content role' content' ms hr hc hc' hj =
    rw (hr, hc, hc', hj) (simp append_assoc)
