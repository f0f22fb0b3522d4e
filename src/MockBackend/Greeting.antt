-- ===== src/MockBackend/Greeting.antt =====
-- The text of a mock backend, by the contents of the messages.
use infer_flow.Prelude.{
  ◌≡◌, ◌≢◌, refl, ap, inl, inr, true, List, [], ◌∷◌, ◌++◌, map, All, All-append_inv, Bool-cases,
}
use infer_flow.Text.{Text, codes, is_empty, is_space, trim_space, join}
use infer_flow.Text.Trim.{nil_of_empty, trim_space-nil, trim_space_blank}
use infer_flow.MockBackend.{Message, filled_contents, collapse_messages, output_text}

abbrev pub IsBlank : Text → Type 0
IsBlank = All (λ c. is_space c ≡ true)

-- The contents that are not blank, in their order.
pub data Kept : List Text → List Text → Type 0 where
  over : Kept [] []
  drops : {c : Text} {cs ps : List Text} → IsBlank c → Kept cs ps → Kept (c ∷ cs) ps
  keeps : {c : Text} {cs ps : List Text} → ¬ IsBlank c → Kept cs ps → Kept (c ∷ cs) (c ∷ ps)

-- What a mock backend makes of the contents: a fixed text if all are blank, and else a greeting with
-- those that are not blank, separated by single blanks.
pub data IsGreeting (contents : List Text) (text : Text) : Type 0 where
  no_prompt :
      All IsBlank contents
      → text ≡ codes "Mock response with no prompt content"
      → IsGreeting contents text
  prompt :
      (parts : List Text)
      → parts ≢ []
      → Kept contents parts
      → text ≡ codes "Mock response to: " ++ join parts (codes " ")
      → IsGreeting contents text

IsBlank-of_empty : (s : Text) → is_empty (trim_space s) ≡ true → IsBlank s
IsBlank-of_empty s e = trim_space-nil s (nil_of_empty (trim_space s) e)

empty_of_blank : (s : Text) → IsBlank s → is_empty (trim_space s) ≡ true
empty_of_blank s k = ap is_empty (trim_space_blank s k)

filled_contents-Kept : (ms : List Message) → Kept (map (λ m. m.content) ms) (filled_contents ms)
unfolding filled_contents
filled_contents-Kept [] = over
filled_contents-Kept (m ∷ ms) = elim (Bool-cases (is_empty (trim_space m.content))) [
  | inl e ↦ rw e (drops (IsBlank-of_empty m.content e) (filled_contents-Kept ms))
  | inr e ↦ rw e (keeps (λ k. cc (e, empty_of_blank m.content k)) (filled_contents-Kept ms))
]

Kept-IsBlank : {cs ps : List Text} → Kept cs ps → ps ≡ [] → All IsBlank cs
Kept-IsBlank over e = tt
Kept-IsBlank (drops k r) e = (k, Kept-IsBlank r e)
Kept-IsBlank (keeps n r) e = cc

Kept-filled : {cs ps : List Text} → Kept cs ps → All (λ p. ¬ IsBlank p) ps
Kept-filled over = tt
Kept-filled (drops k r) = Kept-filled r
Kept-filled (keeps n r) = (n, Kept-filled r)

join_filled :
    (ps : List Text) → ps ≢ [] → All (λ p. ¬ IsBlank p) ps → ¬ IsBlank (join ps (codes " "))
unfolding join
join_filled [] ne k blank = ne refl
join_filled (p ∷ []) ne k blank = k.0 blank
join_filled (p ∷ q ∷ ps) ne k blank = k.0 (All-append_inv (λ c. is_space c ≡ true) p _ blank).0

greeted : (cs ps : List Text) → Kept cs ps → IsGreeting cs (output_text (join ps (codes " ")))
unfolding output_text join
greeted cs [] k = rw (empty_of_blank [] tt) (no_prompt (Kept-IsBlank k refl) refl)
greeted cs (p ∷ ps) k = elim (Bool-cases (is_empty (trim_space (join (p ∷ ps) (codes " "))))) [
  | inl e ↦ absurd (join_filled (p ∷ ps) (λ e. cc) (Kept-filled k) (IsBlank-of_empty _ e))
  | inr e ↦ rw e (prompt (p ∷ ps) (λ e. cc) k refl)
]

pub output_text-IsGreeting :
    (ms : List Message) → IsGreeting (map (λ m. m.content) ms) (output_text (collapse_messages ms))
unfolding collapse_messages
output_text-IsGreeting ms = greeted _ (filled_contents ms) (filled_contents-Kept ms)
