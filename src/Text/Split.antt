-- ===== src/Text/Split.antt =====
-- Laws of `strings.Split`.
use infer_flow.Prelude.{
  ℕ, ◌≡◌, refl, ◌∙◌, ap, false, List, [], ◌∷◌, ◌++◌, All, arith, ◌==◌, Bool-cases, inl, inr,
}
use infer_flow.Text.{Text, push_char, split}

-- A text without the separator.
abbrev pub IsFree : ℕ → Text → Type 0
IsFree sep = All (λ c. (c == sep) ≡ false)

push_char_same :
    (sep c : ℕ) (p : Text) (ps : List Text)
    → (c == sep) ≡ false
    → push_char sep c (p ∷ ps) ≡ (c ∷ p) ∷ ps
unfolding push_char
push_char_same sep c p ps e = rw e refl

pub split_free : (sep : ℕ) (p : Text) → IsFree sep p → split sep p ≡ p ∷ []
unfolding split
split_free sep [] k = refl
split_free sep (c ∷ p) (e, k) =
    ap (push_char sep c) (split_free sep p k) ∙ push_char_same sep c p [] e

split-nonempty : (sep : ℕ) (s : Text) → (p : Text) × ((ps : List Text) × (split sep s ≡ p ∷ ps))
unfolding split
split-nonempty sep [] = ([], ([], refl))
split-nonempty sep (c ∷ s) = go (split sep s)
  where
    go : (parts : List Text) → (p : Text) × ((ps : List Text) × (push_char sep c parts ≡ p ∷ ps))
    go [] = ([], ([], unfold push_char in refl))
    go (p ∷ ps) =
        unfold push_char in
        elim (Bool-cases (c == sep)) [
          | inl e ↦ ([], (p ∷ ps, rw e refl))
          | inr e ↦ (c ∷ p, (ps, rw e refl))
        ]

push_char_new : (sep : ℕ) (p : Text) (ps : List Text) → push_char sep sep (p ∷ ps) ≡ [] ∷ p ∷ ps
unfolding push_char
push_char_new sep p ps = ground arith

pub split-append :
    (sep : ℕ) (p s : Text) → IsFree sep p → split sep (p ++ sep ∷ s) ≡ p ∷ split sep s
unfolding split
split-append sep [] s k = let (q, (qs, e)) = split-nonempty sep s in rw e (push_char_new sep q qs)
split-append sep (c ∷ p) s (e, k) =
    ap (push_char sep c) (split-append sep p s k) ∙ push_char_same sep c p (split sep s) e
