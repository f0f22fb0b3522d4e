-- ===== src/Triton/Extraction.antt =====
-- Which text `extractGeneratedText` returns.
use infer_flow.Prelude.{
  ◌≡◌, ◌≢◌, ◌↔◌, ◌⊎◌, refl, inl, inr, true, false, List, [], ◌∷◌, Option, none, some, arith,
  Bool-cases,
}
use infer_flow.Text.{Text, codes, text_beq, text_beq_iff, is_empty, trim_space}
use infer_flow.Triton.{
  Json, null, boolean, number, text, array, object, field_at, OutputTensor, generated_text,
  nested_text, first_value, extract_generated_text,
}

module _ {F : Type 0} where
  -- A first value gives the text `t`: it is that text, with something in it, or an object with it in
  -- the field `b64`.
  abbrev pub Gives : List (Json F) → Text → Type 0
  Gives [] t = ⊥
  Gives (text s ∷ vs) t = (s ≡ t) × (is_empty (trim_space s) ≡ false)
  Gives (object fs ∷ vs) t = (field_at (codes "b64") fs ≡ some (text t)) × (is_empty t ≡ false)
  Gives (v ∷ vs) t = ⊥

  -- Values that decide nothing: no text comes first, nor an object with a text in `b64`.
  abbrev pub Passes : List (Json F) → Type 0
  Passes [] = Unit {0}
  Passes (text s ∷ vs) = ⊥
  Passes (object fs ∷ vs) =
      (t : Text) → field_at (codes "b64") fs ≡ some (text t) → is_empty t ≡ true
  Passes (v ∷ vs) = Unit {0}

  -- `t` is given by the first output of the name that decides anything.
  pub data Extracts : List (OutputTensor F) → Text → Type 0 where
    gives :
        {o : OutputTensor F} {os : List (OutputTensor F)} {t : Text}
        → o.name ≡ generated_text
        → Gives o.values t
        → Extracts (o ∷ os) t
    skips :
        {o : OutputTensor F} {os : List (OutputTensor F)} {t : Text}
        → (o.name ≢ generated_text) ⊎ Passes o.values
        → Extracts os t
        → Extracts (o ∷ os) t

  nested_sound :
      (rest : Option Text) (v : Option (Json F)) (t : Text)
      → nested_text rest v ≡ some t
      → ((v ≡ some (text t)) × (is_empty t ≡ false))
        ⊎ (((s : Text) → v ≡ some (text s) → is_empty s ≡ true) × (rest ≡ some t))
  nested_sound rest none t e = inr ((λ s e. cc), e)
  nested_sound rest (some (text s)) t e = elim (Bool-cases (is_empty s)) [
    | inl empty ↦ inr ((λ s' same. ground arith), ground arith)
    | inr filled ↦ inl (ground arith, ground arith)
  ]
  nested_sound rest (some null) t e = inr ((λ s e. cc), e)
  nested_sound rest (some (boolean b)) t e = inr ((λ s e. cc), e)
  nested_sound rest (some (number n)) t e = inr ((λ s e. cc), e)
  nested_sound rest (some (array a)) t e = inr ((λ s e. cc), e)
  nested_sound rest (some (object a)) t e = inr ((λ s e. cc), e)

  first_sound :
      (rest : Option Text) (vs : List (Json F)) (t : Text)
      → first_value rest vs ≡ some t
      → Gives vs t ⊎ (Passes vs × (rest ≡ some t))
  first_sound rest [] t e = inr (tt, e)
  first_sound rest (text s ∷ vs) t e = elim (Bool-cases (is_empty (trim_space s))) [
    | inl blank ↦ absurd (ground arith)
    | inr filled ↦ inl (ground arith, filled)
  ]
  first_sound rest (object fs ∷ vs) t e = nested_sound rest (field_at (codes "b64") fs) t e
  first_sound rest (null ∷ vs) t e = inr (tt, e)
  first_sound rest (boolean b ∷ vs) t e = inr (tt, e)
  first_sound rest (number n ∷ vs) t e = inr (tt, e)
  first_sound rest (array a ∷ vs) t e = inr (tt, e)

  first-Gives :
      (rest : Option Text) (vs : List (Json F)) (t : Text)
      → Gives vs t
      → first_value rest vs ≡ some t
  first-Gives rest [] t g = absurd g
  first-Gives rest (text s ∷ vs) t (e, ne) = rw (ne, e) refl
  first-Gives rest (object fs ∷ vs) t (e, ne) = rw (e, ne) refl
  first-Gives rest (null ∷ vs) t g = absurd g
  first-Gives rest (boolean b ∷ vs) t g = absurd g
  first-Gives rest (number n ∷ vs) t g = absurd g
  first-Gives rest (array a ∷ vs) t g = absurd g

  first-Passes : (rest : Option Text) (vs : List (Json F)) → Passes vs → first_value rest vs ≡ rest
  first-Passes rest [] p = refl
  first-Passes rest (text s ∷ vs) p = absurd p
  first-Passes rest (object fs ∷ vs) p = go (field_at (codes "b64") fs) p
    where
      go :
          (v : Option (Json F))
          → ((t : Text) → v ≡ some (text t) → is_empty t ≡ true)
          → nested_text rest v ≡ rest
      go none q = refl
      go (some (text s)) q = rw (q s refl) refl
      go (some null) q = refl
      go (some (boolean b)) q = refl
      go (some (number n)) q = refl
      go (some (array a)) q = refl
      go (some (object a)) q = refl
  first-Passes rest (null ∷ vs) p = refl
  first-Passes rest (boolean b ∷ vs) p = refl
  first-Passes rest (number n ∷ vs) p = refl
  first-Passes rest (array a ∷ vs) p = refl

  step_sound :
      (o : OutputTensor F) (os : List (OutputTensor F)) (t : Text)
      → o.name ≡ generated_text
      → Gives o.values t ⊎ (Passes o.values × (extract_generated_text os ≡ some t))
      → (extract_generated_text os ≡ some t → Extracts os t)
      → Extracts (o ∷ os) t
  step_sound o os t named (inl g) later = gives named g
  step_sound o os t named (inr (p, e)) later = skips (inr p) (later e)

  extract_sound :
      (os : List (OutputTensor F)) (t : Text) → extract_generated_text os ≡ some t → Extracts os t
  unfolding extract_generated_text
  extract_sound [] t e = cc
  extract_sound (o ∷ os) t e = elim (Bool-cases (text_beq o.name generated_text)) [
    | inl same ↦
        step_sound o os t ((text_beq_iff o.name generated_text).0 same)
          (first_sound (extract_generated_text os) o.values t (ground arith)) (extract_sound os t)
    | inr other ↦
        skips (inl (λ named. absurd (ground (arith, text_beq_iff o.name generated_text))))
          (extract_sound os t (ground arith))
  ]

  extract_complete :
      {os : List (OutputTensor F)} {t : Text} → Extracts os t → extract_generated_text os ≡ some t
  unfolding extract_generated_text
  extract_complete {t} (gives {o} {os} named g) =
      rw
        (
          (text_beq_iff o.name generated_text).1 named,
          first-Gives (extract_generated_text os) o.values t g,
        )
        refl
  extract_complete (skips {o} {os} (inl other) x) =
      ground (arith, text_beq_iff o.name generated_text, extract_complete x, other)
  extract_complete (skips {o} {os} (inr passes) x) =
      ground (arith, first-Passes (extract_generated_text os) o.values passes, extract_complete x)

  -- `extractGeneratedText` returns a text exactly if an output named `generated_text` gives it, behind
  -- outputs that have another name or decide nothing; otherwise it returns an error.
  pub extract_generated_text_iff :
      (os : List (OutputTensor F)) (t : Text) → (extract_generated_text os ≡ some t) ↔ Extracts os t
  extract_generated_text_iff os t = (extract_sound os t, extract_complete)
