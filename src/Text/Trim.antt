-- ===== src/Text/Trim.antt =====
-- Laws of trimming.
use infer_flow.Prelude.{
  ℕ, ◌≡◌, refl, ap, ◌∙◌, Bool, true, false, ◌&&◌, [], ◌∷◌, ◌++◌, All, arith, inl, inr, Bool-cases,
}
use infer_flow.Text.{Text, is_empty, is_space, trim_left, trim_right, trim_space}

pub nil_of_empty : (s : Text) → is_empty s ≡ true → s ≡ []
nil_of_empty [] e = refl
nil_of_empty (c ∷ s) e = cc

module _ (cut : ℕ → Bool) where
  -- Text without a character of the cut set at its start.
  abbrev pub Starts : Text → Type 0
  Starts [] = Unit
  Starts (c ∷ s) = cut c ≡ false

  trim_left-Starts : (s : Text) → Starts (trim_left cut s)
  unfolding trim_left
  trim_left-Starts [] = tt
  trim_left-Starts (c ∷ s) = elim (Bool-cases (cut c)) [
    | inl e ↦ rw (e, trim_left) (trim_left-Starts s)
    | inr e ↦ rw (e, trim_left) e
  ]

  trim_left_of-Starts : (s : Text) → Starts s → trim_left cut s ≡ s
  unfolding trim_left
  trim_left_of-Starts [] h = refl
  trim_left_of-Starts (c ∷ s) h = rw (h, trim_left)

  trim_right-Starts : (s : Text) → Starts s → Starts (trim_right cut s)
  unfolding trim_right
  trim_right-Starts [] h = tt
  trim_right-Starts (c ∷ s) h = ground arith

  pub trim_right_idem : (s : Text) → trim_right cut (trim_right cut s) ≡ trim_right cut s
  unfolding trim_right
  trim_right_idem [] = refl
  trim_right_idem (c ∷ s) = ground (arith, trim_right_idem s)

  pub trim_right_blank : (s : Text) → All (λ c. cut c ≡ true) s → trim_right cut s ≡ []
  unfolding trim_right
  trim_right_blank [] h = refl
  trim_right_blank (c ∷ s) h = ground (arith, trim_right_blank s h.1)

  trim_left_blank : (s : Text) → All (λ c. cut c ≡ true) s → trim_left cut s ≡ []
  unfolding trim_left
  trim_left_blank [] h = refl
  trim_left_blank (c ∷ s) h = rw (h.0, trim_left) (trim_left_blank s h.1)

  trim_right-nil : (s : Text) → trim_right cut s ≡ [] → All (λ c. cut c ≡ true) s
  unfolding trim_right
  trim_right-nil [] e = tt
  trim_right-nil (c ∷ s) e = elim (Bool-cases (is_empty (trim_right cut s) && cut c)) [
    | inl h ↦ (ground arith, trim_right-nil s (nil_of_empty (trim_right cut s) (ground arith)))
    | inr h ↦ absurd (ground arith)
  ]

  trim_left-All : (s : Text) → All (λ c. cut c ≡ true) (trim_left cut s) → All (λ c. cut c ≡ true) s
  unfolding trim_left
  trim_left-All [] h = tt
  trim_left-All (c ∷ s) h = elim (Bool-cases (cut c)) [
    | inl e ↦ (e, trim_left-All s (rw (e, trim_left) at h))
    | inr e ↦ absurd (cc (e, (rw (e, trim_left) at h).0))
  ]

-- Only blank text is trimmed to nothing.
pub trim_space-nil : (s : Text) → trim_space s ≡ [] → All (λ c. is_space c ≡ true) s
unfolding trim_space
trim_space-nil s e = trim_left-All is_space s (trim_right-nil is_space (trim_left is_space s) e)

-- Trimming twice is trimming once.
pub trim_space_idem : (s : Text) → trim_space (trim_space s) ≡ trim_space s
unfolding trim_space
trim_space_idem s =
    rw (trim_left_of-Starts is_space _ (trim_right-Starts is_space _ (trim_left-Starts is_space s)))
      (trim_right_idem is_space (trim_left is_space s))

pub trim_space_blank : (s : Text) → All (λ c. is_space c ≡ true) s → trim_space s ≡ []
unfolding trim_space
trim_space_blank s h = rw (trim_left_blank is_space s h) refl

-- Text whose last character is not in the cut set.
abbrev pub Stops : (ℕ → Bool) → Text → Type 0
Stops cut [] = Unit {0}
Stops cut (c ∷ []) = cut c ≡ false
Stops cut (c ∷ d ∷ s) = Stops cut (d ∷ s)

module _ (cut : ℕ → Bool) where
  trim_left-append :
      (l s : Text) → All (λ c. cut c ≡ true) l → trim_left cut (l ++ s) ≡ trim_left cut s
  unfolding trim_left
  trim_left-append [] s k = refl
  trim_left-append (c ∷ l) s (e, k) = rw (e, trim_left) (trim_left-append l s k)

  trim_right-append :
      (s r : Text) → Stops cut s → All (λ c. cut c ≡ true) r → trim_right cut (s ++ r) ≡ s
  unfolding trim_right
  trim_right-append [] r h k = trim_right_blank cut r k
  trim_right-append (c ∷ []) r h k = rw (trim_right_blank cut r k, h) refl
  trim_right-append (c ∷ d ∷ s) r h k = rw (trim_right-append (d ∷ s) r h k) refl

-- Trimming takes the blanks away from both ends, and nothing else.
pub trim_space-append :
    (l s r : Text)
    → All (λ c. is_space c ≡ true) l
    → Starts is_space s
    → Stops is_space s
    → All (λ c. is_space c ≡ true) r
    → trim_space (l ++ (s ++ r)) ≡ s
unfolding trim_space trim_left
trim_space-append l [] r kl starts stops kr =
    ap (trim_right is_space) (trim_left-append is_space l r kl ∙ trim_left_blank is_space r kr)
    ∙ trim_right_blank is_space [] tt
trim_space-append l (c ∷ s) r kl starts stops kr =
    ap (trim_right is_space) (
      trim_left-append is_space l (c ∷ (s ++ r)) kl
      ∙ trim_left_of-Starts is_space (c ∷ (s ++ r)) starts)
    ∙ trim_right-append is_space (c ∷ s) r stops kr
