-- ===== src/Text.antt =====
-- Go strings as the source uses them, by the standard library's `strings`, `unicode` and
-- `unicode/utf8`. A text is the list of its Unicode code points (valid UTF-8, as the JSON decoder
-- and the configuration give it).
pub mod Trim
pub mod Split
pub mod Decimal
use Prim.Native.Char.{code}
use Prim.Native.String
use infer_flow.Prelude.{
  ℕ, ◌+◌, ◌≡◌, refl, ◌↔◌, Bool, true, false, ◌&&◌, ◌||◌, List, [], ◌∷◌, ◌++◌, map, String, Eq, ◌==◌,
  leb, ltb, if◌then◌else◌, arith,
}

abbrev pub Text : Type 0
Text = List ℕ

abbrev pub codes : String → Text
codes String.[] = []
codes (String.◌∷◌ c s) = code c ∷ codes s

-- `a == b` on strings.
abbrev pub text_beq : Text → Text → Bool
text_beq [] [] = true
text_beq [] (d ∷ t) = false
text_beq (c ∷ s) [] = false
text_beq (c ∷ s) (d ∷ t) = c == d && text_beq s t

text_beq_sound : (s t : Text) → text_beq s t ≡ true → s ≡ t
text_beq_sound [] [] h = refl
text_beq_sound [] (d ∷ t) h = cc
text_beq_sound (c ∷ s) [] h = cc
text_beq_sound (c ∷ s) (d ∷ t) h = ground (arith, text_beq_sound s t)

pub text_beq_refl : (s : Text) → text_beq s s ≡ true
text_beq_refl [] = refl
text_beq_refl (c ∷ s) = ground (arith, text_beq_refl s)

pub text_beq_iff : (s t : Text) → (text_beq s t ≡ true) ↔ (s ≡ t)
text_beq_iff s t = (text_beq_sound s t, λ e. rw e (text_beq_refl t))

instance abbrev pub text_eq : Eq Text
text_eq = record { beq = text_beq; beq_iff = text_beq_iff }

-- `s == ""`.
abbrev pub is_empty : Text → Bool
is_empty [] = true
is_empty (c ∷ s) = false

-- `unicode.IsSpace`: the ASCII blanks, U+0085, U+00A0 and the property White_Space.
unfoldable pub is_space : ℕ → Bool
is_space c =
    (leb 9 c && leb c 13)
    || c == 32
    || c == 0x85
    || c == 0xa0
    || c == 0x1680
    || (leb 0x2000 c && leb c 0x200a)
    || c == 0x2028
    || c == 0x2029
    || c == 0x202f
    || c == 0x205f
    || c == 0x3000

module _ (cut : ℕ → Bool) where
  -- `strings.TrimLeftFunc` and `strings.TrimRightFunc`.
  unfoldable pub trim_left : Text → Text
  trim_left [] = []
  trim_left (c ∷ s) = elim (cut c) [ true ↦ trim_left s | false ↦ c ∷ s ]

  unfoldable pub trim_right : Text → Text
  trim_right [] = []
  trim_right (c ∷ s) = let rest = trim_right s in if is_empty rest && cut c then [] else c ∷ rest

-- `strings.TrimSpace`.
unfoldable pub trim_space : Text → Text
unfolding trim_left trim_right is_space
trim_space s = trim_right is_space (trim_left is_space s)

-- `strings.TrimRight(s, "/")`.
unfoldable pub trim_right_slash : Text → Text
unfolding trim_right
trim_right_slash = trim_right (λ c. c == b'/')

-- `len(s)`: the bytes of the UTF-8 encoding.
rune_len : ℕ → ℕ
rune_len c = if ltb c 0x80 then 1 else if ltb c 0x800 then 2 else if ltb c 0x10000 then 3 else 4

unfoldable pub byte_len : Text → ℕ
unfolding rune_len
byte_len [] = 0
byte_len (c ∷ s) = rune_len c + byte_len s

-- `strings.ReplaceAll` of one character by another.
unfoldable pub replace_char : ℕ → ℕ → Text → Text
replace_char old new = map (λ c. if c == old then new else c)

-- `strings.ToLower`. `lower` is Unicode's table for the characters that are not ASCII.
unfoldable pub to_lower : (ℕ → ℕ) → Text → Text
to_lower lower =
    map (λ c. if leb b'A' c && leb c b'Z' then c + 32 else if ltb c 128 then c else lower c)

push_char : ℕ → ℕ → List Text → List Text
push_char sep c [] = [] ∷ []
push_char sep c (p ∷ ps) = if c == sep then [] ∷ p ∷ ps else (c ∷ p) ∷ ps

-- `strings.Split(s, sep)` at a separator of one character.
unfoldable pub split : ℕ → Text → List Text
unfolding push_char
split sep [] = [] ∷ []
split sep (c ∷ s) = push_char sep c (split sep s)

-- `strings.Join(parts, sep)`.
unfoldable pub join : List Text → Text → Text
join [] sep = []
join (p ∷ []) sep = p
join (p ∷ q ∷ ps) sep = p ++ (sep ++ join (q ∷ ps) sep)
