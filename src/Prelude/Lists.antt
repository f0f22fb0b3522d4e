-- ===== src/Prelude/Lists.antt =====
-- Lists measured and indexed by native numbers, predicates over all their elements, rotation.
use Prim.Native.Nat.{ℕ, zero, suc, ◌+◌, ◌-◌, ◌%◌, ◌≤◌, ◌<◌, min}
use mathlib.Core.Path.{◌≡◌, refl, ap, sym, subst}
use mathlib.Core.Logic.{◌⊎◌, inl, inr}
use mathlib.Core.List.{
  List, [], ◌∷◌, ◌++◌, Mem, mem-cons_self, mem-cons_of_mem, Perm, perm_append_comm,
}
use mathlib.Core.Option.{Option, none, some}
use native.Mathlib.Omega.{arith}

module _ {ℓ} {A : Type ℓ} where
  abbrev pub length : List A → ℕ
  length [] = 0
  length (x ∷ xs) = suc (length xs)

  abbrev pub get_elem? : List A → ℕ → Option A
  get_elem? [] i = none
  get_elem? (x ∷ xs) zero = some x
  get_elem? (x ∷ xs) (suc i) = get_elem? xs i

  abbrev pub take : ℕ → List A → List A
  take zero xs = []
  take (suc n) [] = []
  take (suc n) (x ∷ xs) = x ∷ take n xs

  abbrev pub drop : ℕ → List A → List A
  drop zero xs = xs
  drop (suc n) [] = []
  drop (suc n) (x ∷ xs) = drop n xs

  abbrev pub All {κ} : (A → Type κ) → List A → Type κ
  All P [] = Unit
  All P (x ∷ xs) = P x × All P xs

  -- The list read from position `n` on, round to where it began.
  abbrev pub rotate : ℕ → List A → List A
  rotate n xs = drop n xs ++ take n xs

module _ {ℓ} {A : Type ℓ} where
  pub length-append : (xs ys : List A) → length (xs ++ ys) ≡ length xs + length ys
  length-append [] ys = omega arith
  length-append (x ∷ xs) ys = omega (arith, length-append xs ys)

  pub length-drop : (n : ℕ) (xs : List A) → length (drop n xs) ≡ length xs - n
  length-drop zero xs = omega arith
  length-drop (suc n) [] = omega arith
  length-drop (suc n) (x ∷ xs) = omega (arith, length-drop n xs)

  pub length-take : (n : ℕ) (xs : List A) → length (take n xs) ≡ min n (length xs)
  length-take zero xs = omega arith
  length-take (suc n) [] = omega arith
  length-take (suc n) (x ∷ xs) = omega (arith, length-take n xs)

  pub length-rotate : (n : ℕ) (xs : List A) → length (rotate n xs) ≡ length xs
  length-rotate n xs =
      omega (arith, length-append (drop n xs) (take n xs), length-drop n xs, length-take n xs)

  pub rotate_nil : (n : ℕ) (xs : List A) → xs ≡ [] → rotate n xs ≡ []
  rotate_nil zero xs e = rw e
  rotate_nil (suc n) xs e = rw e

  pub nil_of_length : (xs : List A) → length xs ≡ 0 → xs ≡ []
  nil_of_length [] h = refl
  nil_of_length (x ∷ xs) h = absurd (omega arith)

  get_elem?-append_left :
      (xs ys : List A) (i : ℕ) → i < length xs → get_elem? (xs ++ ys) i ≡ get_elem? xs i
  get_elem?-append_left [] ys i h = absurd (omega arith)
  get_elem?-append_left (x ∷ xs) ys zero h = refl
  get_elem?-append_left (x ∷ xs) ys (suc i) h = get_elem?-append_left xs ys i (omega arith)

  get_elem?-append_right :
      (xs ys : List A) (i : ℕ) → get_elem? (xs ++ ys) (length xs + i) ≡ get_elem? ys i
  get_elem?-append_right [] ys i = ap (get_elem? ys) (omega arith)
  get_elem?-append_right (x ∷ xs) ys i =
      subst (λ j. get_elem? (x ∷ (xs ++ ys)) j ≡ get_elem? ys i)
        (let e : suc (length xs + i) ≡ suc (length xs) + i = omega arith in e)
        (get_elem?-append_right xs ys i)

  get_elem?-drop : (n : ℕ) (xs : List A) (i : ℕ) → get_elem? (drop n xs) i ≡ get_elem? xs (n + i)
  get_elem?-drop zero xs i = ap (get_elem? xs) (omega arith)
  get_elem?-drop (suc n) [] i = refl
  get_elem?-drop (suc n) (x ∷ xs) i =
      subst (λ j. get_elem? (drop n xs) i ≡ get_elem? (x ∷ xs) j)
        (let e : suc (n + i) ≡ suc n + i = omega arith in e) (get_elem?-drop n xs i)

  get_elem?-take : (n : ℕ) (xs : List A) (i : ℕ) → i < n → get_elem? (take n xs) i ≡ get_elem? xs i
  get_elem?-take zero xs i h = absurd (omega arith)
  get_elem?-take (suc n) [] i h = refl
  get_elem?-take (suc n) (x ∷ xs) zero h = refl
  get_elem?-take (suc n) (x ∷ xs) (suc i) h = get_elem?-take n xs i (omega arith)

  -- Position `i` of the rotated list is position `(n + i) % length` of the list.
  pub get_elem?-rotate :
      (n : ℕ) (xs : List A) (i : ℕ)
      → n < length xs
      → i < length xs
      → get_elem? (rotate n xs) i ≡ get_elem? xs ((n + i) % length xs)
  get_elem?-rotate n xs i hn hi = elim (split (n + i) (length xs)) [
    | inl h ↦
        rw (get_elem?-append_left (drop n xs) (take n xs) i (omega (arith, length-drop n xs)))
          (rw (get_elem?-drop n xs i) (ap (get_elem? xs) (grind arith)))
    | inr h ↦
        let k = n + i - length xs in
        let e : i ≡ length (drop n xs) + k = omega (arith, length-drop n xs) in
        subst (λ j. get_elem? (rotate n xs) j ≡ get_elem? xs ((n + i) % length xs)) (sym e)
          (rw (get_elem?-append_right (drop n xs) (take n xs) k)
            (rw (get_elem?-take n xs k (omega arith)) (ap (get_elem? xs) (grind arith))))
  ]
    where
      split : (a b : ℕ) → (a < b) ⊎ (b ≤ a)
      split a b = omega arith

  pub drop_step :
      (xs : List A) (i : ℕ) {x : A} → get_elem? xs i ≡ some x → drop i xs ≡ x ∷ drop (suc i) xs
  drop_step [] i h = cc
  drop_step (y ∷ xs) zero h = ground arith
  drop_step (y ∷ xs) (suc i) h = drop_step xs i h

  pub drop_all : (n : ℕ) (xs : List A) → length xs ≤ n → drop n xs ≡ []
  drop_all zero [] h = refl
  drop_all (suc n) [] h = refl
  drop_all zero (x ∷ xs) h = absurd (omega arith)
  drop_all (suc n) (x ∷ xs) h = drop_all n xs (omega arith)

  pub get_elem?_total : (xs : List A) (i : ℕ) → i < length xs → (x : A) × (get_elem? xs i ≡ some x)
  get_elem?_total [] i h = absurd (omega arith)
  get_elem?_total (x ∷ xs) zero h = (x, refl)
  get_elem?_total (x ∷ xs) (suc i) h = get_elem?_total xs i (omega arith)

  pub mem_of_get_elem? : (xs : List A) (i : ℕ) {x : A} → get_elem? xs i ≡ some x → Mem x xs
  mem_of_get_elem? [] i h = cc
  mem_of_get_elem? (y ∷ xs) zero {x} h =
      let e : y ≡ x = ground arith in subst (λ z. Mem z (y ∷ xs)) e mem-cons_self
  mem_of_get_elem? (y ∷ xs) (suc i) h = mem-cons_of_mem y (mem_of_get_elem? xs i h)

  pub take-append-drop : (n : ℕ) (xs : List A) → take n xs ++ drop n xs ≡ xs
  take-append-drop zero xs = refl
  take-append-drop (suc n) [] = refl
  take-append-drop (suc n) (x ∷ xs) = rw (take-append-drop n xs)

  pub rotate-perm : (n : ℕ) (xs : List A) → Perm (rotate n xs) xs
  rotate-perm n xs =
      subst (Perm (rotate n xs)) (take-append-drop n xs) (perm_append_comm (drop n xs) (take n xs))

module _ {ℓ κ} {A : Type ℓ} (P : A → Type κ) where
  pub All-append : (xs ys : List A) → All P xs → All P ys → All P (xs ++ ys)
  All-append [] ys hx hy = hy
  All-append (x ∷ xs) ys (px, hx) hy = (px, All-append xs ys hx hy)

  All-split : (n : ℕ) (xs : List A) → All P xs → All P (drop n xs) × All P (take n xs)
  All-split zero xs h = (h, tt)
  All-split (suc n) [] h = (tt, tt)
  All-split (suc n) (x ∷ xs) (px, h) = let (a, b) = All-split n xs h in (a, (px, b))

  pub All-rotate : (n : ℕ) (xs : List A) → All P xs → All P (rotate n xs)
  All-rotate n xs h = let (a, b) = All-split n xs h in All-append (drop n xs) (take n xs) a b

  pub All-append_inv : (xs ys : List A) → All P (xs ++ ys) → All P xs × All P ys
  All-append_inv [] ys h = (tt, h)
  All-append_inv (x ∷ xs) ys (px, h) = let (a, b) = All-append_inv xs ys h in ((px, a), b)

  All-split_inv : (n : ℕ) (xs : List A) → All P (drop n xs) → All P (take n xs) → All P xs
  All-split_inv zero xs h k = h
  All-split_inv (suc n) [] h k = tt
  All-split_inv (suc n) (x ∷ xs) h (px, k) = (px, All-split_inv n xs h k)

  pub All-rotate_inv : (n : ℕ) (xs : List A) → All P (rotate n xs) → All P xs
  All-rotate_inv n xs h =
      let (a, b) = All-append_inv (drop n xs) (take n xs) h in All-split_inv n xs a b

  -- A predicate of all elements holds of one in the middle, and of the others.
  pub All-middle : (xs ys : List A) {x : A} → All P (xs ++ x ∷ ys) → P x × All P (xs ++ ys)
  All-middle [] ys h = h
  All-middle (y ∷ xs) ys (py, h) = let (px, rest) = All-middle xs ys h in (px, (py, rest))

  pub All-get_elem? : (xs : List A) (i : ℕ) {x : A} → All P xs → get_elem? xs i ≡ some x → P x
  All-get_elem? [] i h e = cc
  All-get_elem? (y ∷ xs) zero {x} (py, h) e = let same : y ≡ x = ground arith in subst P same py
  All-get_elem? (y ∷ xs) (suc i) (py, h) e = All-get_elem? xs i h e

pub All-weaken {ℓ κ κ'} :
    {A : Type ℓ} (P : A → Type κ) (Q : A → Type κ') (xs : List A)
    → ((a : A) → P a → Q a)
    → All P xs
    → All Q xs
All-weaken P Q [] f h = tt
All-weaken P Q (x ∷ xs) f (px, h) = (f x px, All-weaken P Q xs f h)
