-- ===== src/Router/Loads/Track.antt =====
-- Which counters `SetBackends` keeps, makes and drops.
use mathlib.Core.Path.{subst}
use infer_flow.Prelude.{
  ℕ, nat_eq, ◌≤◌, ◌<◌, ◌≡◌, refl, sym, ◌∙◌, ◌⊎◌, inl, inr, Bool, true, false, ◌||◌, List, [], ◌∷◌,
  none, some, arith, ◌==◌, ==_iff, if◌then◌else◌, Option-cases, Bool-cases,
}
use infer_flow.Assoc.{lookup, insert, lookup-insert}
use infer_flow.Router.Heap.{Heap, new_counter}
use infer_flow.Router.Loads.{track}

abbrev pub contains : ℕ → List ℕ → Bool
contains b [] = false
contains b (x ∷ xs) = x == b || contains b xs

-- Two backends never share a counter, and every counter is allocated.
pub record IsSound (h : Heap) (loads : List (ℕ × ℕ)) : Type 0 where
  pub below : (b c : ℕ) → lookup b loads ≡ some c → c < h.fresh
  pub injective : (a b c : ℕ) → lookup a loads ≡ some c → lookup b loads ≡ some c → a ≡ b

-- What no `SetBackends` touches: the backends, and the counters that are there already.
pub record Extends (h h' : Heap) : Type 0 where
  pub backend : h'.backend ≡ h.backend
  pub fresh : h.fresh ≤ h'.fresh
  pub counter : (c : ℕ) → c < h.fresh → h'.counter c ≡ h.counter c

new_counter-Extends : (h : Heap) → Extends h (new_counter h)
unfolding new_counter
new_counter-Extends h = record {
  backend = refl;
  fresh = omega arith;
  counter = λ c lt. ground arith;
}

Extends-trans : {h h' h'' : Heap} → Extends h h' → Extends h' h'' → Extends h h''
Extends-trans {h} {h'} {h''} p q = record {
  backend = q.backend ∙ p.backend;
  fresh = omega (arith, p.fresh, q.fresh);
  counter = λ c lt. q.counter c (omega (arith, p.fresh)) ∙ p.counter c lt;
}

pub track-Extends :
    (h : Heap) (old : List (ℕ × ℕ)) (bs : List ℕ) (updated : List (ℕ × ℕ))
    → Extends h (track h old bs updated).0
unfolding track
track-Extends h old [] updated = record {
  backend = refl;
  fresh = omega arith;
  counter = λ c lt. refl;
}
track-Extends h old (b ∷ bs) updated = elim (Option-cases (lookup b old)) [
  | inl e ↦
      rw (e, track)
        (Extends-trans (new_counter-Extends h)
          (track-Extends (new_counter h) old bs (insert b h.fresh updated)))
  | inr (c, e) ↦ rw (e, track) (track-Extends h old bs (insert b c updated))
]

-- A backend that had a counter keeps it if it is in the new list.
pub track-kept :
    (h : Heap) (old : List (ℕ × ℕ)) (bs : List ℕ) (updated : List (ℕ × ℕ)) (b c : ℕ)
    → lookup b old ≡ some c
    → lookup b (track h old bs updated).1 ≡ (if contains b bs then some c else lookup b updated)
unfolding track
track-kept h old [] updated b c e = refl
track-kept h old (x ∷ bs) updated b c e = elim (Option-cases (lookup x old)) [
  | inl absent ↦
      rw (absent, track)
        (ground (
          arith,
          track-kept (new_counter h) old bs (insert x h.fresh updated) b c e,
          lookup-insert x b h.fresh updated,
          ==_iff x b,
        ))
  | inr (d, found) ↦
      rw (found, track)
        (ground (
          arith,
          track-kept h old bs (insert x d updated) b c e,
          lookup-insert x b d updated,
          ==_iff x b,
        ))
]

-- One that is not in the new list is dropped.
pub track-dropped :
    (h : Heap) (old : List (ℕ × ℕ)) (bs : List ℕ) (updated : List (ℕ × ℕ)) (b : ℕ)
    → contains b bs ≡ false
    → lookup b (track h old bs updated).1 ≡ lookup b updated
unfolding track
track-dropped h old [] updated b e = refl
track-dropped h old (x ∷ bs) updated b e = elim (Option-cases (lookup x old)) [
  | inl absent ↦
      rw (absent, track)
        (ground (
          arith,
          track-dropped (new_counter h) old bs (insert x h.fresh updated) b,
          lookup-insert x b h.fresh updated,
          ==_iff x b,
        ))
  | inr (d, found) ↦
      rw (found, track)
        (ground (
          arith,
          track-dropped h old bs (insert x d updated) b,
          lookup-insert x b d updated,
          ==_iff x b,
        ))
]

-- A counter made since `first` was free, at zero.
abbrev pub IsNew : ℕ → Heap → List (ℕ × ℕ) → ℕ → Type 0
IsNew first h loads b =
    (c : ℕ) × (lookup b loads ≡ some c) × (first ≤ c) × (c < h.fresh) × (h.counter c ≡ 0)

IsNew-insert_self :
    (first : ℕ) (h : Heap) (updated : List (ℕ × ℕ)) (b : ℕ)
    → first ≤ h.fresh
    → IsNew first (new_counter h) (insert b h.fresh updated) b
unfolding new_counter
IsNew-insert_self first h updated b le =
    (h.fresh, ground (arith, lookup-insert b b h.fresh updated), le, omega arith, ground arith)

IsNew-insert :
    (first : ℕ) (h : Heap) (updated : List (ℕ × ℕ)) (x b : ℕ)
    → first ≤ h.fresh
    → IsNew first h updated b
    → IsNew first (new_counter h) (insert x h.fresh updated) b
unfolding new_counter
IsNew-insert first h updated x b le (c, e, lo, hi, z) = elim (Bool-cases (x == b)) [
  | inl same ↦
      (h.fresh, ground (arith, lookup-insert x b h.fresh updated), le, omega arith, ground arith)
  | inr other ↦
      (c, ground (arith, lookup-insert x b h.fresh updated), lo, omega arith, ground arith)
]

-- A backend that had none gets one.
pub track-IsNew :
    (first : ℕ) (h : Heap) (old : List (ℕ × ℕ)) (bs : List ℕ) (updated : List (ℕ × ℕ)) (b : ℕ)
    → first ≤ h.fresh
    → lookup b old ≡ none
    → (contains b bs ≡ true) ⊎ IsNew first h updated b
    → let (h', loads) = track h old bs updated in IsNew first h' loads b
unfolding track
track-IsNew first h old [] updated b le e (inl m) = cc
track-IsNew first h old [] updated b le e (inr n) = n
track-IsNew first h old (x ∷ bs) updated b le e m = elim (Option-cases (lookup x old)) [
  | inl absent ↦
      rw (absent, track)
        (track-IsNew first (new_counter h) old bs (insert x h.fresh updated) b (grown h le) e
          (made m))
  | inr (d, found) ↦
      rw (found, track) (track-IsNew first h old bs (insert x d updated) b le e (moved d found m))
]
  where
    grown : (h : Heap) → first ≤ h.fresh → first ≤ (new_counter h).fresh
    grown h le = omega (arith, (new_counter-Extends h).fresh)

    made :
        (contains b (x ∷ bs) ≡ true) ⊎ IsNew first h updated b
        → (contains b bs ≡ true) ⊎ IsNew first (new_counter h) (insert x h.fresh updated) b
    made (inr n) = inr (IsNew-insert first h updated x b le n)
    made (inl m) = elim (Bool-cases (x == b)) [
      | inl same ↦ inr (
          subst (λ y. IsNew first (new_counter h) (insert y h.fresh updated) b)
            (sym ((==_iff x b).0 same)) (IsNew-insert_self first h updated b le))
      | inr other ↦ inl (ground arith)
    ]

    moved :
        (d : ℕ)
        → lookup x old ≡ some d
        → (contains b (x ∷ bs) ≡ true) ⊎ IsNew first h updated b
        → (contains b bs ≡ true) ⊎ IsNew first h (insert x d updated) b
    moved d found (inl m) = inl (ground arith)
    moved d found (inr (c, at, lo, hi, z)) =
        inr (c, ground (arith, lookup-insert x b d updated), lo, hi, z)

-- `SetBackends` changes a counter only by making it, at zero.
pub track-counter :
    (h : Heap) (old : List (ℕ × ℕ)) (bs : List ℕ) (updated : List (ℕ × ℕ)) (c : ℕ)
    → let h' = (track h old bs updated).0 in
      (h'.counter c ≡ h.counter c) ⊎ ((h'.counter c ≡ 0) × (h.fresh ≤ c))
unfolding track new_counter
track-counter h old [] updated c = inl refl
track-counter h old (x ∷ bs) updated c = elim (Option-cases (lookup x old)) [
  | inr (d, found) ↦ rw (found, track) (track-counter h old bs (insert x d updated) c)
  | inl absent ↦
      rw (absent, track)
        (ground (arith, track-counter (new_counter h) old bs (insert x h.fresh updated) c))
]
