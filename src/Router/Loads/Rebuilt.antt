-- ===== src/Router/Loads/Rebuilt.antt =====
-- What becomes of the counters of a list of backends when `SetBackends` replaces it.
use infer_flow.Prelude.{
  ℕ, nat_eq, ◌≤◌, ◌<◌, ◌≡◌, refl, ◌∙◌, ◌⊎◌, inl, inr, Bool, true, false, List, [], ◌∷◌, Option,
  none, some, arith, Option-cases,
}
use infer_flow.Assoc.{lookup, insert, lookup-insert}
use infer_flow.Router.Heap.{Heap, new_counter}
use infer_flow.Router.Loads.{Loads, track, set_backends}
use infer_flow.Router.Loads.Track.{
  IsSound, Extends, IsNew, contains, track-kept, track-dropped, track-IsNew, track-Extends,
}

record IsUpdate (first : ℕ) (old : List (ℕ × ℕ)) (h : Heap) (updated : List (ℕ × ℕ)) : Type 0 where
  grows : first ≤ h.fresh
  sound : IsSound h updated
  origin : (b c : ℕ) → lookup b updated ≡ some c → (lookup b old ≡ some c) ⊎ (first ≤ c)

module _ (first : ℕ) (old : List (ℕ × ℕ)) (below : (b c : ℕ) → lookup b old ≡ some c → c < first)
    (injective : (a b c : ℕ) → lookup a old ≡ some c → lookup b old ≡ some c → a ≡ b) where
  IsUpdate-new :
      (h : Heap) (updated : List (ℕ × ℕ)) (x : ℕ)
      → IsUpdate first old h updated
      → IsUpdate first old (new_counter h) (insert x h.fresh updated)
  unfolding new_counter
  IsUpdate-new h updated x u = record {
    grows = omega (arith, u.grows);
    sound = record {
      below = λ b c e. ground (arith, lookup-insert x b h.fresh updated, u.sound.below b c);
      injective = λ a b c e e'. ground (
        arith,
        lookup-insert x a h.fresh updated,
        lookup-insert x b h.fresh updated,
        u.sound.below a c,
        u.sound.below b c,
        u.sound.injective a b c,
      );
    };
    origin = λ b c e. ground (arith, lookup-insert x b h.fresh updated, u.origin b c, u.grows);
  }

  IsUpdate-kept :
      (h : Heap) (updated : List (ℕ × ℕ)) (x d : ℕ)
      → lookup x old ≡ some d
      → IsUpdate first old h updated
      → IsUpdate first old h (insert x d updated)
  IsUpdate-kept h updated x d found u = record {
    grows = u.grows;
    sound = record {
      below = λ b c e.
          ground (arith, lookup-insert x b d updated, u.sound.below b c, below x d, u.grows);
      injective = λ a b c e e'. ground (
        arith,
        lookup-insert x a d updated,
        lookup-insert x b d updated,
        below x d,
        u.origin a c,
        u.origin b c,
        injective a x c,
        injective x b c,
        u.sound.injective a b c,
      );
    };
    origin = λ b c e. ground (arith, lookup-insert x b d updated, u.origin b c);
  }

  track-IsUpdate :
      (h : Heap) (bs : List ℕ) (updated : List (ℕ × ℕ))
      → IsUpdate first old h updated
      → let (h', loads) = track h old bs updated in IsUpdate first old h' loads
  unfolding track
  track-IsUpdate h [] updated u = u
  track-IsUpdate h (x ∷ bs) updated u = elim (Option-cases (lookup x old)) [
    | inl absent ↦
        rw (absent, track)
          (track-IsUpdate (new_counter h) bs (insert x h.fresh updated)
            (IsUpdate-new h updated x u))
    | inr (d, found) ↦
        rw (found, track)
          (track-IsUpdate h bs (insert x d updated) (IsUpdate-kept h updated x d found u))
  ]

-- The counter of a backend, given whether it is in the new list and what counter it had.
abbrev pub Fate : ℕ → Heap → List (ℕ × ℕ) → ℕ → Bool → Option ℕ → Type 0
Fate first h loads b true (some c) = lookup b loads ≡ some c
Fate first h loads b true none = IsNew first h loads b
Fate first h loads b false old = lookup b loads ≡ none

-- What a caller of `SetBackends` can rely on.
pub record Rebuilt (bs : List ℕ) (h : Heap) (s : Loads) (h' : Heap) (s' : Loads) : Type 0 where
  pub backends : s'.backends ≡ bs
  pub next : s'.next ≡ s.next
  pub fates : (b : ℕ) → Fate h.fresh h' s'.loads b (contains b bs) (lookup b s.loads)
  pub extends : Extends h h'
  pub sound : IsSound h' s'.loads

-- Where no two backends share a counter and every counter is allocated: `SetBackends` keeps the counter of a backend that stays, gives a new one at zero to a backend that
-- comes, and drops that of one that goes; no other counter changes, and no two backends share one.
pub set_backends-Rebuilt :
    (bs : List ℕ) (h : Heap) (s : Loads)
    → IsSound h s.loads
    → let (h', s') = set_backends bs h s in Rebuilt bs h s h' s'
unfolding set_backends lookup
set_backends-Rebuilt bs h s sound = record {
  backends = refl;
  next = refl;
  fates = λ b. fate b (contains b bs) (lookup b s.loads) refl refl;
  extends = track-Extends h s.loads bs [];
  sound = (track-IsUpdate h.fresh s.loads sound.below sound.injective h bs [] start).sound;
}
  where
    lookup-nil : (b : ℕ) → lookup {V = ℕ} b [] ≡ none
    lookup-nil b = refl

    fate :
        (b : ℕ) (m : Bool) (o : Option ℕ)
        → contains b bs ≡ m
        → lookup b s.loads ≡ o
        → let (h', loads) = track h s.loads bs [] in Fate h.fresh h' loads b m o
    fate b true (some c) m e = ground (arith, track-kept h s.loads bs [] b c e)
    fate b true none m e = track-IsNew h.fresh h s.loads bs [] b (omega arith) e (inl m)
    fate b false o m e = track-dropped h s.loads bs [] b m ∙ lookup-nil b

    start : IsUpdate h.fresh s.loads h []
    start = record {
      grows = omega arith;
      sound = record { below = λ b c e. cc; injective = λ a b c e e'. cc };
      origin = λ b c e. cc;
    }
