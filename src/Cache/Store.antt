-- ===== src/Cache/Store.antt =====
-- internal/cache/store.go: the interface of a store, and what its users rely on. `now` is the clock
-- at the call, in nanoseconds; a time to live is an `int64` of nanoseconds.
use infer_flow.Prelude.{ℕ, ◌+◌, ◌*◌, ◌<◌, ◌≡◌, ◌≢◌, Bool, true, [], ◌||◌, ◌==◌, if◌then◌else◌}
use infer_flow.Text.{Text, trim_space}
use infer_flow.Int64.{is_neg}

-- The results of `PreferredBackend`: `(name, true, nil)`, `("", false, nil)` and `("", false, err)`.
pub data Preference : Type 0 where
  found : Text → Preference
  absent : Preference
  failed : Preference

-- `remember_backend` answers whether it succeeded.
pub record Store (S : Type 0) : Type 0 where
  pub preferred_backend : ℕ → Text → S → S × Preference
  pub remember_backend : ℕ → Text → Text → ℕ → S → S × Bool

abbrev pub ten_minutes : ℕ
ten_minutes = 10 * 60 * 1000000000

-- `if ttl <= 0 { ttl = 10 * time.Minute }`.
unfoldable pub lifetime : ℕ → ℕ
lifetime ttl = if ttl == 0 || is_neg ttl then ten_minutes else ttl

-- The contract of a store that keeps a name for the time `lasts`, given the time to live that it was
-- told: a name that was stored is found until its time is over, and no name is found under a blank key.
pub record StoreLaws {S : Type 0} (lasts : ℕ → ℕ) (store : Store S) : Type 0 where
  pub remembers :
      (now later ttl : ℕ) (key backend : Text) (s : S)
      → trim_space key ≢ []
      → trim_space backend ≢ []
      → (store.remember_backend now key backend ttl s).1 ≡ true
      → later < now + lasts ttl
      → (store.preferred_backend later key (store.remember_backend now key backend ttl s).0).1
        ≡ found (trim_space backend)
  pub blank :
      (now : ℕ) (key : Text) (s : S)
      → trim_space key ≡ []
      → store.preferred_backend now key s ≡ (s, absent)
