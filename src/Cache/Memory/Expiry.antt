-- ===== src/Cache/Memory/Expiry.antt =====
-- The two critical sections of `PreferredBackend`, with a `RememberBackend` before, or between them.
use infer_flow.Prelude.{
  ℕ, ◌+◌, ◌≤◌, ◌≡◌, ◌≢◌, refl, ◌∙◌, inl, inr, Bool-cases, none, false, [], arith, ltb,
}
use infer_flow.Text.{Text, text_eq, text_beq_refl, is_empty, trim_space}
use infer_flow.Assoc.{lookup, lookup-delete}
use infer_flow.Cache.Store.{found, absent, lifetime}
use infer_flow.Cache.Memory.{
  MemoryStore, read_entry, evict, preferred_backend, remember_backend,
  preferred_backend-remember_backend,
}

abbrev pub restored : ℕ → ℕ → Text → Text → ℕ → MemoryStore → MemoryStore
restored now later key backend ttl s =
    (remember_backend later key backend ttl (preferred_backend now key s).0).0

-- `PreferredBackend` has read the old entry, `RememberBackend` stores the new one, and the deletion of
-- `PreferredBackend` comes last.
abbrev pub overtaken : ℕ → Text → Text → ℕ → MemoryStore → MemoryStore
overtaken later key backend ttl s =
    evict (trim_space key) (remember_backend later key backend ttl s).0

module _ (now stored asked ttl : ℕ) (key backend : Text) (s : MemoryStore) where
  gone : (m : MemoryStore) → lookup (trim_space key) (evict (trim_space key) m).entries ≡ none
  unfolding evict
  gone m =
      lookup-delete (trim_space key) (trim_space key) m.entries
      ∙ rw (text_beq_refl (trim_space key)) refl

  evicted : (m : MemoryStore) → (preferred_backend asked key (evict (trim_space key) m)).1 ≡ absent
  unfolding preferred_backend read_entry
  evicted m = elim (Bool-cases (is_empty (trim_space key))) [
    | inl e ↦ rw e refl
    | inr e ↦ rw (e, gone m) refl
  ]

  -- For a key and a name that are not blank, until the name's time to live is over: a name that is
  -- stored behind the whole of an earlier `PreferredBackend` is found. If the deletion of that
  -- `PreferredBackend` comes after the store, the name is gone: the deletion does not look at the entry
  -- again.
  pub expiry_order :
      trim_space key ≢ []
      → trim_space backend ≢ []
      → asked ≤ stored + lifetime ttl
      → ((preferred_backend asked key (restored now stored key backend ttl s)).1
          ≡ found (trim_space backend))
        × ((preferred_backend asked key (overtaken stored key backend ttl s)).1 ≡ absent)
  expiry_order hk hb le = (
    preferred_backend-remember_backend stored asked ttl key backend key
          (preferred_backend now key s).0 hk hb hk
        ∙ rw (text_beq_refl (trim_space key), in_time) refl,
    evicted (remember_backend stored key backend ttl s).0,
  )
    where
      in_time : ltb (stored + lifetime ttl) asked ≡ false
      in_time = ground arith
