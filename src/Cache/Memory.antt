-- ===== src/Cache/Memory.antt =====
-- internal/cache/memory.go: the store in the router's own memory.
pub mod Expiry
pub mod History
use infer_flow.Prelude.{
  ℕ, ◌+◌, ◌<◌, ◌≡◌, ◌≢◌, refl, ◌∙◌, inl, inr, Bool, true, false, List, [], ◌∷◌, Option, none, some,
  arith, ltb, if◌then◌else◌, Bool-cases, ◌||◌,
}
use infer_flow.Text.{Text, text_eq, text_beq, text_beq_refl, is_empty, trim_space}
use infer_flow.Assoc.{lookup, insert, delete, lookup-insert}
use infer_flow.Cache.Store.{Preference, found, absent, Store, StoreLaws, lifetime}

pub record MemoryEntry : Type 0 where
  pub backend : Text
  pub expires_at : ℕ

pub record MemoryStore : Type 0 where
  pub entries : List (Text × MemoryEntry)

unfoldable pub new_memory_store : MemoryStore
new_memory_store = record { entries = [] }

-- What `PreferredBackend` finds under the read lock: an entry, and whether it is over.
pub data Reading : Type 0 where
  missing : Reading
  fresh : Text → Reading
  expired : Reading

unfoldable pub read_entry : ℕ → Option MemoryEntry → Reading
read_entry now none = missing
read_entry now (some e) = if ltb e.expires_at now then expired else fresh e.backend

-- The second critical section, which runs after an expired reading.
unfoldable pub evict : Text → MemoryStore → MemoryStore
evict key s = record s { entries = delete key s.entries }

unfoldable pub preferred_backend : ℕ → Text → MemoryStore → MemoryStore × Preference
unfolding evict
preferred_backend now raw s =
    let key = trim_space raw in
    if is_empty key then (s, absent) else elim (read_entry now (lookup key s.entries)) [
      | missing ↦ (s, absent)
      | expired ↦ (evict key s, absent)
      | fresh name ↦ (s, found name)
    ]

unfoldable pub remember_backend : ℕ → Text → Text → ℕ → MemoryStore → MemoryStore × Bool
remember_backend now raw_key raw_backend ttl s =
    let key = trim_space raw_key in
    let backend = trim_space raw_backend in
    if is_empty key || is_empty backend then (s, true) else (
      record s {
        entries =
            insert key (record { backend = backend; expires_at = now + lifetime ttl }) s.entries;
      },
      true,
    )

abbrev pub memory_store : Store MemoryStore
memory_store = record { preferred_backend = preferred_backend; remember_backend = remember_backend }

is_empty_of_ne : (s : Text) → s ≢ [] → is_empty s ≡ false
is_empty_of_ne [] h = absurd (h refl)
is_empty_of_ne (c ∷ s) h = refl

-- What a key reads after a store, where no key and no name is blank: the stored key has the new name
-- until its time is over, to the nanosecond, and every other key reads what it did.
pub preferred_backend-remember_backend :
    (now later ttl : ℕ) (key backend other : Text) (s : MemoryStore)
    → trim_space key ≢ []
    → trim_space backend ≢ []
    → trim_space other ≢ []
    → (preferred_backend later other (remember_backend now key backend ttl s).0).1 ≡ (
        if text_beq (trim_space key) (trim_space other)
        then (if ltb (now + lifetime ttl) later then absent else found (trim_space backend))
        else (preferred_backend later other s).1)
unfolding preferred_backend remember_backend read_entry
preferred_backend-remember_backend now later ttl key backend other s hk hb ho =
    rw
      (
        is_empty_of_ne _ hk,
        is_empty_of_ne _ hb,
        is_empty_of_ne _ ho,
        lookup-insert (trim_space key) (trim_space other)
            (record { backend = trim_space backend; expires_at = now + lifetime ttl }) s.entries,
      )
      (elim (Bool-cases (text_beq (trim_space key) (trim_space other))) [
        | inl same ↦ rw same (ground arith)
        | inr distinct ↦ rw distinct (ground arith)
      ])

preferred_backend_blank :
    (now : ℕ) (key : Text) (s : MemoryStore)
    → trim_space key ≡ []
    → preferred_backend now key s ≡ (s, absent)
unfolding preferred_backend
preferred_backend_blank now key s e = rw e

-- The store in memory keeps the contract of a store: a name that was stored is found until its time is
-- over, and no name is found under a blank key.
pub memory_store-StoreLaws : StoreLaws lifetime memory_store
memory_store-StoreLaws = record {
  remembers = λ now later ttl key backend s hk hb done lt.
      preferred_backend-remember_backend now later ttl key backend key s hk hb hk
      ∙ within (now + lifetime ttl) later (trim_space key) (trim_space backend) _ lt;
  blank = preferred_backend_blank;
}
  where
    within :
        (deadline later : ℕ) (key name : Text) (p : Preference)
        → later < deadline
        → (if text_beq key key then (if ltb deadline later then absent else found name) else p)
          ≡ found name
    within deadline later key name p lt = rw (text_beq_refl key) (ground arith)
