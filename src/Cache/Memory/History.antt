-- ===== src/Cache/Memory/History.antt =====
-- The store in memory over a sequence of calls: what it forgets is never missed.
use infer_flow.Prelude.{
  ℕ, ◌+◌, ◌≤◌, ◌<◌, ◌≡◌, refl, sym, ap, ◌∙◌, ◌⊎◌, inl, inr, true, false, List, [], ◌∷◌, Option,
  none, some, arith, ltb, if◌then◌else◌, Bool-cases, Option-cases, ◌||◌,
}
use infer_flow.Text.{Text, text_eq, text_beq, is_empty, trim_space}
use infer_flow.Assoc.{lookup, lookup-insert, lookup-delete}
use infer_flow.Cache.Store.{Preference, found, absent, lifetime}
use infer_flow.Cache.Memory.{
  MemoryEntry, MemoryStore, new_memory_store, read_entry, evict, preferred_backend,
  remember_backend,
}

-- A call with its clock: `RememberBackend`, or `PreferredBackend`.
pub data Call : Type 0 where
  remembers : ℕ → Text → Text → ℕ → Call
  asks : ℕ → Text → Call

abbrev pub clock : Call → ℕ
clock (remembers now key backend ttl) = now
clock (asks now key) = now

-- The answers of the store to the calls of `PreferredBackend` among them.
abbrev pub answers : List Call → MemoryStore → List Preference
answers [] s = []
answers (remembers now key backend ttl ∷ calls) s =
    answers calls (remember_backend now key backend ttl s).0
answers (asks now key ∷ calls) s =
    let (s', preference) = preferred_backend now key s in preference ∷ answers calls s'

-- The specification: a log of what each key was told last, from which nothing is ever deleted. A
-- question does not change it.
abbrev pub Log : Type 0
Log = Text → Option MemoryEntry

abbrev pub note : ℕ → Text → Text → ℕ → Log → Log
note now key backend ttl log k =
    if is_empty (trim_space key) || is_empty (trim_space backend)
    then log k
    else if text_beq (trim_space key) k
    then some (record { backend = trim_space backend; expires_at = now + lifetime ttl })
    else log k

abbrev pub valid_at : ℕ → Option MemoryEntry → Preference
valid_at now none = absent
valid_at now (some e) = if ltb e.expires_at now then absent else found e.backend

abbrev pub recall : ℕ → Text → Log → Preference
recall now key log =
    if is_empty (trim_space key) then absent else valid_at now (log (trim_space key))

abbrev pub recalled : List Call → Log → List Preference
recalled [] log = []
recalled (remembers now key backend ttl ∷ calls) log = recalled calls (note now key backend ttl log)
recalled (asks now key ∷ calls) log = recall now key log ∷ recalled calls log

-- The clocks of the calls do not go back.
abbrev pub Ordered : ℕ → List Call → Type 0
Ordered t [] = Unit {0}
Ordered t (c ∷ calls) = (t ≤ clock c) × Ordered (clock c) calls

-- What the log has for a key is over.
abbrev Over : ℕ → Option MemoryEntry → Type 0
Over t none = ⊥
Over t (some e) = e.expires_at < t

-- A key has in the store what it has in the log, or it has been deleted, and is over.
abbrev Agrees : ℕ → MemoryStore → Log → Text → Type 0
Agrees t s log k = (lookup k s.entries ≡ log k) ⊎ ((lookup k s.entries ≡ none) × Over t (log k))

Over-mono : (t u : ℕ) (o : Option MemoryEntry) → t ≤ u → Over t o → Over u o
Over-mono t u none le v = v
Over-mono t u (some e) le v = omega arith

module _ (t : ℕ) (s : MemoryStore) (log : Log) (agrees : (k : Text) → Agrees t s log k) (now : ℕ)
    (le : t ≤ now) where
  Agrees-mono : (k : Text) → Agrees now s log k
  Agrees-mono k = elim (agrees k) [
    | inl same ↦ inl same
    | inr (gone, over) ↦ inr (gone, Over-mono t now (log k) le over)
  ]

  remember-Agrees :
      (key backend : Text) (ttl : ℕ) (k : Text)
      → Agrees now (remember_backend now key backend ttl s).0 (note now key backend ttl log) k
  unfolding remember_backend
  remember-Agrees key backend ttl k =
      elim (Bool-cases (is_empty (trim_space key) || is_empty (trim_space backend))) [
        | inl blank ↦ rw blank (Agrees-mono k)
        | inr filled ↦ rw filled (
            rw
              (lookup-insert (trim_space key) k
                (record { backend = trim_space backend; expires_at = now + lifetime ttl })
                s.entries)
              (elim (Bool-cases (text_beq (trim_space key) k)) [
                | inl same ↦ rw same (inl refl)
                | inr other ↦ rw other (Agrees-mono k)
              ]))
      ]

  valid_at-Over : (o : Option MemoryEntry) → Over t o → valid_at now o ≡ absent
  valid_at-Over none v = absurd v
  valid_at-Over (some e) v = ground arith

  evict-Agrees :
      (key : Text) (e : MemoryEntry)
      → log key ≡ some e
      → ltb e.expires_at now ≡ true
      → (k : Text) → Agrees now (evict key s) log k
  unfolding evict
  evict-Agrees key e there old k =
      rw (lookup-delete key k s.entries) (elim (Bool-cases (text_beq key k)) [
        | inl same ↦
            (let same_key : key ≡ k = (text_eq.beq_iff key k).0 same in
              let has : log k ≡ some e = sym (ap log same_key) ∙ there in
              let over : Over now (some e) = ground arith in rw same (inr (refl, rw has over)))
        | inr other ↦ rw other (Agrees-mono k)
      ])

  read-Agrees :
      (raw : Text)
      → is_empty (trim_space raw) ≡ false
      → let (s', preference) = preferred_backend now raw s in
        (preference ≡ valid_at now (log (trim_space raw))) × ((k : Text) → Agrees now s' log k)
  unfolding preferred_backend read_entry
  read-Agrees raw filled = elim (Option-cases (lookup (trim_space raw) s.entries)) [
    | inl missed ↦ elim (agrees (trim_space raw)) [
      | inl same ↦ rw (filled, missed, sym same ∙ missed) (refl, Agrees-mono)
      | inr (gone, over) ↦ rw (filled, missed) (sym (valid_at-Over _ over), Agrees-mono)
    ]
    | inr (e, there) ↦ elim (agrees (trim_space raw)) [
      | inl same ↦ elim (Bool-cases (ltb e.expires_at now)) [
        | inl old ↦
            rw (filled, there, sym same ∙ there, old)
              (refl, evict-Agrees _ e (sym same ∙ there) old)
        | inr young ↦ rw (filled, there, sym same ∙ there, young) (refl, Agrees-mono)
      ]
      | inr (gone, over) ↦ absurd (cc)
    ]
  ]

  asked-Agrees :
      (raw : Text)
      → let (s', preference) = preferred_backend now raw s in
        (preference ≡ recall now raw log) × ((k : Text) → Agrees now s' log k)
  unfolding preferred_backend
  asked-Agrees raw = elim (Bool-cases (is_empty (trim_space raw))) [
    | inl blank ↦ rw blank (refl, Agrees-mono)
    | inr filled ↦ (let (same, after) = read-Agrees raw filled in (same ∙ rw filled refl, after))
  ]

answers-Agrees :
    (t : ℕ) (s : MemoryStore) (log : Log) (calls : List Call)
    → ((k : Text) → Agrees t s log k)
    → Ordered t calls
    → answers calls s ≡ recalled calls log
answers-Agrees t s log [] agrees o = refl
answers-Agrees t s log (remembers now key backend ttl ∷ calls) agrees (le, o) =
    answers-Agrees now _ _ calls (remember-Agrees t s log agrees now le key backend ttl) o
answers-Agrees t s log (asks now key ∷ calls) agrees (le, o) =
    let (same, agrees') = asked-Agrees t s log agrees now le key in
    rw same (ap (λ l. recall now key log ∷ l) (answers-Agrees now _ log calls agrees' o))

-- In every sequence of calls whose clocks do not go back, on a new store: each `PreferredBackend`
-- answers what the key was told last, as long as that is not over, and nothing otherwise, so that no
-- answer ever misses an entry that an expired reading has deleted.
pub answers-recalled :
    (calls : List Call)
    → Ordered 0 calls
    → answers calls new_memory_store ≡ recalled calls (λ k. none)
unfolding new_memory_store lookup
answers-recalled calls o = answers-Agrees 0 new_memory_store _ calls (λ k. inl refl) o
