-- ===== src/Router/KvAware/Affinity.antt =====
-- A prompt goes back to the backend that the store names.
use mathlib.Core.List.{mem-cons_self, mem-cons_of_mem}
use mathlib.Core.Option.{some-injective}
use infer_flow.Text.Trim.{trim_space_blank}
use infer_flow.Prelude.{
  ℕ, nat_eq, ◌+◌, ◌<◌, ◌≡◌, ◌≢◌, refl, sym, ◌∙◌, inl, inr, Bool, true, false, ◌||◌, ◌&&◌, List, [],
  ◌∷◌, some, arith, length, Bool-cases, Option-cases, Mem, ◌==◌,
}
use infer_flow.Text.{Text, text_beq, text_beq_iff, is_empty, trim_space}
use infer_flow.Assoc.{lookup}
use infer_flow.Cache.Store.{Store, StoreLaws, Preference}
use infer_flow.Router.Heap.{Heap, is_healthy}
use infer_flow.Router.Decision.{SelectionInput, ok, Decision}
use infer_flow.Router.Loads.{Loads, Choice}
use infer_flow.Router.Loads.Serves.{Covered}
use infer_flow.Router.LeastPending.{grant, grant-backend, grant-cache_hit}
use infer_flow.Router.KvAware.{preferred, ask_store, select}

abbrev pub is_named : Heap → Text → ℕ → Bool
is_named h name b = text_beq (h.backend b).name name && is_healthy h b

abbrev pub any_named : Heap → Text → List ℕ → Bool
any_named h name [] = false
any_named h name (b ∷ bs) = is_named h name b || any_named h name bs

-- What the loop for the preferred backend finds.
pub record IsPreferred (h : Heap) (loads : List (ℕ × ℕ)) (name : Text) (bs : List ℕ) (c : Choice)
    : Type 0 where
  pub member : Mem c.backend bs
  pub healthy : is_healthy h c.backend ≡ true
  pub named : (h.backend c.backend).name ≡ name
  pub tracked : lookup c.backend loads ≡ some c.load

preferred_here :
    (h : Heap) (loads : List (ℕ × ℕ)) (name : Text) (b : ℕ) (bs : List ℕ) (c : ℕ)
    → is_named h name b ≡ true
    → lookup b loads ≡ some c
    → preferred h loads name (b ∷ bs)
      ≡ some (record { backend = b; load = c; pending = h.counter c })
unfolding preferred
preferred_here h loads name b bs c e hit = ground arith

preferred_later :
    (h : Heap) (loads : List (ℕ × ℕ)) (name : Text) (b : ℕ) (bs : List ℕ)
    → is_named h name b ≡ false
    → preferred h loads name (b ∷ bs) ≡ preferred h loads name bs
unfolding preferred
preferred_later h loads name b bs e = ground arith

is_named-parts :
    (h : Heap) (name : Text) (b : ℕ)
    → is_named h name b ≡ true
    → ((h.backend b).name ≡ name) × (is_healthy h b ≡ true)
is_named-parts h name b e = ((text_beq_iff (h.backend b).name name).0 (ground arith), ground arith)

pub preferred-IsPreferred :
    (h : Heap) (loads : List (ℕ × ℕ)) (name : Text) (bs : List ℕ)
    → Covered loads bs
    → any_named h name bs ≡ true
    → (c : Choice) × (preferred h loads name bs ≡ some c) × IsPreferred h loads name bs c
preferred-IsPreferred h loads name [] cs e = cc
preferred-IsPreferred h loads name (b ∷ bs) ((c, tracked), cs) e =
    elim (Bool-cases (is_named h name b)) [
      | inl here ↦
          let (named, healthy) = is_named-parts h name b here in
          (
            record { backend = b; load = c; pending = h.counter c },
            preferred_here h loads name b bs c here tracked,
            record { member = mem-cons_self; healthy = healthy; named = named; tracked = tracked },
          )
      | inr later ↦
          let (m, hit, p) = preferred-IsPreferred h loads name bs cs (ground arith) in
          (
            m,
            preferred_later h loads name b bs later ∙ hit,
            record {
              member = mem-cons_of_mem b p.member;
              healthy = p.healthy;
              named = p.named;
              tracked = p.tracked;
            },
          )
    ]

-- A store that answers with a name sends the prompt to a healthy backend of that name, if there is one.
hit_of-preference :
    {S : Type 0} (store : Store S) (now : ℕ) (h : Heap) (st : S) (s : Loads)
    (input : SelectionInput) (name : Text)
    → is_empty input.cache_key ≡ false
    → (store.preferred_backend now input.cache_key st).1 ≡ Preference.found name
    → Covered s.loads s.backends
    → any_named h name s.backends ≡ true
    → (d : Decision) × ((select store now h (some st) s input).1.2 ≡ ok d)
      × (d.cache_hit ≡ true)
      × Mem d.backend s.backends
      × (is_healthy h d.backend ≡ true)
      × ((h.backend d.backend).name ≡ name)
unfolding select ask_store
hit_of-preference store now h st s input name key answer cs e =
    let (c, chosen, p) = preferred-IsPreferred h s.loads name s.backends cs e in
    (
      (grant h c true).1,
      rw (nonempty s.backends e, key, answer, chosen) refl,
      grant-cache_hit h c true,
      rw (grant-backend h c true) (p.member),
      rw (grant-backend h c true) (p.healthy),
      rw (grant-backend h c true) (p.named),
    )
  where
    nonempty : (bs : List ℕ) → any_named h name bs ≡ true → (length bs == 0) ≡ false
    nonempty [] e = cc
    nonempty (b ∷ bs) e = ground arith

-- On any store that keeps the contract: once a key that is not blank is remembered with a name that is
-- not blank, and until the time is over for which the store keeps it, the strategy sends a prompt of
-- that key to a healthy backend of the name, as a cache hit, whatever the loads are. The condition: a healthy backend of the
-- list has the name, and every backend of the list has a load counter.
pub select-remember_backend :
    {S : Type 0} (store : Store S) {lasts : ℕ → ℕ} (laws : StoreLaws lasts store)
    (now later ttl : ℕ) (name : Text) (st : S) (h : Heap) (s : Loads) (input : SelectionInput)
    → trim_space input.cache_key ≢ []
    → trim_space name ≢ []
    → (store.remember_backend now input.cache_key name ttl st).1 ≡ true
    → later < now + lasts ttl
    → Covered s.loads s.backends
    → any_named h (trim_space name) s.backends ≡ true
    → (d : Decision) × ((select store later h
          (some (store.remember_backend now input.cache_key name ttl st).0)
          s
          input).1.2
        ≡ ok d)
      × (d.cache_hit ≡ true)
      × Mem d.backend s.backends
      × (is_healthy h d.backend ≡ true)
      × ((h.backend d.backend).name ≡ trim_space name)
select-remember_backend store laws now later ttl name st h s input key named done lt cs e =
    hit_of-preference store later h (store.remember_backend now input.cache_key name ttl st).0 s
      input (trim_space name) (nonempty input.cache_key key)
      (laws.remembers now later ttl input.cache_key name st key named done lt) cs e
  where
    nonempty : (key : Text) → trim_space key ≢ [] → is_empty key ≡ false
    nonempty [] ne = absurd (ne (trim_space_blank [] tt))
    nonempty (c ∷ cs) ne = refl

pub preferred_sound :
    (h : Heap) (loads : List (ℕ × ℕ)) (name : Text) (bs : List ℕ) (c : Choice)
    → preferred h loads name bs ≡ some c
    → IsPreferred h loads name bs c
unfolding preferred
preferred_sound h loads name [] c e = cc
preferred_sound h loads name (b ∷ bs) c e = elim (Bool-cases (is_named h name b)) [
  | inr later ↦
      let p =
        preferred_sound h loads name bs c (sym (preferred_later h loads name b bs later) ∙ e) in
      record {
        member = mem-cons_of_mem b p.member;
        healthy = p.healthy;
        named = p.named;
        tracked = p.tracked;
      }
  | inl here ↦ elim (Option-cases (lookup b loads)) [
    | inl untracked ↦ absurd (ground arith)
    | inr (k, tracked) ↦
        let (named, healthy) = is_named-parts h name b here in
        let same : c ≡ record { backend = b; load = k; pending = h.counter k } =
          some-injective _ _ (sym e ∙ preferred_here h loads name b bs k here tracked) in
        rw same
          (record { member = mem-cons_self; healthy = healthy; named = named; tracked = tracked })
  ]
]
