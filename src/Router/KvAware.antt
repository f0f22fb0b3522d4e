-- ===== src/Router/KvAware.antt =====
-- internal/router/kvaware.go. The store is the one that the server writes to: its state is passed in,
-- and `none` is a nil interface.
pub mod Affinity
pub mod Serves
use infer_flow.Prelude.{
  ℕ, Bool, true, not, ◌||◌, Option, none, some, List, [], ◌∷◌, ◌==◌, if◌then◌else◌, length, nat_eq,
}
use infer_flow.Router.Names.{kv_aware_name}
use infer_flow.Text.{Text, is_empty, text_beq}
use infer_flow.Assoc.{lookup}
use infer_flow.Cache.Store.{Store, Preference, found, absent, failed}
use infer_flow.Router.Heap.{Heap, is_healthy, any_healthy}
use infer_flow.Router.Loads.{Loads, Choice, no_loads, choose}
use infer_flow.Router.Loads
use infer_flow.Router.LeastPending.{grant, commit}
use infer_flow.Router.Decision.{SelectionInput, Outcome, ok, no_healthy_backend, Decision}

-- The fields but `store`, which are those of `LeastPending`.
abbrev pub KvAware : Type 0
KvAware = Loads

-- `SetBackends`, the same code as that of `LeastPending`.
abbrev pub set_backends : List ℕ → Heap → KvAware → Heap × KvAware
set_backends bs h s = Loads.set_backends bs h s

unfoldable pub new_kv_aware : List ℕ → Heap → Heap × Loads
new_kv_aware bs h = set_backends bs h no_loads

-- The loop over the backends for the preferred name: a healthy backend of that name and its counter.
-- A backend without a counter ends the loop.
unfoldable pub preferred : Heap → List (ℕ × ℕ) → Text → List ℕ → Option Choice
preferred h loads name [] = none
preferred h loads name (b ∷ bs) =
    let rest = preferred h loads name bs in
    if not (text_beq (h.backend b).name name) || not (is_healthy h b)
    then rest
    else elim (lookup b loads) [
      | none ↦ none
      | some c ↦ some (record { backend = b; load = c; pending = h.counter c })
    ]

unfoldable pub select_least_pending : Heap → Loads → Heap × Loads × Outcome Decision
select_least_pending h s =
    let (s', chosen) = choose h s in let (h', decision) = commit h chosen in (h', s', decision)

abbrev pub choice_of : Heap → Loads → Preference → Option Choice
choice_of h s (found name) = preferred h s.loads name s.backends
choice_of h s absent = none
choice_of h s failed = none

-- A hit is granted, and otherwise the least load is chosen.
abbrev pub hit_or_least : Heap → Loads → Option Choice → Heap × Loads × Outcome Decision
hit_or_least h s (some c) = let (h', d) = grant h c true in (h', s, ok d)
hit_or_least h s none = select_least_pending h s

module _ {S : Type 0} (store : Store S) where
  -- What the store is asked.
  unfoldable pub ask_store : ℕ → Text → Option S → Option S × Preference
  ask_store now key none = (none, absent)
  ask_store now key (some st) =
      if is_empty key
      then (some st, absent)
      else (let (st', preference) = store.preferred_backend now key st in (some st', preference))

  unfoldable pub select :
      ℕ → Heap → Option S → Loads → SelectionInput → Option S × (Heap × Loads × Outcome Decision)
  select now h st s input =
      if length s.backends == 0
      then (st, (h, s, no_healthy_backend))
      else (let (st', preference) = ask_store now input.cache_key st in
          (st', hit_or_least h s (choice_of h s preference)))

unfoldable pub has_healthy_backend : Heap → Loads → Bool
has_healthy_backend h s = any_healthy h s.backends

-- `Name`.
abbrev pub name : Text
name = kv_aware_name
