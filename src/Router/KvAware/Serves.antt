-- ===== src/Router/KvAware/Serves.antt =====
-- A selection with affinity serves its caller, whatever the store answers.
use infer_flow.Prelude.{
  ℕ, ◌≤◌, ◌<◌, inl, inr, true, Option, none, arith, length, Bool-cases, Option-cases, ◌==◌,
}
use infer_flow.Int64.{two63}
use infer_flow.Cache.Store.{Store, Preference, found, absent, failed}
use infer_flow.Router.Heap.{Heap}
use infer_flow.Router.Slots.{max_backends}
use infer_flow.Router.Decision.{SelectionInput}
use infer_flow.Router.Serves.{Serves}
use infer_flow.Router.Loads.{Loads, choose}
use infer_flow.Router.Loads.Serves.{Covered, choose-Serves}
use infer_flow.Router.LeastPending.{grant-backend}
use infer_flow.Router.LeastPending.Serves.{commit-Serves, NoneHealthy-nil}
use infer_flow.Router.KvAware.{
  preferred, choice_of, hit_or_least, select_least_pending, ask_store, select,
}
use infer_flow.Router.KvAware.Affinity.{preferred_sound}

module _ (h : Heap) (s : Loads) (fits : length s.backends ≤ max_backends) (hn : s.next < two63)
    (some_backend : 0 < length s.backends) (cs : Covered s.loads s.backends) where
  least-Serves : Serves h s.backends (λ d. d.backend) (hit_or_least h s none).2
  unfolding select_least_pending
  least-Serves =
      commit-Serves h s.backends (choose h s).1 (choose-Serves h s some_backend fits hn cs)

  hit_or_least-Serves :
      (p : Preference) → Serves h s.backends (λ d. d.backend) (hit_or_least h s (choice_of h s p)).2
  hit_or_least-Serves (found name) = elim (Option-cases (preferred h s.loads name s.backends)) [
    | inl e ↦ rw e least-Serves
    | inr (c, e) ↦
        let p = preferred_sound h s.loads name s.backends c e in
        rw (e, grant-backend h c true) (p.member, p.healthy)
  ]
  hit_or_least-Serves absent = least-Serves
  hit_or_least-Serves failed = least-Serves

pub select-Serves :
    {S : Type 0} (store : Store S) (now : ℕ) (h : Heap) (st : Option S) (s : Loads)
    (input : SelectionInput)
    → length s.backends ≤ max_backends
    → s.next < two63
    → Covered s.loads s.backends
    → Serves h s.backends (λ d. d.backend) (select store now h st s input).1.2
unfolding select
select-Serves store now h st s input fits hn cs = elim (Bool-cases (length s.backends == 0)) [
  | inl empty ↦ rw empty (NoneHealthy-nil h s.backends empty)
  | inr nonempty ↦
      rw nonempty (
        hit_or_least-Serves h s fits hn (ground arith) cs
          (ask_store store now input.cache_key st).1)
]
