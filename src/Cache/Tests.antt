-- ===== src/Cache/Tests.antt =====
-- The stores at a prompt that was sent to backend `a`.
use infer_flow.Prelude.{
  ℕ, ◌+◌, ◌*◌, ◌/◌, ◌<◌, ◌≡◌, ◌≢◌, refl, true, List, [], ◌∷◌, Option, none, some, arith,
  if◌then◌else◌, ltb,
}
use infer_flow.Text.{
  Text, text_eq, text_beq_refl, codes, trim_space, trim_left, trim_right, is_space,
}
use infer_flow.Assoc.{lookup, insert, lookup-insert}
use infer_flow.Cache.Store.{found, absent, StoreLaws, lifetime}
use infer_flow.Cache.Memory.{MemoryStore, new_memory_store, preferred_backend, remember_backend}
use infer_flow.Cache.Memory.History.{Call, remembers, asks, answers, recalled, answers-recalled}
use infer_flow.Cache.Memory.Expiry.{restored, overtaken, expiry_order}
use infer_flow.Cache.Redis.{RedisServer, GetReply, value, nil, redis_store, redis_store-StoreLaws}

a_unpadded : trim_space (codes "a") ≡ codes "a"
unfolding trim_space trim_left trim_right is_space
a_unpadded = refl

k_unpadded : trim_space (codes "k") ≡ codes "k"
unfolding trim_space trim_left trim_right is_space
k_unpadded = refl

k_not_blank : trim_space (codes "k") ≢ []
k_not_blank = rw k_unpadded (λ e. cc)

a_not_blank : trim_space (codes "a") ≢ []
a_not_blank = rw a_unpadded (λ e. cc)

-- The first question is in time, the second is too late, and deletes the entry for the third.
abbrev calls : List Call
calls =
    remembers 100 (codes "k") (codes "a") 300
    ∷ asks 400 (codes "k")
    ∷ asks 401 (codes "k")
    ∷ asks 500 (codes "k")
    ∷ []

answers-recalled_example : answers calls new_memory_store ≡ recalled calls (λ k. none)
answers-recalled_example = answers-recalled calls (omega arith)

-- An entry of time 300 that is over at 500.
abbrev aged : MemoryStore
aged = (remember_backend 0 (codes "k") (codes "a") 300 new_memory_store).0

expiry_order_example :
    ((preferred_backend 502 (codes "k") (restored 500 501 (codes "k") (codes "a") 300 aged)).1
      ≡ found (trim_space (codes "a")))
    × ((preferred_backend 502 (codes "k") (overtaken 501 (codes "k") (codes "a") 300 aged)).1
        ≡ absent)
expiry_order_example =
    expiry_order 500 501 502 300 (codes "k") (codes "a") aged k_not_blank a_not_blank
      (unfold lifetime in omega arith)

-- Whole milliseconds, and at least one.
abbrev whole_ms : ℕ → ℕ
whole_ms d = if ltb d 1000000 then 1000000 else d / 1000000 * 1000000

-- A server that keeps its values in a map, with their deadlines.
abbrev Values : Type 0
Values = List (Text × (Text × ℕ))

abbrev read_value : ℕ → Option (Text × ℕ) → GetReply
read_value now none = nil
read_value now (some (v, deadline)) = if ltb now deadline then value v else nil

abbrev map_server : RedisServer Values
map_server = record {
  get = λ now key s. (s, read_value now (lookup key s));
  set = λ now key v ttl s. (insert key (v, now + whole_ms ttl) s, true);
}

map_server_get-set :
    (now later ttl : ℕ) (key v : Text) (s : Values)
    → (map_server.set now key v ttl s).1 ≡ true
    → later < now + whole_ms ttl
    → (map_server.get later key (map_server.set now key v ttl s).0).1 ≡ value v
map_server_get-set now later ttl key v s done lt =
    rw (lookup-insert key key (v, now + whole_ms ttl) s, text_beq_refl key) (ground arith)

redis_store-StoreLaws_example : StoreLaws (λ ttl. whole_ms (lifetime ttl)) (redis_store map_server)
redis_store-StoreLaws_example = redis_store-StoreLaws map_server whole_ms map_server_get-set
