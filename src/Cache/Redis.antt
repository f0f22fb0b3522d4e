-- ===== src/Cache/Redis.antt =====
-- internal/cache/redis.go: the store in a Redis server, which the source reaches through a client
-- library. The library and the server behind it are a parameter: the state, and the library's `Get` and
-- `Set`, which takes the time to live as a `time.Duration`, in nanoseconds.
use infer_flow.Prelude.{
  ℕ, ◌+◌, ◌<◌, ◌≡◌, ◌≢◌, refl, Bool, true, false, [], ◌∷◌, ◌||◌, if◌then◌else◌,
}
use infer_flow.Text.{Text, is_empty, trim_space}
use infer_flow.Text.Trim.{trim_space_idem}
use infer_flow.Cache.Store.{Preference, found, absent, failed, Store, StoreLaws, lifetime}

-- `client.Get(ctx, key).Result()`: a value, `redis.Nil`, or another error.
pub data GetReply : Type 0 where
  value : Text → GetReply
  nil : GetReply
  error : GetReply

pub record RedisServer (R : Type 0) : Type 0 where
  pub get : ℕ → Text → R → R × GetReply
  pub set : ℕ → Text → Text → ℕ → R → R × Bool

-- `NewRedisStore`; `connect` is the client library's `redis.NewClient` with this address.
unfoldable pub new_redis_store : {R : Type 0} → (Text → R) → Text → R
new_redis_store connect addr = connect (trim_space addr)

module _ {R : Type 0} (server : RedisServer R) where
  pub read_reply : GetReply → Preference
  read_reply nil = absent
  read_reply error = failed
  read_reply (value v) = if is_empty (trim_space v) then absent else found v

  unfoldable pub preferred_backend : ℕ → Text → R → R × Preference
  unfolding read_reply
  preferred_backend now raw s =
      let key = trim_space raw in
      if is_empty key
      then (s, absent)
      else (let (s', reply) = server.get now key s in (s', read_reply reply))

  unfoldable pub remember_backend : ℕ → Text → Text → ℕ → R → R × Bool
  remember_backend now raw_key raw_backend ttl s =
      let key = trim_space raw_key in
      let backend = trim_space raw_backend in
      if is_empty key || is_empty backend
      then (s, true)
      else server.set now key backend (lifetime ttl) s

  abbrev pub redis_store : Store R
  redis_store = record {
    preferred_backend = preferred_backend;
    remember_backend = remember_backend;
  }

  is_empty_of_ne : (s : Text) → s ≢ [] → is_empty s ≡ false
  is_empty_of_ne [] h = absurd (h refl)
  is_empty_of_ne (c ∷ s) h = refl

  preferred_backend_blank :
      (now : ℕ) (key : Text) (s : R)
      → trim_space key ≡ []
      → preferred_backend now key s ≡ (s, absent)
  unfolding preferred_backend
  preferred_backend_blank now key s e = rw e

  -- Say the library has Redis keep a value for the time `sent d`, if it is told the duration `d` (it
  -- sends whole milliseconds): `Get` gives what a successful `Set` wrote until that time is over. Then
  -- the Redis store keeps the contract of a store that keeps a name for the time that is sent for its
  -- time to live, or for ten minutes where that is not positive.
  pub redis_store-StoreLaws :
      (sent : ℕ → ℕ)
      → ((now later ttl : ℕ) (key v : Text) (s : R)
          → (server.set now key v ttl s).1 ≡ true
          → later < now + sent ttl
          → (server.get later key (server.set now key v ttl s).0).1 ≡ value v)
      → StoreLaws (λ ttl. sent (lifetime ttl)) redis_store
  unfolding preferred_backend remember_backend
  redis_store-StoreLaws sent get-set = record {
    remembers = λ now later ttl key backend s hk hb.
        rw (is_empty_of_ne (trim_space key) hk, is_empty_of_ne (trim_space backend) hb)
          (λ done lt.
            rw (get-set now later (lifetime ttl) (trim_space key) (trim_space backend) s done lt)
              (rw (trim_space_idem backend, is_empty_of_ne (trim_space backend) hb) refl));
    blank = preferred_backend_blank;
  }
