-- ===== src/Store/Calls.antt =====
-- The calls of the interface `Store` (Store.ts), with the sweep and the passing of time.
use mini_store.Prelude.{ℕ, ◌+◌, Option, List, [], ◌∷◌, ℤ, Text}
use mini_store.Store.{InMemoryStore}
use mini_store.Store.Strings
use mini_store.Store.Lists
use mini_store.Store.Hashes
use mini_store.Store.Keyspace

pub data Call : Type 0 where
  get del exists ttl persist keys key_type lpop rpop llen hgetall hlen : Text → Call
  set : Text → Text → Option ℕ → Call
  expire : Text → ℕ → Call
  lpush rpush : Text → List Text → Call
  lrange : Text → ℤ → ℤ → Call
  hset : Text → List (Text × Text) → Call
  hget : Text → Text → Call
  hdel : Text → List Text → Call
  sweep : ℕ → Call
  -- the clock goes on by some milliseconds
  advance : ℕ → Call

-- The state that a call leaves.
unfoldable pub apply : Call → InMemoryStore → InMemoryStore
apply (get key) s = (Strings.get key s).1
apply (del key) s = (Strings.del key s).1
apply (exists key) s = (Strings.exists key s).1
apply (ttl key) s = (Strings.ttl key s).1
apply (persist key) s = (Strings.persist key s).1
apply (keys pattern) s = (Keyspace.keys pattern s).1
apply (key_type key) s = (Strings.key_type key s).1
apply (lpop key) s = (Lists.lpop key s).1
apply (rpop key) s = (Lists.rpop key s).1
apply (llen key) s = (Lists.llen key s).1
apply (hgetall key) s = (Hashes.hgetall key s).1
apply (hlen key) s = (Hashes.hlen key s).1
apply (set key value ttl_seconds) s = Strings.set key value ttl_seconds s
apply (expire key seconds) s = (Strings.expire key seconds s).1
apply (lpush key values) s = (Lists.lpush key values s).1
apply (rpush key values) s = (Lists.rpush key values s).1
apply (lrange key start stop) s = (Lists.lrange key start stop s).1
apply (hset key pairs) s = (Hashes.hset key pairs s).1
apply (hget key field) s = (Hashes.hget key field s).1
apply (hdel key fields) s = (Hashes.hdel key fields s).1
apply (sweep sample_size) s = (Keyspace.sweep_expired sample_size s).1
apply (advance ms) s = record s { now = s.now + ms }

unfoldable pub run : List Call → InMemoryStore → InMemoryStore
unfolding apply
run [] s = s
run (call ∷ calls) s = run calls (apply call s)
