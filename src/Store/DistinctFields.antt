-- ===== src/Store/DistinctFields.antt =====
-- About the calls of `InMemoryStore`: that no field of a hash ever stands there twice.
use mini_store.Prelude.{ℕ, Bool, not, ◌||◌, Option, none, some, List, [], ◌∷◌, Text, text_keyed}
use mini_store.JsMap
use mini_store.Expiry
use mini_store.Store.{
  InMemoryStore, string, touch, put, mark_dirty, reserve_slot_for, expire_if_needed,
}
use mini_store.Store.Proper.{
  HashesDistinct, gated, answer-Distinct, put-Distinct, remove_key-Distinct,
  expire_if_needed-Distinct, reserve-Distinct, live_entry-Distinct,
}
use mini_store.Store.Strings
use mini_store.Store.Lists
use mini_store.Store.Hashes
use mini_store.Store.Keyspace
use mini_store.Store.Glob.{test, compile}
use mini_store.Store.Calls.{Call, apply, run}
use mini_store.Store.ProperEntries.{
  get_from-Distinct, lpush_to-Distinct, rpush_to-Distinct, lpop_from-Distinct, rpop_from-Distinct,
  lrange_of-Distinct, llen_of-Distinct, hset_to-Distinct, hdel_from-Distinct, hget_of-Distinct,
  hgetall_of-Distinct, hlen_of-Distinct,
}

module _ (key : Text) (s : InMemoryStore) (h : HashesDistinct s) where
  gate : HashesDistinct (expire_if_needed key s).1
  gate = expire_if_needed-Distinct key s h

  ttl_kept :
      (ttl : Option ℕ) (t : InMemoryStore)
      → HashesDistinct t
      → HashesDistinct (Strings.apply_ttl ttl key t)
  unfolding Strings.apply_ttl
  ttl_kept none t ht = ht
  ttl_kept (some seconds) t ht = ht

  set-Distinct : (value : Text) (ttl : Option ℕ) → HashesDistinct (Strings.set key value ttl s)
  unfolding Strings.set
  set-Distinct value ttl =
      let s' = (expire_if_needed key s).1 in
      ttl_kept ttl (mark_dirty (touch key (put key (string value) (reserve_slot_for key s')))) (
        put-Distinct key (reserve_slot_for key s') (reserve-Distinct key s' gate) (string value) tt)

  del-Distinct : HashesDistinct (Strings.del key s).1
  unfolding Strings.del
  del-Distinct =
      answer-Distinct (not (JsMap.has (expire_if_needed key s).1.values key)) _ _ gate
        (remove_key-Distinct key (expire_if_needed key s).1 gate)

  expire-Distinct : (seconds : ℕ) → HashesDistinct (Strings.expire key seconds s).1
  unfolding Strings.expire
  expire-Distinct seconds =
      answer-Distinct (expire_if_needed key s).0 _ _ gate
        (answer-Distinct (not (JsMap.has (expire_if_needed key s).1.values key)) _ _ gate gate)

  ttl-Distinct : HashesDistinct (Strings.ttl key s).1
  unfolding Strings.ttl
  ttl-Distinct =
      answer-Distinct
        ((expire_if_needed key s).0 || not (JsMap.has (expire_if_needed key s).1.values key)) _ _
        gate gate

  persist-Distinct : HashesDistinct (Strings.persist key s).1
  unfolding Strings.persist
  persist-Distinct =
      answer-Distinct
        ((expire_if_needed key s).0 || not (JsMap.has (expire_if_needed key s).1.values key)) _ _
        gate
        (answer-Distinct (not (Expiry.has (expire_if_needed key s).1.expiry key)) _ _ gate gate)

remove_all-Distinct :
    (found : List Text) (s : InMemoryStore)
    → HashesDistinct s
    → HashesDistinct (Keyspace.remove_all found s)
unfolding Keyspace.remove_all
remove_all-Distinct [] s h = h
remove_all-Distinct (key ∷ found) s h = remove_all-Distinct found _ (remove_key-Distinct key s h)

keys_loop-Distinct :
    (matches : Text → Bool) (ks matched : List Text) (s : InMemoryStore)
    → HashesDistinct s
    → HashesDistinct (Keyspace.keys_loop matches ks matched s).1
unfolding Keyspace.keys_loop
keys_loop-Distinct matches [] matched s h = h
keys_loop-Distinct matches (key ∷ ks) matched s h =
    keys_loop-Distinct matches ks _ (expire_if_needed key s).1 (expire_if_needed-Distinct key s h)

pub apply-HashesDistinct :
    (call : Call) (s : InMemoryStore) → HashesDistinct s → HashesDistinct (apply call s)
unfolding apply Strings.get Strings.exists Strings.key_type Keyspace.keys Keyspace.sweep_expired
    Lists.lpush Lists.rpush Lists.lpop Lists.rpop Lists.lrange Lists.llen Hashes.hset Hashes.hget
    Hashes.hdel Hashes.hgetall Hashes.hlen
apply-HashesDistinct (Call.get key) s h =
    gated key (λ o s. Strings.get_from o key s) (get_from-Distinct key) s h
apply-HashesDistinct (Call.lpop key) s h =
    gated key (λ o s. Lists.lpop_from o key s) (lpop_from-Distinct key) s h
apply-HashesDistinct (Call.rpop key) s h =
    gated key (λ o s. Lists.rpop_from o key s) (rpop_from-Distinct key) s h
apply-HashesDistinct (Call.llen key) s h =
    gated key (λ o s. Lists.llen_of o key s) (llen_of-Distinct key) s h
apply-HashesDistinct (Call.hgetall key) s h =
    gated key (λ o s. Hashes.hgetall_of o key s) (hgetall_of-Distinct key) s h
apply-HashesDistinct (Call.hlen key) s h =
    gated key (λ o s. Hashes.hlen_of o key s) (hlen_of-Distinct key) s h
apply-HashesDistinct (Call.lpush key values) s h =
    gated key (λ o s. Lists.lpush_to o key values s) (lpush_to-Distinct key values) s h
apply-HashesDistinct (Call.rpush key values) s h =
    gated key (λ o s. Lists.rpush_to o key values s) (rpush_to-Distinct key values) s h
apply-HashesDistinct (Call.lrange key start stop) s h =
    gated key (λ o s. Lists.lrange_of o key start stop s) (lrange_of-Distinct key start stop) s h
apply-HashesDistinct (Call.hset key pairs) s h =
    gated key (λ o s. Hashes.hset_to o key pairs s) (hset_to-Distinct key pairs) s h
apply-HashesDistinct (Call.hget key field) s h =
    gated key (λ o s. Hashes.hget_of o key field s) (hget_of-Distinct key field) s h
apply-HashesDistinct (Call.hdel key fields) s h =
    gated key (λ o s. Hashes.hdel_from o key fields s) (hdel_from-Distinct key fields) s h
apply-HashesDistinct (Call.key_type key) s h = live_entry-Distinct key s h
apply-HashesDistinct (Call.exists key) s h = expire_if_needed-Distinct key s h
apply-HashesDistinct (Call.set key value ttl) s h = set-Distinct key s h value ttl
apply-HashesDistinct (Call.del key) s h = del-Distinct key s h
apply-HashesDistinct (Call.expire key seconds) s h = expire-Distinct key s h seconds
apply-HashesDistinct (Call.ttl key) s h = ttl-Distinct key s h
apply-HashesDistinct (Call.persist key) s h = persist-Distinct key s h
apply-HashesDistinct (Call.keys pattern) s h =
    keys_loop-Distinct (test (compile pattern)) (JsMap.keys s.values) [] s h
apply-HashesDistinct (Call.sweep sample_size) s h =
    remove_all-Distinct (Expiry.collect_expired s.expiry s.now sample_size).0
      (record s { expiry = (Expiry.collect_expired s.expiry s.now sample_size).1 }) h
apply-HashesDistinct (Call.advance ms) s h = h

-- From a store in which no field stands twice in a hash every sequence of calls, whatever time
-- passes between them, leads to a store of that kind.
pub run-HashesDistinct :
    (calls : List Call) (s : InMemoryStore) → HashesDistinct s → HashesDistinct (run calls s)
unfolding run
run-HashesDistinct [] s h = h
run-HashesDistinct (call ∷ calls) s h =
    run-HashesDistinct calls (apply call s) (apply-HashesDistinct call s h)
