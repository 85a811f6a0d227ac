-- ===== src/Store/Preserved.antt =====
-- About the calls of `InMemoryStore`: the invariant of the store, call by call.
use mini_store.Prelude.{
  ℕ, ◌+◌, ◌*◌, ◌≡◌, ◌∙◌, inl, inr, sym, ap, subst, refl, Bool, not, ◌||◌, Option, none, some, List,
  [], ◌∷◌, arith, Text, text_keyed, contains, ◌<◌, Bool-cases, is_some, ltb,
}
use mini_store.JsMap
use mini_store.Expiry
use mini_store.Expiry.{ExpiryManager}
use mini_store.Expiry.Sweep
use mini_store.Store.{
  InMemoryStore, string, touch, put, mark_dirty, set_deadline, clear_deadline, expire_if_needed,
  reserve_slot_for, create,
}
use mini_store.Store.Invariant.{
  IsValid, touch-IsValid, set_deadline-IsValid, clear_deadline-IsValid, remove_key-IsValid,
  expire_if_needed-IsValid,
}
use mini_store.Store.Keeps
use mini_store.Store.Keeps.{through_gate, store_new-IsValid, IsValid-if}
use mini_store.Store.View.{live_entry-IsValid}
use mini_store.Store.Strings
use mini_store.Store.Lists
use mini_store.Store.Hashes
use mini_store.Store.Glob.{test, compile}
use mini_store.Store.Keyspace
use mini_store.Store.Calls.{Call, apply, run}
use mini_store.Expiry.Validity
use mini_store.Expiry.Validity.{deadline}
use mini_store.Lru
use mini_store.Lru.Recency

fresh : (max_keys now : ℕ) → InMemoryStore
fresh max_keys now = record {
  values = [];
  lru = Lru.empty;
  expiry = Expiry.empty;
  max_keys = max_keys;
  now = now;
  events = [];
  eviction_count = 0;
  dirty_count = 0;
}

fresh-IsValid : (max_keys now : ℕ) → 0 < max_keys → IsValid (fresh max_keys now)
unfolding contains fresh JsMap.has JsMap.get
fresh-IsValid max_keys now h = record {
  order = [];
  tracked = Recency.Tracks-empty;
  same_keys = λ k. refl;
  expiry_valid = Validity.empty-IsValid;
  subset = λ k e. absurd (ground (arith, Validity.deadline-empty k));
  distinct = tt;
  capacity = omega arith;
  positive = h;
}

-- A new store is valid, if the constructor accepts its capacity.
pub create-IsValid :
    (max_keys now : ℕ) (s : InMemoryStore) → create max_keys now ≡ some s → IsValid s
unfolding create fresh
create-IsValid max_keys now s h = elim (Bool-cases (ltb max_keys 1)) [
  | inl refused ↦ absurd (ground arith)
  | inr accepted ↦
      let e : fresh max_keys now ≡ s = ground arith in
      subst IsValid e (fresh-IsValid max_keys now (ground arith))
]

module _ (key : Text) (s : InMemoryStore) (v : IsValid s) where
  gate : IsValid (expire_if_needed key s).1
  gate = expire_if_needed-IsValid key s v

  pub set-IsValid :
      (value : Text) (ttl_seconds : Option ℕ) → IsValid (Strings.set key value ttl_seconds s)
  unfolding Strings.set
  set-IsValid value ttl = deadline_kept ttl
    where
      s1 : InMemoryStore
      s1 = (expire_if_needed key s).1

      s2 : InMemoryStore
      s2 = mark_dirty (touch key (put key (string value) (reserve_slot_for key s1)))

      deadline_kept : (o : Option ℕ) → IsValid (Strings.apply_ttl o key s2)
      deadline_kept none =
          clear_deadline-IsValid key s2 (store_new-IsValid key (string value) s1 gate)
      deadline_kept (some t) =
          set_deadline-IsValid key s2 (store_new-IsValid key (string value) s1 gate)
            (s2.now + t * 1000)
            (ground (arith, JsMap.has-set (reserve_slot_for key s1).values key (string value) key))

  pub del-IsValid : IsValid (Strings.del key s).1
  unfolding Strings.del
  del-IsValid = elim (Bool-cases (JsMap.has (expire_if_needed key s).1.values key)) [
    | inl there ↦ rw there (remove_key-IsValid key (expire_if_needed key s).1 gate)
    | inr absent ↦ rw absent gate
  ]

  pub expire-IsValid : (seconds : ℕ) → IsValid (Strings.expire key seconds s).1
  unfolding Strings.expire
  expire-IsValid seconds = elim (Bool-cases (expire_if_needed key s).0) [
    | inl past ↦ rw past gate
    | inr fresh_key ↦ elim (Bool-cases (JsMap.has (expire_if_needed key s).1.values key)) [
      | inr absent ↦ rw (fresh_key, absent) gate
      | inl there ↦
          rw (fresh_key, there)
            (let s' = (expire_if_needed key s).1 in
              let t = s'.now + seconds * 1000 in
              touch-IsValid key (set_deadline key t s') (set_deadline-IsValid key s' gate t there)
                there)
    ]
  ]

  pub persist-IsValid : IsValid (Strings.persist key s).1
  unfolding Strings.persist
  persist-IsValid =
      let s' = (expire_if_needed key s).1 in
      elim (Bool-cases ((expire_if_needed key s).0 || not (JsMap.has s'.values key))) [
        | inl past ↦ rw past gate
        | inr here ↦ elim (Bool-cases (Expiry.has s'.expiry key)) [
          | inr persistent ↦ rw (here, persistent) gate
          | inl there ↦
              rw (here, there)
                (touch-IsValid key (clear_deadline key s') (clear_deadline-IsValid key s' gate)
                  (ground arith))
        ]
      ]

  pub ttl-IsValid : IsValid (Strings.ttl key s).1
  unfolding Strings.ttl
  ttl-IsValid =
      elim (Bool-cases
        ((expire_if_needed key s).0 || not (JsMap.has (expire_if_needed key s).1.values key))) [
          | inl past ↦ rw past gate
          | inr here ↦ rw here gate
        ]

remove_all-IsValid :
    (found : List Text) (s : InMemoryStore) → IsValid s → IsValid (Keyspace.remove_all found s)
unfolding Keyspace.remove_all
remove_all-IsValid [] s v = v
remove_all-IsValid (key ∷ found) s v = remove_all-IsValid found _ (remove_key-IsValid key s v)

pub keys_loop-IsValid :
    (matches : Text → Bool) (ks matched : List Text) (s : InMemoryStore)
    → IsValid s
    → IsValid (Keyspace.keys_loop matches ks matched s).1
unfolding Keyspace.keys_loop
keys_loop-IsValid matches [] matched s v = v
keys_loop-IsValid matches (key ∷ ks) matched s v =
    keys_loop-IsValid matches ks _ (expire_if_needed key s).1 (expire_if_needed-IsValid key s v)

-- The sweep's cursor is no part of the invariant.
swept :
    (s : InMemoryStore)
    → IsValid s
    → (limit : ℕ) → IsValid (record s { expiry = (Expiry.collect_expired s.expiry s.now limit).1 })
swept s v limit = record {
  order = v.order;
  tracked = v.tracked;
  same_keys = v.same_keys;
  expiry_valid = Sweep.collect_expired-IsValid s.expiry s.now limit v.expiry_valid;
  subset = λ k h.
      v.subset k (ap is_some (sym (Sweep.deadline-collect_expired s.expiry s.now limit k)) ∙ h);
  distinct = v.distinct;
  capacity = v.capacity;
  positive = v.positive;
}

-- Every call keeps the invariant.
pub apply-IsValid : (call : Call) (s : InMemoryStore) → IsValid s → IsValid (apply call s)
unfolding apply Strings.get Strings.exists Strings.key_type Keyspace.keys Keyspace.sweep_expired
    Lists.lpush Lists.rpush Lists.lpop Lists.rpop Lists.lrange Lists.llen Hashes.hset Hashes.hget
    Hashes.hdel Hashes.hgetall Hashes.hlen
apply-IsValid (Call.get key) s v =
    through_gate key (λ o s. Strings.get_from o key s) (Keeps.get_from-IsValid key) s v
apply-IsValid (Call.del key) s v = del-IsValid key s v
apply-IsValid (Call.exists key) s v = expire_if_needed-IsValid key s v
apply-IsValid (Call.ttl key) s v = ttl-IsValid key s v
apply-IsValid (Call.persist key) s v = persist-IsValid key s v
apply-IsValid (Call.keys pattern) s v =
    keys_loop-IsValid (test (compile pattern)) (JsMap.keys s.values) [] s v
apply-IsValid (Call.key_type key) s v = live_entry-IsValid key s v
apply-IsValid (Call.lpop key) s v =
    through_gate key (λ o s. Lists.lpop_from o key s) (Keeps.lpop_from-IsValid key) s v
apply-IsValid (Call.rpop key) s v =
    through_gate key (λ o s. Lists.rpop_from o key s) (Keeps.rpop_from-IsValid key) s v
apply-IsValid (Call.llen key) s v =
    through_gate key (λ o s. Lists.llen_of o key s) (Keeps.llen_of-IsValid key) s v
apply-IsValid (Call.hgetall key) s v =
    through_gate key (λ o s. Hashes.hgetall_of o key s) (Keeps.hgetall_of-IsValid key) s v
apply-IsValid (Call.hlen key) s v =
    through_gate key (λ o s. Hashes.hlen_of o key s) (Keeps.hlen_of-IsValid key) s v
apply-IsValid (Call.set key value ttl_seconds) s v = set-IsValid key s v value ttl_seconds
apply-IsValid (Call.expire key seconds) s v = expire-IsValid key s v seconds
apply-IsValid (Call.lpush key values) s v =
    through_gate key (λ o s. Lists.lpush_to o key values s) (Keeps.lpush_to-IsValid key values) s v
apply-IsValid (Call.rpush key values) s v =
    through_gate key (λ o s. Lists.rpush_to o key values s) (Keeps.rpush_to-IsValid key values) s v
apply-IsValid (Call.lrange key start stop) s v =
    through_gate key (λ o s. Lists.lrange_of o key start stop s)
      (Keeps.lrange_of-IsValid key start stop) s v
apply-IsValid (Call.hset key pairs) s v =
    through_gate key (λ o s. Hashes.hset_to o key pairs s) (Keeps.hset_to-IsValid key pairs) s v
apply-IsValid (Call.hget key field) s v =
    through_gate key (λ o s. Hashes.hget_of o key field s) (Keeps.hget_of-IsValid key field) s v
apply-IsValid (Call.hdel key fields) s v =
    through_gate key (λ o s. Hashes.hdel_from o key fields s) (Keeps.hdel_from-IsValid key fields) s
      v
apply-IsValid (Call.sweep sample_size) s v =
    remove_all-IsValid (Expiry.collect_expired s.expiry s.now sample_size).0
      (record s { expiry = (Expiry.collect_expired s.expiry s.now sample_size).1 })
      (swept s v sample_size)
apply-IsValid (Call.advance ms) s v = v

-- From a valid store every sequence of calls of the store, whatever time passes between them,
-- leads to a valid store: values and recency order hold the same keys, every deadline is that of
-- a stored key, the linked list and the dense array are intact, and there are no more keys than
-- the capacity.
pub run-IsValid : (calls : List Call) (s : InMemoryStore) → IsValid s → IsValid (run calls s)
unfolding run
run-IsValid [] s v = v
run-IsValid (call ∷ calls) s v = run-IsValid calls (apply call s) (apply-IsValid call s v)
