-- ===== src/Tests/Writing.antt =====
-- Lists, hashes and KEYS on the small session of `Stores`.
use mini_store.Prelude.{
  ◌≡◌, ◌++◌, refl, none, some, is_some, [], ◌∷◌, reverse, Text, Text-discrete, text_keyed,
  ℕ_discrete, ◌≢◌, ap, arith,
}
use mini_store.Store.{InMemoryStore, list, hash, ok, list_type, hash_type}
use mini_store.Store.Invariant.{IsValid}
use mini_store.Store.Calls.{Call, run, apply}
use mini_store.Store.Preserved.{run-IsValid}
use mini_store.Store.View.{value_at}
use mini_store.Store.Effects.{evicted_by}
use mini_store.Store.Pushes.{Pushes, pushes_lem}
use mini_store.Store.Pops.{Leaves, lpop_lem}
use mini_store.Store.Refusals.{Refuses, other_kind-Refuses}
use mini_store.Store.Strings
use mini_store.Store.Lists
use mini_store.Store.Fields.{Drops, hdel_lem}
use mini_store.Store.SetFields.{Fills, hset-SetsFields, hset_lem}
use mini_store.Store.Matching.{Finds, keys_lem}
use mini_store.Store.Proper.{set_fields-Distinct}
use mini_store.Store.Hashes
use mini_store.Store.Keyspace
use mini_store.Tests.Stores.{start, start-IsValid}
use mini_store.Persistence.RoundTrip.{empty_unseen}

abbrev q : Text
q = b'q' ∷ []

abbrev h : Text
h = b'h' ∷ []

nothing_there : value_at start q ≡ none
nothing_there = (empty_unseen start start-IsValid refl q).0

pushes_lem_example :
    Pushes q
      (reverse ((8 ∷ []) ∷ (9 ∷ []) ∷ []) ++ [])
      (evicted_by q start)
      start
      (Lists.lpush q ((8 ∷ []) ∷ (9 ∷ []) ∷ []) start)
    × Pushes q
        ([] ++ (8 ∷ []) ∷ (9 ∷ []) ∷ [])
        (evicted_by q start)
        start
        (Lists.rpush q ((8 ∷ []) ∷ (9 ∷ []) ∷ []) start)
pushes_lem_example =
    pushes_lem q start start-IsValid ((8 ∷ []) ∷ (9 ∷ []) ∷ []) [] (rw nothing_there refl)

-- RPUSH q 8 9
abbrev queued : InMemoryStore
queued = (Lists.rpush q ((8 ∷ []) ∷ (9 ∷ []) ∷ []) start).1

queued-IsValid : IsValid queued
unfolding run apply
queued-IsValid = run-IsValid (Call.rpush q ((8 ∷ []) ∷ (9 ∷ []) ∷ []) ∷ []) start start-IsValid

queued_value : value_at queued q ≡ some (list ((8 ∷ []) ∷ (9 ∷ []) ∷ []))
unfolding Text-discrete ℕ_discrete
queued_value = pushes_lem_example.1.1.0 q

a_list : Strings.type_if_any (value_at queued q) ≡ some list_type
a_list = ap Strings.type_if_any queued_value

no_hash : Strings.type_if_any (value_at queued q) ≢ some hash_type
no_hash p = ground (arith, a_list)

other_kind-Refuses_example : Refuses hash_type q queued
other_kind-Refuses_example =
    other_kind-Refuses q queued queued-IsValid (ap is_some queued_value) hash_type no_hash

lpop_lem_example :
    ((Lists.lpop q queued).0 ≡ ok (some (8 ∷ [])))
    × Leaves q ((9 ∷ []) ∷ []) queued (Lists.lpop q queued).1
lpop_lem_example = lpop_lem q queued queued-IsValid (8 ∷ []) ((9 ∷ []) ∷ []) queued_value

hset_lem_example :
    Fills h
      ((q, 1 ∷ []) ∷ [])
      []
      (evicted_by h start)
      start
      (Hashes.hset h ((q, 1 ∷ []) ∷ []) start)
hset_lem_example =
    hset_lem h start start-IsValid ((q, 1 ∷ []) ∷ []) []
      (rw ((empty_unseen start start-IsValid refl h).0) refl)

-- HSET h q 1
abbrev hashed : InMemoryStore
hashed = (Hashes.hset h ((q, 1 ∷ []) ∷ []) start).1

hashed-IsValid : IsValid hashed
unfolding run apply
hashed-IsValid = run-IsValid (Call.hset h ((q, 1 ∷ []) ∷ []) ∷ []) start start-IsValid

hashed_value : value_at hashed h ≡ some (hash (Hashes.set_fields ((q, 1 ∷ []) ∷ []) [] 0).0)
unfolding Text-discrete ℕ_discrete
hashed_value =
    (hset-SetsFields h start start-IsValid ((q, 1 ∷ []) ∷ []) []
        (rw ((empty_unseen start start-IsValid refl h).0) refl)).1.0
      h

hdel_lem_example :
    Drops h
      (q ∷ [])
      (Hashes.set_fields ((q, 1 ∷ []) ∷ []) [] 0).0
      hashed
      (Hashes.hdel h (q ∷ []) hashed)
hdel_lem_example =
    hdel_lem h hashed hashed-IsValid (q ∷ []) (Hashes.set_fields ((q, 1 ∷ []) ∷ []) [] 0).0
      hashed_value (set_fields-Distinct ((q, 1 ∷ []) ∷ []) [] 0 tt)

keys_lem_example : Finds (b'*' ∷ []) hashed (Keyspace.keys (b'*' ∷ []) hashed)
keys_lem_example = keys_lem hashed hashed-IsValid (b'*' ∷ [])
