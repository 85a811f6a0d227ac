-- ===== src/Store/Growth.antt =====
-- About the number of keys: a writing call adds one at most, and leaves the clock and the capacity.
use mini_store.Prelude.{
  ℕ, ◌+◌, ◌≤◌, ◌<◌, ◌≡◌, refl, inl, inr, Bool, true, false, not, ◌&&◌, Option, none, some, List, [],
  ◌∷◌, arith, leb, Text, text_keyed, Bool-cases,
}
use mini_store.JsMap
use mini_store.Lru
use mini_store.Expiry
use mini_store.Store.{
  InMemoryStore, StoredValue, string, list, hash, touch, put, mark_dirty, remove_key,
  expire_if_needed, live_entry, reserve_slot_for, make_room_for_new_key, evict, report_victim,
}
use mini_store.Store.Room.{victim_for}
use mini_store.Store.Effects.{evicted_by}
use mini_store.Store.Strings
use mini_store.Store.Lists
use mini_store.Store.Hashes

abbrev pub Grows : (by : ℕ) → (s t : InMemoryStore) → Type 0
Grows by s t =
    (t.now ≡ s.now) × (t.max_keys ≡ s.max_keys) × (JsMap.size t.values ≤ JsMap.size s.values + by)

Grows-trans : (a b : ℕ) (s t u : InMemoryStore) → Grows a s t → Grows b t u → Grows (a + b) s u
Grows-trans a b s t u (n1, m1, l1) (n2, m2, l2) = ground arith

size-delete_le :
    (m : JsMap.JsMap Text StoredValue) (k : Text) → JsMap.size (JsMap.delete m k) ≤ JsMap.size m
unfolding JsMap.delete
size-delete_le [] k = omega arith
size-delete_le ((j, w) ∷ m) k = ground (arith, size-delete_le m k)

size-set_le :
    (m : JsMap.JsMap Text StoredValue) (k : Text) (w : StoredValue)
    → JsMap.size (JsMap.set m k w) ≤ JsMap.size m + 1
size-set_le m k w = elim (Bool-cases (JsMap.has m k)) [
  | inl old ↦ ground (arith, JsMap.size-set_old m k w old)
  | inr new ↦ ground (arith, JsMap.size-set_new m k w new)
]

remove_key-Grows : (key : Text) (s : InMemoryStore) → Grows 0 s (remove_key key s)
unfolding remove_key
remove_key-Grows key s = ground (arith, size-delete_le s.values key)

expire_if_needed-Grows : (key : Text) (s : InMemoryStore) → Grows 0 s (expire_if_needed key s).1
unfolding expire_if_needed
expire_if_needed-Grows key s = ground (arith, remove_key-Grows key s)

report_victim-Grows :
    (b : Bool) (victim : Text) (s : InMemoryStore) → Grows 0 s (report_victim b victim s)
unfolding report_victim
report_victim-Grows true victim s = (refl, refl, omega arith)
report_victim-Grows false victim s = (refl, refl, omega arith)

evict-Grows : (o : Option Text) (s : InMemoryStore) → Grows 0 s (evict o s)
unfolding evict
evict-Grows none s = (refl, refl, omega arith)
evict-Grows (some victim) s =
    Grows-trans 0 0 s (remove_key victim s)
      (report_victim (Expiry.is_expired s.expiry victim s.now) victim (remove_key victim s))
      (remove_key-Grows victim s)
      (report_victim-Grows (Expiry.is_expired s.expiry victim s.now) victim (remove_key victim s))

reserve_slot_for-Grows : (key : Text) (s : InMemoryStore) → Grows 0 s (reserve_slot_for key s)
unfolding reserve_slot_for make_room_for_new_key
reserve_slot_for-Grows key s =
    elim (Bool-cases (not (JsMap.has s.values key) && leb s.max_keys (JsMap.size s.values))) [
      | inl full ↦ rw full (evict-Grows (Lru.peek_lru s.lru) s)
      | inr room ↦ rw room (refl, refl, omega arith)
    ]

put-Grows : (key : Text) (w : StoredValue) (s : InMemoryStore) → Grows 1 s (put key w s)
put-Grows key w s = (refl, refl, size-set_le s.values key w)

module _ (key : Text) (s : InMemoryStore) where
  live_entry-Grows : Grows 0 s (live_entry key s).1
  unfolding live_entry
  live_entry-Grows = expire_if_needed-Grows key s

  new-Grows : (w : StoredValue) → Grows 1 s (put key w (reserve_slot_for key s))
  new-Grows w =
      Grows-trans 0 1 s (reserve_slot_for key s) (put key w (reserve_slot_for key s))
        (reserve_slot_for-Grows key s) (put-Grows key w (reserve_slot_for key s))

  -- A store with room evicts nothing.
  pub room_keeps : JsMap.size s.values < s.max_keys → evicted_by key s ≡ none
  unfolding victim_for
  room_keeps room = ground (arith, expire_if_needed-Grows key s)

apply_ttl-Grows :
    (ttl : Option ℕ) (key : Text) (s : InMemoryStore) → Grows 0 s (Strings.apply_ttl ttl key s)
unfolding Strings.apply_ttl
apply_ttl-Grows none key s = (refl, refl, omega arith)
apply_ttl-Grows (some n) key s = (refl, refl, omega arith)

rpush_to-Grows :
    (o : Option StoredValue) (key : Text) (values : List Text) (s : InMemoryStore)
    → Grows 1 s (Lists.rpush_to o key values s).1
unfolding Lists.rpush_to Lists.push_new Lists.push_old
rpush_to-Grows none key values s = new-Grows key s (list (Lists.push_all values []))
rpush_to-Grows (some (list l)) key values s = put-Grows key (list (Lists.push_all values l)) s
rpush_to-Grows (some (string x)) key values s = (refl, refl, omega arith)
rpush_to-Grows (some (hash m)) key values s = (refl, refl, omega arith)

mark_if_any-Grows :
    (pairs : List (Text × Text)) (s t : InMemoryStore)
    → Grows 1 s t
    → Grows 1 s (Hashes.mark_if_any pairs t)
mark_if_any-Grows [] s t g = g
mark_if_any-Grows (p ∷ pairs) s t g = g

hset_to-Grows :
    (o : Option StoredValue) (key : Text) (pairs : List (Text × Text)) (s : InMemoryStore)
    → Grows 1 s (Hashes.hset_to o key pairs s).1
unfolding Hashes.hset_to
hset_to-Grows none key pairs s =
    mark_if_any-Grows pairs s
      (touch key (put key (hash (Hashes.set_fields pairs [] 0).0) (reserve_slot_for key s)))
      (new-Grows key s (hash (Hashes.set_fields pairs [] 0).0))
hset_to-Grows (some (hash m)) key pairs s =
    mark_if_any-Grows pairs s (touch key (put key (hash (Hashes.set_fields pairs m 0).0) s))
      (put-Grows key (hash (Hashes.set_fields pairs m 0).0) s)
hset_to-Grows (some (string x)) key pairs s = (refl, refl, omega arith)
hset_to-Grows (some (list l)) key pairs s = (refl, refl, omega arith)

module _ (key : Text) (s : InMemoryStore) where
  pub set-Grows : (value : Text) (ttl : Option ℕ) → Grows 1 s (Strings.set key value ttl s)
  unfolding Strings.set
  set-Grows value ttl =
      let s1 = (expire_if_needed key s).1 in
      let s2 = mark_dirty (touch key (put key (string value) (reserve_slot_for key s1))) in
      ground (
        arith,
        expire_if_needed-Grows key s,
        new-Grows key s1 (string value),
        apply_ttl-Grows ttl key s2,
      )

  pub rpush-Grows : (values : List Text) → Grows 1 s (Lists.rpush key values s).1
  unfolding Lists.rpush
  rpush-Grows values =
      Grows-trans 0 1 s (live_entry key s).1
        (Lists.rpush_to (live_entry key s).0 key values (live_entry key s).1).1 live_entry-Grows0
        (rpush_to-Grows (live_entry key s).0 key values (live_entry key s).1)
    where
      live_entry-Grows0 : Grows 0 s (live_entry key s).1
      live_entry-Grows0 = live_entry-Grows key s

  pub hset-Grows : (pairs : List (Text × Text)) → Grows 1 s (Hashes.hset key pairs s).1
  unfolding Hashes.hset
  hset-Grows pairs =
      Grows-trans 0 1 s (live_entry key s).1
        (Hashes.hset_to (live_entry key s).0 key pairs (live_entry key s).1).1
        (live_entry-Grows key s) (hset_to-Grows (live_entry key s).0 key pairs (live_entry key s).1)

  pub expire-Grows : (seconds : ℕ) → Grows 0 s (Strings.expire key seconds s).1
  unfolding Strings.expire
  expire-Grows seconds = ground (arith, expire_if_needed-Grows key s)
