-- ===== src/Store/Hashes.antt =====
-- Hashes of `InMemoryStore`: a map of fields in insertion order.
use mini_store.Prelude.{
  ℕ, ◌+◌, Option, none, some, List, [], ◌∷◌, if◌then◌else◌, ltb, ◌==◌, Text, text_keyed,
}
use mini_store.JsMap
use mini_store.JsMap.{JsMap}
use mini_store.Store.{
  InMemoryStore, StoredValue, hash, StoreResult, ok, wrong_type, touch, mark_dirty, put, remove_key,
  reserve_slot_for, live_entry,
}

-- The loop of HSET: the map, and how many fields are new.
unfoldable pub set_fields : List (Text × Text) → JsMap Text Text → ℕ → JsMap Text Text × ℕ
set_fields [] m added = (m, added)
set_fields ((field, value) ∷ pairs) m added =
    set_fields pairs (JsMap.set m field value) (if JsMap.has m field then added else added + 1)

abbrev pub mark_if_any : List (Text × Text) → InMemoryStore → InMemoryStore
mark_if_any [] s = s
mark_if_any (p ∷ pairs) s = mark_dirty s

-- The map of a new key is stored before the loop fills it.
unfoldable pub hset_to :
    Option StoredValue → Text → List (Text × Text) → InMemoryStore → StoreResult ℕ × InMemoryStore
unfolding set_fields
hset_to none key pairs s =
    let (m, added) = set_fields pairs [] 0 in
    (ok added, mark_if_any pairs (touch key (put key (hash m) (reserve_slot_for key s))))
hset_to (some (hash m)) key pairs s =
    let (m', added) = set_fields pairs m 0 in
    (ok added, mark_if_any pairs (touch key (put key (hash m') s)))
hset_to (some _) key pairs s = (wrong_type, s)

unfoldable pub hset : Text → List (Text × Text) → InMemoryStore → StoreResult ℕ × InMemoryStore
unfolding hset_to
hset key pairs s = let (entry, s') = live_entry key s in hset_to entry key pairs s'

unfoldable pub hget_of :
    Option StoredValue → Text → Text → InMemoryStore → StoreResult (Option Text) × InMemoryStore
hget_of none key field s = (ok none, s)
hget_of (some (hash m)) key field s = (ok (JsMap.get m field), touch key s)
hget_of (some _) key field s = (wrong_type, s)

unfoldable pub hget : Text → Text → InMemoryStore → StoreResult (Option Text) × InMemoryStore
unfolding hget_of
hget key field s = let (entry, s') = live_entry key s in hget_of entry key field s'

-- The loop of HDEL: the map, and how many fields were there.
unfoldable pub delete_fields : List Text → JsMap Text Text → ℕ → JsMap Text Text × ℕ
delete_fields [] m removed = (m, removed)
delete_fields (field ∷ fields) m removed =
    delete_fields fields (JsMap.delete m field) (if JsMap.has m field then removed + 1 else removed)

unfoldable pub hdel_from :
    Option StoredValue → Text → List Text → InMemoryStore → StoreResult ℕ × InMemoryStore
unfolding delete_fields
hdel_from none key fields s = (ok 0, s)
hdel_from (some (hash m)) key fields s =
    let (m', removed) = delete_fields fields m 0 in
    let s' = put key (hash m') s in
    (
      ok removed,
      if JsMap.size m' == 0
          then remove_key key s'
          else if ltb 0 removed
          then mark_dirty (touch key s')
          else s',
    )
hdel_from (some _) key fields s = (wrong_type, s)

unfoldable pub hdel : Text → List Text → InMemoryStore → StoreResult ℕ × InMemoryStore
unfolding hdel_from
hdel key fields s = let (entry, s') = live_entry key s in hdel_from entry key fields s'

-- Fields and values in turn.
unfoldable pub entries : JsMap Text Text → List Text
entries [] = []
entries ((field, value) ∷ m) = field ∷ value ∷ entries m

unfoldable pub hgetall_of :
    Option StoredValue → Text → InMemoryStore → StoreResult (List Text) × InMemoryStore
unfolding entries
hgetall_of none key s = (ok [], s)
hgetall_of (some (hash m)) key s = (ok (entries m), touch key s)
hgetall_of (some _) key s = (wrong_type, s)

unfoldable pub hgetall : Text → InMemoryStore → StoreResult (List Text) × InMemoryStore
unfolding hgetall_of
hgetall key s = let (entry, s') = live_entry key s in hgetall_of entry key s'

unfoldable pub hlen_of : Option StoredValue → Text → InMemoryStore → StoreResult ℕ × InMemoryStore
hlen_of none key s = (ok 0, s)
hlen_of (some (hash m)) key s = (ok (JsMap.size m), touch key s)
hlen_of (some _) key s = (wrong_type, s)

unfoldable pub hlen : Text → InMemoryStore → StoreResult ℕ × InMemoryStore
unfolding hlen_of
hlen key s = let (entry, s') = live_entry key s in hlen_of entry key s'
