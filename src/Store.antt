-- ===== src/Store.antt =====
-- `InMemoryStore` (store-engine/src/store/InMemoryStore.ts) and its interface `Store` (Store.ts): the
-- state, and the internals that every operation goes through. The operations are in the children
-- `Strings`, `Lists`, `Hashes` and `Keyspace`; a method takes the state last and returns its result
-- beside the new state. The clock is injected, as in the source: `now` is what it reads while one
-- synchronous operation runs. The listeners `onExpired` and `onEvicted` are the log `events`.
pub mod Strings
pub mod Invariant
pub mod Room
pub mod View
pub mod Writes
pub mod Observers
pub mod Deadlines
pub mod Effects
pub mod Lifetimes
pub mod Refusals
pub mod Proper
pub mod ProperEntries
pub mod DistinctFields
pub mod Stored
pub mod Pushes
pub mod Pops
pub mod SetFields
pub mod Fields
pub mod Matching
pub mod Growth
pub mod Calls
pub mod Keeps
pub mod Preserved
pub mod Lists
pub mod Hashes
pub mod Glob
pub mod Globs
pub mod Ranges
pub mod Keyspace
use mini_store.Prelude.{
  ℕ, ◌+◌, Bool, true, false, not, ◌&&◌, Option, none, some, List, [], ◌∷◌, ◌++◌, ltb, leb,
  if◌then◌else◌, Text, text_keyed,
}
use mini_store.JsMap
use mini_store.JsMap.{JsMap}
use mini_store.Expiry
use mini_store.Expiry.{ExpiryManager}
use mini_store.Lru
use mini_store.Lru.{LruTracker}

pub data StoredValue : Type 0 where
  string : Text → StoredValue
  list : List Text → StoredValue
  hash : JsMap Text Text → StoredValue

pub data ValueType : Type 0 where
  string_type list_type hash_type : ValueType

abbrev pub type_of : StoredValue → ValueType
type_of (string v) = string_type
type_of (list l) = list_type
type_of (hash m) = hash_type

pub data StoreResult (A : Type 0) : Type 0 where
  ok : A → StoreResult A
  wrong_type : StoreResult A

pub data Event : Type 0 where
  expired : Text → Event
  evicted : Text → Event

pub record InMemoryStore : Type 0 where
  pub values : JsMap Text StoredValue
  pub lru : LruTracker
  pub expiry : ExpiryManager
  pub max_keys : ℕ
  pub now : ℕ
  pub events : List Event
  pub eviction_count : ℕ
  pub dirty_count : ℕ

-- The constructor, at the clock reading `now`; `none` is the error that it throws.
unfoldable pub create : (max_keys now : ℕ) → Option InMemoryStore
create max_keys now =
    if ltb max_keys 1
    then none
    else some (record {
      values = [];
      lru = Lru.empty;
      expiry = Expiry.empty;
      max_keys = max_keys;
      now = now;
      events = [];
      eviction_count = 0;
      dirty_count = 0;
    })

-- The steps that the operations are made of. `touch` is `this.#lru.touch(key)`, `mark_dirty` is
-- `this.#dirtyCount++`, and `put` is `this.#values.set(key, v)`, or a change of the list or the map
-- that lies there.
abbrev pub touch : Text → InMemoryStore → InMemoryStore
touch key s = record s { lru = Lru.touch s.lru key }

abbrev pub mark_dirty : InMemoryStore → InMemoryStore
mark_dirty s = record s { dirty_count = s.dirty_count + 1 }

-- The setter of `dirtyCount`, which the engine itself never calls.
abbrev set_dirty_count : ℕ → InMemoryStore → InMemoryStore
set_dirty_count val s = record s { dirty_count = val }

abbrev pub put : Text → StoredValue → InMemoryStore → InMemoryStore
put key v s = record s { values = JsMap.set s.values key v }

abbrev pub set_deadline : Text → ℕ → InMemoryStore → InMemoryStore
set_deadline key deadline s = record s { expiry = Expiry.set s.expiry key deadline }

abbrev pub clear_deadline : Text → InMemoryStore → InMemoryStore
clear_deadline key s = record s { expiry = (Expiry.clear s.expiry key).0 }

abbrev pub notify : Event → InMemoryStore → InMemoryStore
notify e s = record s { events = s.events ++ e ∷ [] }

pub remove_key : Text → InMemoryStore → InMemoryStore
remove_key key s =
    if JsMap.has s.values key
    then record s {
      dirty_count = s.dirty_count + 1;
      values = JsMap.delete s.values key;
      lru = (Lru.delete s.lru key).0;
      expiry = (Expiry.clear s.expiry key).0;
    }
    else s

-- True exactly if the key was there and past its deadline; it is removed then.
pub expire_if_needed : Text → InMemoryStore → Bool × InMemoryStore
expire_if_needed key s =
    if not (JsMap.has s.values key)
    then (false, s)
    else if not (Expiry.is_expired s.expiry key s.now)
    then (false, s)
    else (true, notify (expired key) (remove_key key s))

pub report_victim : (was_expired : Bool) → Text → InMemoryStore → InMemoryStore
report_victim true victim s = notify (expired victim) s
report_victim false victim s =
    notify (evicted victim) (record s { eviction_count = s.eviction_count + 1 })

evict : Option Text → InMemoryStore → InMemoryStore
unfolding report_victim
evict none s = s
evict (some victim) s =
    report_victim (Expiry.is_expired s.expiry victim s.now) victim (remove_key victim s)

pub make_room_for_new_key : InMemoryStore → InMemoryStore
unfolding evict
make_room_for_new_key s = evict (Lru.peek_lru s.lru) s

pub reserve_slot_for : Text → InMemoryStore → InMemoryStore
reserve_slot_for key s =
    if not (JsMap.has s.values key) && leb s.max_keys (JsMap.size s.values)
    then make_room_for_new_key s
    else s

-- `this.#values.get(key)` behind the expiry gate, which every operation on a value passes first.
pub live_entry : Text → InMemoryStore → Option StoredValue × InMemoryStore
live_entry key s =
    let (gone, s') = expire_if_needed key s in (if gone then none else JsMap.get s'.values key, s')
