-- ===== src/Persistence.antt =====
-- `PersistenceManager` (store-engine/src/store/PersistenceManager.ts): snapshots. The dump is the object
-- that is written as JSON, and reads back as it was. A save runs in two steps, up to its first `await`
-- and from the end of the file operations on; what happens in between is up to the other parts.
pub mod Saving
pub mod Reading
pub mod Dumping
pub mod Placing
pub mod Restoring
pub mod Shapes
pub mod RoundTrip
use mini_store.Prelude.{
  ℕ, ◌+◌, Bool, true, false, not, Option, none, some, List, [], ◌∷◌, ltb, ◌==◌, if◌then◌else◌, ℤ,
  pos, negsuc, Text, text_keyed,
}
use mini_store.JsMap
use mini_store.JsMap.{JsMap}
use mini_store.JsObject
use mini_store.Store.{
  InMemoryStore, StoreResult, ok, wrong_type, ValueType, string_type, list_type, hash_type,
}
use mini_store.Store.Strings
use mini_store.Store.Lists
use mini_store.Store.Hashes
use mini_store.Store.Keyspace

-- The field `type` is the constructor.
pub data SerializedValue : Type 0 where
  text : Text → SerializedValue
  texts : List Text → SerializedValue
  fields : JsMap Text Text → SerializedValue

pub record SerializedKey : Type 0 where
  pub value : SerializedValue
  pub ttl : Option ℕ

abbrev pub Dump : Type 0
Dump = JsMap Text SerializedKey

-- The loop that makes an object of fields and values in turn.
unfoldable pub pair_up : List Text → JsMap Text Text → JsMap Text Text
pair_up (field ∷ value ∷ rest) obj = pair_up rest (JsObject.assign obj field value)
pair_up _ obj = obj

abbrev pub if_text : Option Text → Option SerializedValue
if_text none = none
if_text (some v) = some (text v)

abbrev pub if_texts : StoreResult (List Text) → Option SerializedValue
if_texts (ok l) = some (texts l)
if_texts wrong_type = none

unfoldable pub if_fields : StoreResult (List Text) → Option SerializedValue
unfolding pair_up
if_fields (ok l) = some (fields (pair_up l []))
if_fields wrong_type = none

-- The value of a key by its type.
unfoldable pub value_of : ValueType → Text → InMemoryStore → Option SerializedValue × InMemoryStore
unfolding if_fields
value_of string_type key s = let (v, s') = Strings.get key s in (if_text v, s')
value_of list_type key s =
    let (res, s') = Lists.lrange key (pos 0) (negsuc 0) s in (if_texts res, s')
value_of hash_type key s = let (res, s') = Hashes.hgetall key s in (if_fields res, s')

-- `if (ttl >= 0) serialized.ttl = ttl`
abbrev pub if_natural : ℤ → Option ℕ
if_natural (pos n) = some n
if_natural (negsuc n) = none

abbrev pub store_serialized :
    Text → Option SerializedValue → Dump → InMemoryStore → Dump × InMemoryStore
store_serialized key none dump s = (dump, s)
store_serialized key (some v) dump s =
    let (ttl, s') = Strings.ttl key s in
    (JsObject.assign dump key (record { value = v; ttl = if_natural ttl }), s')

abbrev pub serialize_typed : Option ValueType → Text → Dump → InMemoryStore → Dump × InMemoryStore
serialize_typed none key dump s = (dump, s)
serialize_typed (some type) key dump s =
    let (v, s') = value_of type key s in store_serialized key v dump s'

-- The body of the loop over the keys.
unfoldable pub serialize : Text → Dump → InMemoryStore → Dump × InMemoryStore
unfolding value_of
serialize key dump s = let (type, s') = Strings.key_type key s in serialize_typed type key dump s'

unfoldable pub serialize_all : List Text → Dump → InMemoryStore → Dump × InMemoryStore
unfolding serialize
serialize_all [] dump s = (dump, s)
serialize_all (key ∷ keys) dump s =
    let (dump', s') = serialize key dump s in serialize_all keys dump' s'

unfoldable pub make_dump : InMemoryStore → Dump × InMemoryStore
unfolding serialize_all
make_dump s = let (keys, s') = Keyspace.keys (b'*' ∷ []) s in serialize_all keys [] s'

-- What lies under the dump's path. `unreadable` is a file that cannot be read, is no JSON, or holds
-- entries of which one makes `restore` throw.
pub data File : Type 0 where
  missing unreadable : File
  holds : Dump → File

-- `pending` is a save between its two steps: the dump and the count taken in front of it.
pub record PersistenceManager : Type 0 where
  pub store : InMemoryStore
  pub running : Bool
  pub last_saved_dirty_count : ℕ
  pub save_in_progress : Bool
  pub pending : Option (Dump × ℕ)
  pub file : File

abbrev pub start : PersistenceManager → PersistenceManager
start p = if p.running then p else record p { running = true }

abbrev pub stop : PersistenceManager → PersistenceManager
stop p = if p.running then record p { running = false } else p

-- `save` to its first `await`; false is the error that a save is in progress.
unfoldable pub begin_save : PersistenceManager → Bool × PersistenceManager
unfolding make_dump
begin_save p =
    let (dump, s) = make_dump p.store in
    if p.save_in_progress then (false, p) else (
      true,
      record p { store = s; save_in_progress = true; pending = some (dump, p.store.dirty_count) },
    )

abbrev pub complete : (written : Bool) → Option (Dump × ℕ) → PersistenceManager → PersistenceManager
complete written none p = p
complete false (some saved) p = record p { save_in_progress = false; pending = none }
complete true (some (dump, count)) p = record p {
  save_in_progress = false;
  pending = none;
  file = holds dump;
  last_saved_dirty_count = count;
}

-- The rest of `save`; `written` is false where a file operation threw.
unfoldable pub end_save : (written : Bool) → PersistenceManager → PersistenceManager
end_save written p = complete written p.pending p

-- The timer's callback; an error of `save` is logged.
unfoldable pub check_and_save : PersistenceManager → PersistenceManager
unfolding begin_save
check_and_save p = if p.store.dirty_count == p.last_saved_dirty_count then p else (begin_save p).1

abbrev pub expire_if_given : Option ℕ → Text → InMemoryStore → InMemoryStore
expire_if_given none key s = s
expire_if_given (some seconds) key s = (Strings.expire key seconds s).1

unfoldable pub put_back : Text → SerializedValue → Option ℕ → InMemoryStore → InMemoryStore
put_back key (text v) ttl s = Strings.set key v ttl s
put_back key (texts l) ttl s = expire_if_given ttl key (Lists.rpush key l s).1
put_back key (fields obj) ttl s =
    expire_if_given ttl key (Hashes.hset key (JsObject.entries obj) s).1

-- `serialized.ttl !== undefined && serialized.ttl <= 0`
abbrev pub is_over : Option ℕ → Bool
is_over none = false
is_over (some seconds) = seconds == 0

-- The loop of `restore`, with the number of keys restored.
unfoldable pub restore_all : List (Text × SerializedKey) → ℕ → InMemoryStore → ℕ × InMemoryStore
unfolding put_back
restore_all [] restored s = (restored, s)
restore_all ((key, serialized) ∷ rest) restored s =
    let back = put_back key serialized.value serialized.ttl s in
    let skipped = restore_all rest restored s in
    let taken = restore_all rest (restored + 1) back in
    if is_over serialized.ttl then skipped else taken

-- `none` is the error that is thrown; what was put back in front of it goes down with the process.
abbrev pub restore_from : File → PersistenceManager → Option ℕ × PersistenceManager
restore_from missing p = (some 0, p)
restore_from unreadable p = (none, p)
restore_from (holds dump) p =
    let (restored, s) = restore_all (JsObject.entries dump) 0 p.store in
    (some restored, record p { store = s; last_saved_dirty_count = s.dirty_count })

unfoldable pub restore : PersistenceManager → Option ℕ × PersistenceManager
unfolding restore_all
restore p = restore_from p.file p
