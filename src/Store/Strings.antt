-- ===== src/Store/Strings.antt =====
-- Strings, deadlines and the type probe of `InMemoryStore`.
use mini_store.Prelude.{
  ℕ, ◌+◌, ◌*◌, ◌/◌, Bool, true, false, not, ◌&&◌, ◌||◌, Option, none, some, if◌then◌else◌, ℤ, pos,
  negsuc, Text, text_keyed,
}
use mini_store.JsMap
use mini_store.Expiry
use mini_store.Store.{
  InMemoryStore, StoredValue, string, ValueType, type_of, touch, mark_dirty, put, set_deadline,
  clear_deadline, remove_key, expire_if_needed, reserve_slot_for, live_entry,
}

unfoldable pub get_from : Option StoredValue → Text → InMemoryStore → Option Text × InMemoryStore
get_from (some (string v)) key s = (some v, touch key s)
get_from _ key s = (none, s)

unfoldable pub get : Text → InMemoryStore → Option Text × InMemoryStore
unfolding get_from
get key s = let (entry, s') = live_entry key s in get_from entry key s'

-- The deadline of SET, `none` where no TTL is given.
unfoldable pub apply_ttl : Option ℕ → Text → InMemoryStore → InMemoryStore
apply_ttl (some ttl_seconds) key s = set_deadline key (s.now + ttl_seconds * 1000) s
apply_ttl none key s = clear_deadline key s

unfoldable pub set : Text → Text → Option ℕ → InMemoryStore → InMemoryStore
unfolding apply_ttl
set key value ttl_seconds s =
    let s1 = (expire_if_needed key s).1 in
    let s2 = reserve_slot_for key s1 in
    apply_ttl ttl_seconds key (mark_dirty (touch key (put key (string value) s2)))

unfoldable pub del : Text → InMemoryStore → Bool × InMemoryStore
del key s =
    let s' = (expire_if_needed key s).1 in
    if not (JsMap.has s'.values key) then (false, s') else (true, remove_key key s')

unfoldable pub expire : Text → ℕ → InMemoryStore → Bool × InMemoryStore
expire key seconds s =
    let (gone, s') = expire_if_needed key s in
    if gone
    then (false, s')
    else if not (JsMap.has s'.values key)
    then (false, s')
    else (true, mark_dirty (touch key (set_deadline key (s'.now + seconds * 1000) s')))

unfoldable pub exists : Text → InMemoryStore → Bool × InMemoryStore
exists key s = let (gone, s') = expire_if_needed key s in (not gone && JsMap.has s'.values key, s')

-- `Math.max(0, Math.ceil(remMs / 1000))`
unfoldable pub seconds_left : Option ℕ → ℤ
seconds_left none = negsuc 0
seconds_left (some rem_ms) = pos ((rem_ms + 999) / 1000)

unfoldable pub ttl : Text → InMemoryStore → ℤ × InMemoryStore
unfolding seconds_left
ttl key s =
    let (gone, s') = expire_if_needed key s in
    if gone || not (JsMap.has s'.values key)
    then (negsuc 1, s')
    else (seconds_left (Expiry.remaining_ms s'.expiry key s'.now), s')

unfoldable pub persist : Text → InMemoryStore → Bool × InMemoryStore
persist key s =
    let (gone, s') = expire_if_needed key s in
    if gone || not (JsMap.has s'.values key)
    then (false, s')
    else if not (Expiry.has s'.expiry key)
    then (false, s')
    else (true, mark_dirty (touch key (clear_deadline key s')))

abbrev pub type_if_any : Option StoredValue → Option ValueType
type_if_any none = none
type_if_any (some v) = some (type_of v)

unfoldable pub key_type : Text → InMemoryStore → Option ValueType × InMemoryStore
key_type key s = let (entry, s') = live_entry key s in (type_if_any entry, s')
