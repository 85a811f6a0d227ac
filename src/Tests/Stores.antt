-- ===== src/Tests/Stores.antt =====
-- `InMemoryStore` on a small session: a store for two keys.
use mini_store.Prelude.{
  false, last?, ◌*◌, ◌+◌, Text-discrete, ite, is_some, if◌then◌else◌, length, ◌≡◌, refl, none, some,
  List, [], ◌∷◌, arith, Text, negsuc, text_keyed, ◌⊎◌, ◌<◌, ◌≤◌, true,
}
use mini_store.Store.Room.{victim_for, is_victim}
use mini_store.Store.{InMemoryStore, string, create, expire_if_needed, reserve_slot_for}
use mini_store.JsMap
use mini_store.Expiry
use mini_store.Lru
use mini_store.Store.Invariant.{IsValid}
use mini_store.Store.Calls.{Call, run}
use mini_store.Store.Preserved.{create-IsValid, run-IsValid}
use mini_store.Store.View.{SameView, value_at, deadline_at, expire_if_needed-SameView}
use mini_store.Store.Effects
use mini_store.Store.Ranges
use mini_store.Store.Room
use mini_store.Store.Lifetimes
use mini_store.Store.Observers
use mini_store.Store.Room
use mini_store.Store.Strings
use mini_store.Store.Lists

abbrev a : Text
a = b'a' ∷ []

abbrev b : Text
b = b'b' ∷ []

abbrev c : Text
c = b'c' ∷ []

abbrev pub start : InMemoryStore
start = record {
  values = [];
  lru = Lru.empty;
  expiry = Expiry.empty;
  max_keys = 2;
  now = 1000;
  events = [];
  eviction_count = 0;
  dirty_count = 0;
}

pub start-IsValid : IsValid start
unfolding create
start-IsValid = create-IsValid 2 1000 start refl

-- SET a 7 EX 5, RPUSH b 8 9, and six seconds.
abbrev session : List Call
session =
    Call.set a (7 ∷ []) (some 5) ∷ Call.rpush b ((8 ∷ []) ∷ (9 ∷ []) ∷ []) ∷ Call.advance 2000 ∷ []

abbrev busy : InMemoryStore
busy = run session start

busy-IsValid : IsValid busy
busy-IsValid = run-IsValid session start start-IsValid

abbrev late : InMemoryStore
late = run (Call.advance 4000 ∷ []) busy

late-IsValid : IsValid late
late-IsValid = run-IsValid (Call.advance 4000 ∷ []) busy busy-IsValid

run-IsValid_example : IsValid (run session start)
run-IsValid_example = run-IsValid session start start-IsValid

expire_if_needed-SameView_example : SameView late (expire_if_needed a late).1
expire_if_needed-SameView_example = expire_if_needed-SameView a late late-IsValid

-- A third key evicts `a`, the least recently used one.
set_lem_example :
    (value_at (Strings.set c (1 ∷ []) none busy) a
      ≡ ite
          (Text-discrete c a)
          (some (string (1 ∷ [])))
          (if is_victim (Effects.evicted_by c busy) a then none else value_at busy a))
    × (deadline_at (Strings.set c (1 ∷ []) none busy) a
        ≡ ite
            (Text-discrete c a)
            none
            (if is_victim (Effects.evicted_by c busy) a then none else deadline_at busy a))
set_lem_example = Effects.set_lem c busy busy-IsValid (1 ∷ []) none tt a

expire_lem_example :
    ((Strings.expire b 3 busy).0 ≡ is_some (value_at busy b))
    × ((j : Text) → value_at (Strings.expire b 3 busy).1 j ≡ value_at busy j)
    × ((j : Text)
        → deadline_at (Strings.expire b 3 busy).1 j ≡ (
            if is_some (value_at busy b)
            then ite (Text-discrete b j) (some (busy.now + 3 * 1000)) (deadline_at busy j)
            else deadline_at busy j))
expire_lem_example = Lifetimes.expire_lem b busy busy-IsValid 3 (omega arith)

del_lem_example :
    ((Strings.del a busy).0 ≡ is_some (value_at busy a))
    × ((j : Text)
        → value_at (Strings.del a busy).1 j ≡ ite (Text-discrete a j) none (value_at busy j))
    × ((j : Text)
        → deadline_at (Strings.del a busy).1 j ≡ ite (Text-discrete a j) none (deadline_at busy j))
del_lem_example = Effects.del_lem a busy busy-IsValid

strings_observe_example :
    ((Strings.get a busy).0 ≡ Observers.string_of (value_at busy a))
    × ((Strings.exists a busy).0 ≡ is_some (value_at busy a))
    × ((Strings.key_type a busy).0 ≡ Strings.type_if_any (value_at busy a))
strings_observe_example = Observers.strings_observe a busy busy-IsValid

ttl_observes_example : (Strings.ttl a busy).0 ≡ (
    if is_some (value_at busy a)
    then Observers.seconds_at (deadline_at busy a) busy.now
    else negsuc 1)
ttl_observes_example = Observers.ttl_observes a busy busy-IsValid

ranges_observe_example :
    ((Lists.llen b busy).0 ≡ Observers.list_of 0 length (value_at busy b))
    × ((Lists.lrange b (negsuc 1) (negsuc 0) busy).0
        ≡ Observers.list_of [] (Ranges.selected (negsuc 1) (negsuc 0)) (value_at busy b))
ranges_observe_example = Ranges.ranges_observe b busy busy-IsValid (negsuc 1) (negsuc 0)

reserve_slot_for_lem_example :
    (reserve_slot_for c busy ≡ busy)
      × ((JsMap.has busy.values c ≡ true) ⊎ (JsMap.size busy.values < busy.max_keys))
    ⊎ ((victim : Text) × (last? busy-IsValid.order ≡ some victim)
        × (JsMap.has busy.values c ≡ false)
        × (busy.max_keys ≤ JsMap.size busy.values)
        × Room.Evicts victim busy (reserve_slot_for c busy))
reserve_slot_for_lem_example = Room.reserve_slot_for_lem c busy busy-IsValid
