-- ===== src/Store/Lists.antt =====
-- Lists of `InMemoryStore`; the head is the first element.
use mini_store.Prelude.{
  ℕ, ◌-◌, Option, none, some, List, [], ◌∷◌, ◌++◌, if◌then◌else◌, ℤ, pos, negsuc, pos_part, ◌+ℤ◌,
  ltb_ℤ, length, take, drop, init, last?, Text,
}
use mini_store.Store.{
  InMemoryStore, StoredValue, list, StoreResult, ok, wrong_type, touch, mark_dirty, put, remove_key,
  reserve_slot_for, live_entry,
}

-- `for (const v of values) list.unshift(v);`
unfoldable pub unshift_all : List Text → List Text → List Text
unshift_all [] l = l
unshift_all (v ∷ values) l = unshift_all values (v ∷ l)

-- `for (const v of values) list.push(v);`
unfoldable pub push_all : List Text → List Text → List Text
push_all [] l = l
push_all (v ∷ values) l = push_all values (l ++ v ∷ [])

-- `#pushNewList` and `#pushNewListTail`: the list that is stored is the one that the loop fills.
unfoldable pub push_new : Text → List Text → InMemoryStore → StoreResult ℕ × InMemoryStore
push_new key l s = (ok (length l), touch key (put key (list l) (reserve_slot_for key s)))

unfoldable pub push_old : Text → List Text → InMemoryStore → StoreResult ℕ × InMemoryStore
push_old key l s = (ok (length l), mark_dirty (touch key (put key (list l) s)))

unfoldable pub lpush_to :
    Option StoredValue → Text → List Text → InMemoryStore → StoreResult ℕ × InMemoryStore
unfolding push_new push_old unshift_all
lpush_to none key values s = push_new key (unshift_all values []) s
lpush_to (some (list l)) key values s = push_old key (unshift_all values l) s
lpush_to (some _) key values s = (wrong_type, s)

unfoldable pub lpush : Text → List Text → InMemoryStore → StoreResult ℕ × InMemoryStore
unfolding lpush_to
lpush key values s = let (entry, s') = live_entry key s in lpush_to entry key values s'

unfoldable pub rpush_to :
    Option StoredValue → Text → List Text → InMemoryStore → StoreResult ℕ × InMemoryStore
unfolding push_new push_old push_all
rpush_to none key values s = push_new key (push_all values []) s
rpush_to (some (list l)) key values s = push_old key (push_all values l) s
rpush_to (some _) key values s = (wrong_type, s)

unfoldable pub rpush : Text → List Text → InMemoryStore → StoreResult ℕ × InMemoryStore
unfolding rpush_to
rpush key values s = let (entry, s') = live_entry key s in rpush_to entry key values s'

-- What LPOP and RPOP do with the list `rest` that is left: an empty one is dropped with its key.
unfoldable pub keep_rest : Text → List Text → InMemoryStore → InMemoryStore
keep_rest key [] s = remove_key key (put key (list []) s)
keep_rest key (x ∷ rest) s = mark_dirty (touch key (put key (list (x ∷ rest)) s))

abbrev pub head? : List Text → Option Text
head? [] = none
head? (x ∷ l) = some x

unfoldable pub lpop_from :
    Option StoredValue → Text → InMemoryStore → StoreResult (Option Text) × InMemoryStore
unfolding keep_rest
lpop_from none key s = (ok none, s)
lpop_from (some (list l)) key s = (ok (head? l), keep_rest key (drop 1 l) s)
lpop_from (some _) key s = (wrong_type, s)

unfoldable pub lpop : Text → InMemoryStore → StoreResult (Option Text) × InMemoryStore
unfolding lpop_from
lpop key s = let (entry, s') = live_entry key s in lpop_from entry key s'

unfoldable pub rpop_from :
    Option StoredValue → Text → InMemoryStore → StoreResult (Option Text) × InMemoryStore
unfolding keep_rest
rpop_from none key s = (ok none, s)
rpop_from (some (list l)) key s = (ok (last? l), keep_rest key (init l) s)
rpop_from (some _) key s = (wrong_type, s)

unfoldable pub rpop : Text → InMemoryStore → StoreResult (Option Text) × InMemoryStore
unfolding rpop_from
rpop key s = let (entry, s') = live_entry key s in rpop_from entry key s'

-- The bounds of LRANGE: negative ones count from the end.
abbrev pub from_end : ℕ → ℤ → ℤ
from_end len i = if ltb_ℤ i (pos 0) then pos len +ℤ i else i

-- `slice(from, to + 1)`, for `0 ≤ from`.
abbrev pub slice : List Text → (from stop : ℕ) → List Text
slice l from stop = take (stop - from) (drop from l)

unfoldable pub range : List Text → (start stop : ℤ) → List Text
range l start stop =
    let len = length l in
    let from = from_end len start in
    let to = from_end len stop in
    let from' = if ltb_ℤ from (pos 0) then pos 0 else from in
    let to' = if ltb_ℤ to (pos len) then to else pos len +ℤ negsuc 0 in
    if ltb_ℤ to' from' then [] else slice l (pos_part from') (pos_part (to' +ℤ pos 1))

unfoldable pub lrange_of :
    Option StoredValue
    → Text
    → (start stop : ℤ) → InMemoryStore
    → StoreResult (List Text) × InMemoryStore
unfolding range
lrange_of none key start stop s = (ok [], s)
lrange_of (some (list l)) key start stop s = (ok (range l start stop), touch key s)
lrange_of (some _) key start stop s = (wrong_type, s)

unfoldable pub lrange :
    Text → (start stop : ℤ) → InMemoryStore → StoreResult (List Text) × InMemoryStore
unfolding lrange_of
lrange key start stop s = let (entry, s') = live_entry key s in lrange_of entry key start stop s'

unfoldable pub llen_of : Option StoredValue → Text → InMemoryStore → StoreResult ℕ × InMemoryStore
llen_of none key s = (ok 0, s)
llen_of (some (list l)) key s = (ok (length l), touch key s)
llen_of (some _) key s = (wrong_type, s)

unfoldable pub llen : Text → InMemoryStore → StoreResult ℕ × InMemoryStore
unfolding llen_of
llen key s = let (entry, s') = live_entry key s in llen_of entry key s'
