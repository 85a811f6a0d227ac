-- ===== src/Expiry.antt =====
-- `ExpiryManager` (store-engine/src/store/ExpiryManager.ts): deadlines by key, mirrored in a dense
-- array with a position index, and the rotating cursor of the sweep. Time is always an argument.
pub mod Validity
pub mod Sweep
use mini_store.Prelude.{
  ℕ, zero, suc, ◌+◌, ◌-◌, ◌%◌, Bool, true, false, Option, none, some, List, [], ◌∷◌, ◌++◌, ltb, leb,
  ◌==◌, if◌then◌else◌, length, get_elem?, set_elem, init, Text, text_keyed,
}
use Prim.Native.Nat.{min}
use mini_store.JsMap
use mini_store.JsMap.{JsMap}

pub record ExpiryManager : Type 0 where
  pub expires_at : JsMap Text ℕ
  pub key_array : List Text
  pub pos : JsMap Text ℕ
  pub cursor : ℕ

abbrev pub empty : ExpiryManager
empty = record { expires_at = []; key_array = []; pos = []; cursor = 0 }

pub size : ExpiryManager → ℕ
size e = JsMap.size e.expires_at

unfoldable pub has : ExpiryManager → Text → Bool
has e key = JsMap.has e.expires_at key

unfoldable pub set : ExpiryManager → Text → ℕ → ExpiryManager
set e key expires_at_ms =
    if JsMap.has e.expires_at key
    then record e { expires_at = JsMap.set e.expires_at key expires_at_ms }
    else record e {
      expires_at = JsMap.set e.expires_at key expires_at_ms;
      pos = JsMap.set e.pos key (length e.key_array);
      key_array = e.key_array ++ key ∷ [];
    }

-- `this.#keys[idx] = lastKey; this.#pos.set(lastKey, idx)`, skipped where `idx` is the last index.
-- An array read out of bounds is `none`; a valid manager has none.
fill_gap : (idx last_idx : ℕ) → Option Text → ExpiryManager → ExpiryManager
fill_gap idx last_idx none e = e
fill_gap idx last_idx (some last_key) e = if idx == last_idx then e else record e {
  key_array = set_elem e.key_array idx last_key;
  pos = JsMap.set e.pos last_key idx;
}

clear_at : Option ℕ → Text → ExpiryManager → ExpiryManager × Bool
unfolding fill_gap
clear_at none key e = (e, false)
clear_at (some idx) key e =
    let last_idx = length e.key_array - 1 in
    let dropped = record e {
      expires_at = JsMap.delete e.expires_at key;
      pos = JsMap.delete e.pos key;
    } in
    let filled = fill_gap idx last_idx (get_elem? e.key_array last_idx) dropped in
    (record filled { key_array = init filled.key_array }, true)

-- The new state, and whether a deadline was there.
pub clear : ExpiryManager → Text → ExpiryManager × Bool
unfolding clear_at
clear e key = clear_at (JsMap.get e.pos key) key e

-- `exp !== undefined && nowMs >= exp`
abbrev pub reached : Option ℕ → ℕ → Bool
reached none now_ms = false
reached (some exp) now_ms = leb exp now_ms

unfoldable pub is_expired : ExpiryManager → Text → ℕ → Bool
is_expired e key now_ms = reached (JsMap.get e.expires_at key) now_ms

-- `Math.max(0, exp - nowMs)` is the truncated difference.
abbrev pub time_left : Option ℕ → ℕ → Option ℕ
time_left none now_ms = none
time_left (some exp) now_ms = some (exp - now_ms)

unfoldable pub remaining_ms : ExpiryManager → Text → ℕ → Option ℕ
remaining_ms e key now_ms = time_left (JsMap.get e.expires_at key) now_ms

-- One turn of the loop of `collectExpired`, from the wrapped cursor: the key that it examines.
pub examine : ExpiryManager → ℕ → List Text
unfolding is_expired
examine e now_ms = elim (get_elem? e.key_array e.cursor) [
  | none ↦ []
  | some key ↦ if is_expired e key now_ms then key ∷ [] else []
]

abbrev pub wrap : ExpiryManager → ExpiryManager
wrap e = record e { cursor = if leb (length e.key_array) e.cursor then 0 else e.cursor }

-- The loop, with `steps` turns left.
pub collect : ℕ → ExpiryManager → ℕ → List Text → List Text × ExpiryManager
unfolding examine
collect zero e now_ms expired = (expired, e)
collect (suc steps) e now_ms expired =
    let e' = wrap e in
    collect steps (record e' { cursor = e'.cursor + 1 }) now_ms (expired ++ examine e' now_ms)

pub collect_expired : ExpiryManager → ℕ → ℕ → List Text × ExpiryManager
unfolding collect
collect_expired e now_ms limit =
    let n = length e.key_array in
    if (n == 0)
    then ([], e)
    else if (limit == 0)
    then ([], e)
    else let (expired, e') = collect (min limit n) e now_ms [] in
      (expired, record e' { cursor = e'.cursor % n })
