-- ===== src/Store/Keyspace.antt =====
-- The operations of `InMemoryStore` on all keys: KEYS, the sweep, and the walk in order of use.
use mini_store.Prelude.{
  ℕ, zero, suc, Bool, not, ◌&&◌, Option, none, some, List, [], ◌∷◌, ◌++◌, if◌then◌else◌, length,
  Text, text_keyed,
}
use mini_store.JsMap
use mini_store.Expiry
use mini_store.Lru.{Ref}
use mini_store.Store.{InMemoryStore, expired, notify, remove_key, expire_if_needed}
use mini_store.Store.Glob.{compile, test}

-- The loop of `keys`, over the keys that the map holds when it starts: in its course a key is
-- deleted only when it is its turn.
unfoldable pub keys_loop :
    (Text → Bool) → List Text → List Text → InMemoryStore → List Text × InMemoryStore
keys_loop matches [] matched s = (matched, s)
keys_loop matches (key ∷ rest) matched s =
    let (gone, s') = expire_if_needed key s in
    keys_loop matches rest (if not gone && matches key then matched ++ key ∷ [] else matched) s'

unfoldable pub keys : Text → InMemoryStore → List Text × InMemoryStore
unfolding keys_loop
keys pattern s = keys_loop (test (compile pattern)) (JsMap.keys s.values) [] s

-- The loop of `sweepExpired`.
unfoldable pub remove_all : List Text → InMemoryStore → InMemoryStore
remove_all [] s = s
remove_all (key ∷ rest) s = remove_all rest (notify (expired key) (remove_key key s))

unfoldable pub sweep_expired : ℕ → InMemoryStore → ℕ × InMemoryStore
unfolding remove_all
sweep_expired sample_size s =
    let (found, expiry') = Expiry.collect_expired s.expiry s.now sample_size in
    (length found, remove_all found (record s { expiry = expiry' }))

-- `keysMRU`: the generator of the tracker runs step by step with the consumer, who may remove the
-- node at which it stands before it reads that node's `next`.
unfoldable pub mru_loop :
    ℕ → Option Ref → List Text → InMemoryStore → Option (List Text × InMemoryStore)
mru_loop fuel none yielded s = some (yielded, s)
mru_loop zero (some r) yielded s = none
mru_loop (suc fuel) (some r) yielded s =
    let key = (s.lru.heap r).key in
    let (gone, s') = expire_if_needed key s in
    mru_loop fuel (s'.lru.heap r).next (if gone then yielded else yielded ++ key ∷ []) s'

unfoldable pub keys_mru : InMemoryStore → Option (List Text × InMemoryStore)
unfolding mru_loop
keys_mru s = mru_loop (JsMap.size s.lru.nodes) s.lru.head [] s
