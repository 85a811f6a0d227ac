-- ===== src/Lru.antt =====
-- `LRUTracker` (store-engine/src/store/LRUTracker.ts): a doubly linked list of nodes, most recently
-- used first, and a map from keys to nodes. The nodes are shared mutable objects, so they lie on a
-- heap: a reference is a number, and `fresh` is the next one that `{ key, ... }` returns. JavaScript
-- references never dangle, so the heap is total; what lies at `fresh` and above is never read.
pub mod Chain
pub mod Moves
pub mod Order
pub mod Recency
use mini_store.Prelude.{
  ℕ, zero, suc, ◌+◌, ite, Bool, true, false, Option, none, some, List, [], ◌∷◌, ◌==◌, if◌then◌else◌,
  ℕ_discrete, Text, text_keyed,
}
use mini_store.JsMap
use mini_store.JsMap.{JsMap}

abbrev pub Ref : Type 0
Ref = ℕ

pub record Node : Type 0 where
  pub key : Text
  pub prev : Option Ref
  pub next : Option Ref

abbrev pub Heap : Type 0
Heap = Ref → Node

-- `node.field = …`, with the whole node given
abbrev pub write : Heap → Ref → Node → Heap
write h r n q = ite (ℕ_discrete r q) n (h q)

pub record LruTracker : Type 0 where
  pub heap : Heap
  pub fresh : Ref
  pub nodes : JsMap Text Ref
  pub head : Option Ref
  pub tail : Option Ref

abbrev pub empty : LruTracker
empty = record {
  heap = λ r. record { key = []; prev = none; next = none };
  fresh = 0;
  nodes = [];
  head = none;
  tail = none;
}

pub size : LruTracker → ℕ
size t = JsMap.size t.nodes

pub has : LruTracker → Text → Bool
has t key = JsMap.has t.nodes key

-- Writes through an optional reference do nothing where there is none.
unfoldable pub set_next : Heap → Option Ref → Option Ref → Heap
set_next h none next = h
set_next h (some r) next = write h r (record (h r) { next = next })

unfoldable pub set_prev : Heap → Option Ref → Option Ref → Heap
set_prev h none prev = h
set_prev h (some r) prev = write h r (record (h r) { prev = prev })

abbrev pub or_else : Option Ref → Option Ref → Option Ref
or_else none r = r
or_else (some q) r = some q

-- The end of the list moves to `beside` where the node has no neighbour on that side.
abbrev pub at_end : (neighbour beside old : Option Ref) → Option Ref
at_end none beside old = beside
at_end (some _) beside old = old

-- `if (prev !== undefined) prev.next = next; else this.#head = next;`
-- `if (next !== undefined) next.prev = prev; else this.#tail = prev;`
pub unlink : LruTracker → Ref → LruTracker
unfolding set_next set_prev
unlink t r =
    let prev = (t.heap r).prev in
    let next = (t.heap r).next in
    let h = set_prev (set_next t.heap prev next) next prev in
    record t {
      heap = write h r (record (h r) { prev = none; next = none });
      head = at_end prev next t.head;
      tail = at_end next prev t.tail;
    }

pub push_front : LruTracker → Ref → LruTracker
unfolding set_prev
push_front t r =
    let h = write t.heap r (record (t.heap r) { prev = none; next = t.head }) in
    record t { heap = set_prev h t.head (some r); head = some r; tail = or_else t.tail (some r) }

-- `existing === this.#head`
abbrev pub is_head : Ref → Option Ref → Bool
is_head r none = false
is_head r (some q) = r == q

touch_node : Option Ref → Text → LruTracker → LruTracker
touch_node (some existing) key t =
    if is_head existing t.head then t else push_front (unlink t existing) existing
touch_node none key t =
    let node : Node = record { key = key; prev = none; next = none } in
    push_front
      (record t {
        heap = write t.heap t.fresh node;
        fresh = t.fresh + 1;
        nodes = JsMap.set t.nodes key t.fresh;
      })
      t.fresh

pub touch : LruTracker → Text → LruTracker
unfolding touch_node unlink push_front
touch t key = touch_node (JsMap.get t.nodes key) key t

delete_node : Option Ref → Text → LruTracker → LruTracker × Bool
delete_node none key t = (t, false)
delete_node (some node) key t =
    (record (unlink t node) { nodes = JsMap.delete (unlink t node).nodes key }, true)

pub delete : LruTracker → Text → LruTracker × Bool
unfolding delete_node unlink
delete t key = delete_node (JsMap.get t.nodes key) key t

-- `this.#tail?.key`
abbrev key_at : Heap → Option Ref → Option Text
key_at h none = none
key_at h (some r) = some (h r).key

pub peek_lru : LruTracker → Option Text
peek_lru t = key_at t.heap t.tail

evict_node : Option Ref → LruTracker → LruTracker × Option Text
evict_node none t = (t, none)
evict_node (some victim) t =
    let t' = unlink t victim in
    (record t' { nodes = JsMap.delete t'.nodes (t'.heap victim).key }, some (t'.heap victim).key)

pub evict_lru : LruTracker → LruTracker × Option Text
unfolding evict_node unlink
evict_lru t = evict_node t.tail t

-- The loop of `keysMRU` on fuel: `none` where the fuel runs out before the list ends.
pub walk : ℕ → Heap → Option Ref → Option (List Text)
walk fuel h none = some []
walk zero h (some r) = none
walk (suc fuel) h (some r) = elim (walk fuel h (h r).next) [
  | none ↦ none
  | some rest ↦ some ((h r).key ∷ rest)
]

-- A list of distinct nodes is no longer than the map of nodes.
pub keys_mru : LruTracker → Option (List Text)
unfolding walk
keys_mru t = walk (JsMap.size t.nodes) t.heap t.head
