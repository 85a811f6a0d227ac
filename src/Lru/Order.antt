-- ===== src/Lru/Order.antt =====
-- The linked list and the map of nodes together stand for the keys in order of use.
use mini_store.Prelude.{
  suc, ◌<◌, ◌≡◌, ◌≢◌, ◌∙◌, refl, sym, subst, ap, ite, true, false, Option, none, some, List, [],
  ◌∷◌, ◌++◌, arith, contains, contains-append, Distinct, Text, Text-discrete, text_keyed, ref_keyed,
  Distinct-split, Distinct-join, remove, remove_middle, length, is_some, last?,
}
use mini_store.JsMap
use mini_store.Lru.{Ref, Node, LruTracker, unlink}
use mini_store.Lru.Chain.{Cells, cell_keys, last, mem}
use mini_store.Lru.Moves.{Links, Links-Around, unlink-Links, unlink-node, mem-append}

unfoldable pub ref_of : Text → Cells → Option Ref
ref_of k [] = none
ref_of k ((r, j) ∷ cs) = ite (Text-discrete j k) (some r) (ref_of k cs)

-- `t` holds exactly the keys `ks`, most recently used first.
pub record Tracks (t : LruTracker) (ks : List Text) : Type 0 where
  pub cells : Cells
  pub named : cell_keys cells ≡ ks
  pub links : Links t cells
  pub mapped : (k : Text) → JsMap.get t.nodes k ≡ ref_of k cells
  pub distinct : Distinct (cell_keys cells)
  pub old : (r : Ref) → mem r cells ≡ true → r < t.fresh
  pub counted : JsMap.size t.nodes ≡ length ks
  pub map_distinct : Distinct (JsMap.keys t.nodes)

cell_keys-append : (xs ys : Cells) → cell_keys (xs ++ ys) ≡ cell_keys xs ++ cell_keys ys
cell_keys-append [] ys = refl
cell_keys-append ((r, k) ∷ xs) ys = ap (◌∷◌ k) (cell_keys-append xs ys)

pub contains-cell_keys : (k : Text) (cs : Cells) → contains k (cell_keys cs) ≡ is_some (ref_of k cs)
unfolding contains ref_of
contains-cell_keys k [] = refl
contains-cell_keys k ((r, j) ∷ cs) = ground (arith, contains-cell_keys k cs)

-- A key that is found stands somewhere in the list.
pub split_at :
    (k : Text) (r : Ref) (cs : Cells)
    → ref_of k cs ≡ some r
    → (xs : Cells) × (ys : Cells) × (cs ≡ xs ++ (r, k) ∷ ys)
unfolding ref_of
split_at k r [] h = absurd (ground arith)
split_at k r ((q, j) ∷ cs) h = elim (Text-discrete j k) [
  | yes same ↦ ([], cs, ground arith)
  | no other ↦
      let (xs, ys, e) = split_at k r cs (ground arith) in ((q, j) ∷ xs, ys, ap (◌∷◌ (q, j)) e)
]

ref_of_drop :
    (xs : Cells) (r : Ref) (k : Text) (ys : Cells) (j : Text)
    → contains k (cell_keys xs) ≡ false
    → contains k (cell_keys ys) ≡ false
    → ref_of j (xs ++ ys) ≡ ite (Text-discrete k j) none (ref_of j (xs ++ (r, k) ∷ ys))
unfolding contains ref_of
ref_of_drop [] r k ys j a b = ground (arith, contains-cell_keys j ys)
ref_of_drop ((q, i) ∷ xs) r k ys j a b = ground (arith, ref_of_drop xs r k ys j)

-- What is left of the list when the node `r` of the key `k` is unlinked.
pub record Removed (t : LruTracker) (k : Text) (r : Ref) (ks : List Text) : Type 0 where
  pub cells : Cells
  pub links : Links (unlink t r) cells
  pub named : cell_keys cells ≡ remove k ks
  pub found : (j : Text) → ref_of j cells ≡ ite (Text-discrete k j) none (JsMap.get t.nodes j)
  pub distinct : Distinct (cell_keys cells)
  pub out : mem r cells ≡ false
  pub old : (q : Ref) → mem q cells ≡ true → q < t.fresh
  pub key : ((unlink t r).heap r).key ≡ k
  pub present : contains k ks ≡ true
  pub within : r < t.fresh

pub Removed-at :
    (t : LruTracker) (ks : List Text) (w : Tracks t ks) (xs : Cells) (r : Ref) (k : Text)
    (ys : Cells)
    → w.cells ≡ xs ++ (r, k) ∷ ys
    → Removed t k r ks
unfolding contains
Removed-at t ks w xs r k ys e =
    let l : Links t (xs ++ (r, k) ∷ ys) = rw e at w.links in
    let p = Links-Around t xs r k ys l in
    let (dx, dy, apart) =
      Distinct-split (cell_keys xs) (k ∷ cell_keys ys) (rw (e, cell_keys-append) at w.distinct) in
    let k_left : contains k (cell_keys xs) ≡ false = ground (arith, apart k) in
    let all_keys : cell_keys xs ++ k ∷ cell_keys ys ≡ ks =
      sym (cell_keys-append xs ((r, k) ∷ ys)) ∙ sym (ap cell_keys e) ∙ w.named in
    record {
      cells = xs ++ ys;
      links = unlink-Links t xs r k ys l;
      named =
          cell_keys-append xs ys
          ∙ sym (remove_middle (cell_keys xs) k (cell_keys ys) k_left dy.0)
          ∙ ap (remove k) all_keys;
      found = λ j.
          ref_of_drop xs r k ys j k_left dy.0
          ∙ ap (λ o. ite (Text-discrete k j) none o) (sym (ap (ref_of j) e) ∙ sym (w.mapped j));
      distinct =
          rw cell_keys-append
            (Distinct-join (cell_keys xs) (cell_keys ys) dx dy.1 (λ j m. ground (arith, apart j)));
      out = mem-append r xs ys ∙ ground (arith, p.not_left, p.not_right);
      old =
          λ q m. w.old q (rw e (ground (arith, mem-append q xs ys, mem-append q xs ((r, k) ∷ ys))));
      key = ap (λ (n : Node). n.key) (unlink-node t xs r k ys l);
      present =
          rw (← all_keys) (ground (arith, contains-append k (cell_keys xs) (k ∷ cell_keys ys)));
      within = w.old r (rw e (ground (arith, mem-append r xs ((r, k) ∷ ys))));
    }

pub removed :
    (t : LruTracker) (ks : List Text)
    → Tracks t ks
    → (k : Text) (r : Ref) → JsMap.get t.nodes k ≡ some r
    → Removed t k r ks
removed t ks w k r h =
    let (xs, ys, e) = split_at k r w.cells (sym (w.mapped k) ∙ h) in Removed-at t ks w xs r k ys e

pub absent :
    (t : LruTracker) (ks : List Text)
    → Tracks t ks
    → (k : Text) → JsMap.get t.nodes k ≡ none
    → contains k ks ≡ false
absent t ks w k h =
    subst (λ l. contains k l ≡ false) w.named
      (contains-cell_keys k w.cells ∙ ap is_some (sym (w.mapped k) ∙ h))

pub not_first :
    (x : Ref × Text) (xs : Cells) (r : Ref)
    → mem r (x ∷ xs) ≡ false
    → ◌≢◌ {A = Option Ref} (some x.0) (some r)
unfolding contains
not_first (q, k) xs r out = ground arith

pub length-cell_keys : (cs : Cells) → length (cell_keys cs) ≡ length cs
length-cell_keys [] = refl
length-cell_keys ((r, k) ∷ cs) = ap suc (length-cell_keys cs)

-- The last cell of a list that has one.
pub split_last :
    (cs : Cells) (r : Ref)
    → last none cs ≡ some r
    → (xs : Cells) × (k : Text) × (cs ≡ xs ++ (r, k) ∷ []) × (last? (cell_keys cs) ≡ some k)
split_last [] r h = absurd (ground arith)
split_last ((q, j) ∷ []) r h = ([], j, ground arith, refl)
split_last ((q, j) ∷ y ∷ cs) r h =
    let (xs, k, e, l) = split_last (y ∷ cs) r h in ((q, j) ∷ xs, k, ap (◌∷◌ (q, j)) e, l)

pub ref_of_last :
    (xs : Cells) (r : Ref) (k : Text)
    → Distinct (cell_keys (xs ++ (r, k) ∷ []))
    → ref_of k (xs ++ (r, k) ∷ []) ≡ some r
unfolding ref_of contains
ref_of_last [] r k d = ground arith
ref_of_last ((q, j) ∷ xs) r k d = ground (
  arith,
  ref_of_last xs r k d.1,
  ap (contains j) (cell_keys-append xs ((r, k) ∷ [])),
  contains-append j (cell_keys xs) (k ∷ []),
)
