-- ===== src/Lru/Recency.antt =====
-- The operations of `LRUTracker`, on the keys in order of use.
use mini_store.Prelude.{
  ℕ, zero, suc, ◌+◌, ◌≤◌, ◌≡◌, ◌∙◌, refl, sym, subst, ap, false, Option, none, some, List, [], ◌∷◌,
  ◌++◌, arith, contains, Distinct, Text, text_keyed, ref_keyed, remove, length, is_some, last?,
  Option-cases, inl, inr,
}
use mini_store.JsMap
use mini_store.Lru.{
  Ref, Node, Heap, LruTracker, empty, unlink, push_front, key_at, walk, touch, delete, evict_lru,
  peek_lru, keys_mru,
}
use mini_store.Lru.Chain.{Cells, Chain, cell_keys, first, last, node, mem, frame}
use mini_store.Lru.Moves.{Links, Links-Around, push_front-Links}
use mini_store.Lru
use mini_store.Lru.{write, is_head}
use mini_store.Prelude.{Bool-cases, remove_first, remove_absent, length-remove}
use mini_store.Lru.Order.{
  ref_of, Tracks, removed, split_at, Removed-at, not_first, length-cell_keys, split_last,
  ref_of_last, absent, contains-cell_keys,
}

pub Tracks-empty : Tracks empty []
unfolding ref_of JsMap.get contains
Tracks-empty = record {
  cells = [];
  named = refl;
  links = record { head = refl; tail = refl; chain = tt; distinct = tt };
  mapped = λ k. refl;
  distinct = tt;
  old = λ r m. absurd (ground arith);
  counted = refl;
  map_distinct = tt;
}

pub Tracks-Distinct : (t : LruTracker) (ks : List Text) → Tracks t ks → Distinct ks
Tracks-Distinct t ks w = subst Distinct w.named w.distinct

module _ (t : LruTracker) (ks : List Text) (w : Tracks t ks) (k : Text) where
  -- If the linked list holds the keys of a list in its order, then after delete it holds the
  -- others in the same order.
  pub delete-Tracks : Tracks (delete t k).0 (remove k ks)
  unfolding delete
  delete-Tracks = elim (Option-cases (JsMap.get t.nodes k)) [
    | inl none_there ↦
        rw none_there (subst (Tracks t) (sym (remove_absent k ks (absent t ks w k none_there))) w)
    | inr (r, at) ↦
        let m = removed t ks w k r at in
        rw at (record {
          cells = m.cells;
          named = m.named;
          links = record {
            head = m.links.head;
            tail = m.links.tail;
            chain = m.links.chain;
            distinct = m.links.distinct;
          };
          mapped = λ j. JsMap.get-delete t.nodes k j ∙ sym (m.found j);
          distinct = m.distinct;
          old = m.old;
          counted = omega (
            arith,
            w.counted,
            JsMap.size-delete t.nodes k w.map_distinct (JsMap.has-get t.nodes k ∙ ap is_some at),
            length-remove k ks (Tracks-Distinct t ks w) m.present,
          );
          map_distinct = JsMap.Distinct-delete t.nodes k w.map_distinct;
        })
  ]

  pub delete_lem : (delete t k).1 ≡ contains k ks
  unfolding delete
  delete_lem = elim (Option-cases (JsMap.get t.nodes k)) [
    | inl none_there ↦ rw none_there (sym (absent t ks w k none_there))
    | inr (r, at) ↦ rw at (sym (removed t ks w k r at).present)
  ]

  touch_known :
      (r : Ref)
      → JsMap.get t.nodes k ≡ some r
      → Tracks (push_front (unlink t r) r) (k ∷ remove k ks)
  unfolding unlink push_front ref_of contains
  touch_known r at =
      let m = removed t ks w k r at in
      let l = push_front-Links (unlink t r) m.cells r k m.links m.out m.key in
      record {
        cells = (r, k) ∷ m.cells;
        named = ap (◌∷◌ k) m.named;
        links = l;
        mapped = λ j. ground (arith, m.found j);
        distinct = (ground (arith, contains-cell_keys k m.cells, m.found k), m.distinct);
        old = λ q i. ground (arith, m.old q, m.within);
        counted = omega (arith, w.counted, length-remove k ks (Tracks-Distinct t ks w) m.present);
        map_distinct = w.map_distinct;
      }

  -- The tracker after `#nodes.set(key, node)`, before `#pushFront`.
  with_new_node : LruTracker
  with_new_node = record t {
    heap = write t.heap t.fresh (node k none none);
    fresh = t.fresh + 1;
    nodes = JsMap.set t.nodes k t.fresh;
  }

  touch_new :
      JsMap.get t.nodes k ≡ none → Tracks (push_front with_new_node t.fresh) (k ∷ remove k ks)
  unfolding push_front with_new_node ref_of contains
  touch_new h =
      let out : mem t.fresh w.cells ≡ false = ground (arith, w.old t.fresh) in
      let l : Links with_new_node w.cells = record {
        head = w.links.head;
        tail = w.links.tail;
        distinct = w.links.distinct;
        chain =
            frame t.heap with_new_node.heap none w.cells none w.links.chain
              (λ q m. ground (arith, w.old q));
      } in
      let l' = push_front-Links with_new_node w.cells t.fresh k l out (ground arith) in
      record {
        cells = (t.fresh, k) ∷ w.cells;
        named = ap (◌∷◌ k) (w.named ∙ sym (remove_absent k ks (absent t ks w k h)));
        links = l';
        mapped = λ j. ground (arith, JsMap.get-set t.nodes k t.fresh j, w.mapped j);
        distinct = (contains-cell_keys k w.cells ∙ ap is_some (sym (w.mapped k) ∙ h), w.distinct);
        old = λ q i. ground (arith, w.old q);
        counted = omega (
          arith,
          w.counted,
          JsMap.size-set_new t.nodes k t.fresh (JsMap.has-get t.nodes k ∙ ap is_some h),
          ap length (remove_absent k ks (absent t ks w k h)),
        );
        map_distinct = JsMap.Distinct-set t.nodes k t.fresh w.map_distinct;
      }

  -- The node of `k` is the head only if `k` is the first key.
  front : (r : Ref) → JsMap.get t.nodes k ≡ some r → t.head ≡ some r → k ∷ remove k ks ≡ ks
  unfolding contains
  front r at h = let (xs, ys, e) = split_at k r w.cells (sym (w.mapped k) ∙ at) in first_key xs ys e
    where
      first_key : (xs ys : Cells) → w.cells ≡ xs ++ (r, k) ∷ ys → k ∷ remove k ks ≡ ks
      first_key [] ys e =
          let d = subst (λ c. Distinct (cell_keys c)) e w.distinct in
          subst (λ l. k ∷ remove k l ≡ l) (sym (ap cell_keys e) ∙ w.named)
            (remove_first k (cell_keys ys) d.0)
      first_key (x ∷ xs) ys e =
          let p = Links-Around t (x ∷ xs) r k ys (rw e at w.links) in
          let same : first (x ∷ xs ++ (r, k) ∷ ys) none ≡ some r =
            subst (λ c. first c none ≡ some r) e (sym w.links.head ∙ h) in
          absurd (not_first x xs r p.not_left same)

  -- If the linked list holds the keys of a list in its order, then after touch it holds them
  -- with the touched key in front, once.
  pub touch-Tracks : Tracks (touch t k) (k ∷ remove k ks)
  unfolding touch with_new_node
  touch-Tracks = elim (Option-cases (JsMap.get t.nodes k)) [
    | inl none_there ↦ rw none_there (touch_new none_there)
    | inr (r, at) ↦ rw at (elim (Bool-cases (is_head r t.head)) [
      | inl here ↦ rw here (subst (Tracks t) (sym (front r at (ground arith))) w)
      | inr elsewhere ↦ rw elsewhere (touch_known r at)
    ])
  ]

module _ (t : LruTracker) (ks : List Text) (w : Tracks t ks) where
  pub peek_lru-last? : peek_lru t ≡ last? ks
  unfolding peek_lru
  peek_lru-last? = rw w.links.tail (key_at-last w.cells none w.links.chain ∙ ap last? w.named)
    where
      key_at-last :
          (cs : Cells) (prev : Option Ref)
          → Chain t.heap prev cs none
          → key_at t.heap (last none cs) ≡ last? (cell_keys cs)
      key_at-last [] prev c = refl
      key_at-last ((r, k) ∷ []) prev c = ground arith
      key_at-last ((r, k) ∷ y ∷ cs) prev c = key_at-last (y ∷ cs) (some r) c.1

  -- The walk of keysMRU along the linked list ends within as many steps as there are nodes and
  -- yields the recency order.
  pub keys_mru-some : keys_mru t ≡ some ks
  unfolding keys_mru
  keys_mru-some = rw w.links.head (
      walk_all (JsMap.size t.nodes) w.cells none w.links.chain
        (omega (arith, w.counted, ap length w.named, length-cell_keys w.cells))
      ∙ ap some w.named)
    where
      walk_all :
          (fuel : ℕ) (cs : Cells) (prev : Option Ref)
          → Chain t.heap prev cs none
          → length cs ≤ fuel
          → walk fuel t.heap (first cs none) ≡ some (cell_keys cs)
      walk_all zero [] prev c h = refl
      walk_all (suc fuel) [] prev c h = refl
      walk_all zero ((r, k) ∷ cs) prev c h = absurd (omega arith)
      walk_all (suc fuel) ((r, k) ∷ cs) prev c h = ground (arith, walk_all fuel cs (some r) c.1)

  evicted :
      (k : Text) (r : Ref)
      → t.tail ≡ some r
      → last? ks ≡ some k
      → evict_lru t ≡ ((delete t k).0, some k)
  unfolding evict_lru delete
  evicted k r h l =
      let (xs, j, e, lj) = split_last w.cells r (sym w.links.tail ∙ h) in
      let same : j ≡ k = cc (sym lj ∙ ap last? w.named ∙ l) in
      let m = Removed-at t ks w xs r j [] e in
      let at : JsMap.get t.nodes j ≡ some r =
        w.mapped j
        ∙ ap (ref_of j) e
        ∙ ref_of_last xs r j (subst (λ c. Distinct (cell_keys c)) e w.distinct) in
      rw (h, ← same, at, m.key)

  -- Where the recency order ends in a key, evictLRU returns that key and does the same as
  -- deleting it.
  pub evict_lru-delete : (k : Text) → last? ks ≡ some k → evict_lru t ≡ ((delete t k).0, some k)
  unfolding peek_lru
  evict_lru-delete k l = elim (Option-cases t.tail) [
    | inl no_tail ↦ absurd (ground (arith, peek_lru-last?))
    | inr (r, h) ↦ evicted k r h l
  ]

  pub size-length : Lru.size t ≡ length ks
  unfolding Lru.size
  size-length = w.counted

  pub has-contains : (k : Text) → Lru.has t k ≡ contains k ks
  unfolding Lru.has
  has-contains k =
      JsMap.has-get t.nodes k
      ∙ ap is_some (w.mapped k)
      ∙ sym (contains-cell_keys k w.cells)
      ∙ ap (contains k) w.named
