-- ===== src/Lru/Moves.antt =====
-- `#unlink` takes one node out of the list, and `#pushFront` puts one before it.
use mini_store.Prelude.{
  ◌≡◌, ◌∙◌, sym, subst, refl, ap, true, false, ◌||◌, Option, none, some, [], ◌∷◌, ◌++◌, arith,
  contains, contains-append, Distinct, Text, text_keyed, ref_keyed, Distinct-split, Distinct-join,
}
use mathlib.Core.List.{append-nil}
use mini_store.Lru.{
  Ref, Heap, LruTracker, write, set_next, set_prev, unlink, push_front, or_else, at_end,
}
use mini_store.Lru.Chain.{
  Cells, Chain, refs, first, last, node, mem, frame, Chain-append, Chain-split, set_next-Chain,
  set_prev-Chain, set_next_frame, set_prev_frame, last-append, last-mem,
}

-- The nodes of `cs` are linked in order, from head to tail.
pub record Links (t : LruTracker) (cs : Cells) : Type 0 where
  pub head : t.head ≡ first cs none
  pub tail : t.tail ≡ last none cs
  pub chain : Chain t.heap none cs none
  pub distinct : Distinct (refs cs)

pub refs-append : (xs ys : Cells) → refs (xs ++ ys) ≡ refs xs ++ refs ys
refs-append [] ys = refl
refs-append ((r, k) ∷ xs) ys = ap (◌∷◌ r) (refs-append xs ys)

pub mem-append : (q : Ref) (xs ys : Cells) → mem q (xs ++ ys) ≡ (mem q xs || mem q ys)
mem-append q xs ys = rw (refs-append xs ys) (contains-append q (refs xs) (refs ys))

-- The heap after the two redirections of `#unlink`.
bypass : Heap → (xs ys : Cells) → Heap
bypass h xs ys = set_prev (set_next h (last none xs) (first ys none)) (first ys none) (last none xs)

module _ (h : Heap) (xs ys : Cells) (dx : Distinct (refs xs)) (dy : Distinct (refs ys))
    (apart : (q : Ref) → mem q xs ≡ true → mem q ys ≡ false) where
  bypass_left :
      (r : Ref) → Chain h none xs (some r) → Chain (bypass h xs ys) none xs (first ys none)
  unfolding bypass
  bypass_left r c =
      let h1 = set_next h (last none xs) (first ys none) in
      frame h1 (bypass h xs ys) none xs (first ys none)
        (set_next-Chain h none xs (some r) (first ys none) dx c)
        (λ q m. set_prev_frame h1 ys (last none xs) q (apart q m))

  bypass_right :
      (r : Ref) → Chain h (some r) ys none → Chain (bypass h xs ys) (last none xs) ys none
  unfolding bypass
  bypass_right r c =
      let h1 = set_next h (last none xs) (first ys none) in
      set_prev-Chain h1 (some r) ys none (last none xs) dy (
        frame h h1 (some r) ys none c
          (λ q m. set_next_frame h xs (first ys none) q (ground (arith, apart q))))

  bypass_spares : (r : Ref) → mem r xs ≡ false → mem r ys ≡ false → bypass h xs ys r ≡ h r
  unfolding bypass
  bypass_spares r a b =
      set_prev_frame (set_next h (last none xs) (first ys none)) ys (last none xs) r b
      ∙ set_next_frame h xs (first ys none) r a

-- The parts of a list of nodes around `(r, k)`.
pub record Around (t : LruTracker) (xs : Cells) (r : Ref) (k : Text) (ys : Cells) : Type 0 where
  pub before : Chain t.heap none xs (some r)
  pub here : t.heap r ≡ node k (last none xs) (first ys none)
  pub after : Chain t.heap (some r) ys none
  pub left : Distinct (refs xs)
  pub right : Distinct (refs ys)
  pub apart : (q : Ref) → mem q xs ≡ true → mem q ys ≡ false
  pub not_left : mem r xs ≡ false
  pub not_right : mem r ys ≡ false

pub Links-Around :
    (t : LruTracker) (xs : Cells) (r : Ref) (k : Text) (ys : Cells)
    → Links t (xs ++ (r, k) ∷ ys)
    → Around t xs r k ys
unfolding contains
Links-Around t xs r k ys l =
    let (a, b) = Chain-split t.heap none xs ((r, k) ∷ ys) none l.chain in
    let (dx, dy, apart) =
      Distinct-split (refs xs) (r ∷ refs ys) (rw (refs-append xs ((r, k) ∷ ys)) at l.distinct) in
    record {
      before = a;
      here = b.0;
      after = b.1;
      left = dx;
      right = dy.1;
      apart = λ q m. ground (arith, apart q m);
      not_left = ground (arith, apart r);
      not_right = dy.0;
    }

head_after :
    (head : Option Ref) (xs : Cells) (r : Ref) (k : Text) (ys : Cells)
    → head ≡ first (xs ++ (r, k) ∷ ys) none
    → at_end (last none xs) (first ys none) head ≡ first (xs ++ ys) none
head_after head [] r k ys h = refl
head_after head (x ∷ xs) r k ys h = let (q, e, m) = last-mem x xs in rw e h

tail_after :
    (tail : Option Ref) (xs : Cells) (r : Ref) (k : Text) (ys : Cells)
    → tail ≡ last none (xs ++ (r, k) ∷ ys)
    → at_end (first ys none) (last none xs) tail ≡ last none (xs ++ ys)
tail_after tail xs r k [] h = rw append-nil
tail_after tail xs r k (y ∷ ys) h =
    h ∙ last-append none xs ((r, k) ∷ y ∷ ys) ∙ sym (last-append none xs (y ∷ ys))

module _ (t : LruTracker) (xs : Cells) (r : Ref) (k : Text) (ys : Cells)
    (l : Links t (xs ++ (r, k) ∷ ys)) where
  around : Around t xs r k ys
  around = Links-Around t xs r k ys l

  unlink_heap :
      (unlink t r).heap
      ≡ write (bypass t.heap xs ys) r (record (bypass t.heap xs ys r) { prev = none; next = none })
  unfolding unlink bypass
  unlink_heap = rw around.here

  pub unlink-node : (unlink t r).heap r ≡ node k none none
  unlink-node = rw unlink_heap (
      ground (
        arith,
        around.here,
        bypass_spares t.heap xs ys around.left around.right around.apart r around.not_left
            around.not_right,
      ))

  unlink_head : (unlink t r).head ≡ first (xs ++ ys) none
  unfolding unlink
  unlink_head = rw around.here (head_after t.head xs r k ys l.head)

  unlink_tail : (unlink t r).tail ≡ last none (xs ++ ys)
  unfolding unlink
  unlink_tail = rw around.here (tail_after t.tail xs r k ys l.tail)

  unlink-Chain : Chain (unlink t r).heap none (xs ++ ys) none
  unlink-Chain = rw unlink_heap (
      let g =
        write (bypass t.heap xs ys) r
          (record (bypass t.heap xs ys r) { prev = none; next = none }) in
      let p = around in
      Chain-append g none xs ys none
        (frame (bypass t.heap xs ys) g none xs (first ys none)
          (bypass_left t.heap xs ys p.left p.right p.apart r p.before)
          (λ q m. ground (arith, p.not_left)))
        (frame (bypass t.heap xs ys) g (last none xs) ys none
          (bypass_right t.heap xs ys p.left p.right p.apart r p.after)
          (λ q m. ground (arith, p.not_right))))

  -- `#unlink` takes the node out of its place, and leaves it with no links.
  pub unlink-Links : Links (unlink t r) (xs ++ ys)
  unlink-Links = record {
    head = unlink_head;
    tail = unlink_tail;
    chain = unlink-Chain;
    distinct =
        rw (refs-append xs ys)
          (Distinct-join (refs xs) (refs ys) around.left around.right around.apart);
  }

module _ (t : LruTracker) (cs : Cells) (r : Ref) (k : Text) (l : Links t cs)
    (out : mem r cs ≡ false) (holds : (t.heap r).key ≡ k) where
  linked : Heap
  linked = write t.heap r (record (t.heap r) { prev = none; next = first cs none })

  push_front_heap : (push_front t r).heap ≡ set_prev linked (first cs none) (some r)
  unfolding push_front linked
  push_front_heap = rw l.head

  push_front_tail : (push_front t r).tail ≡ last (some r) cs
  unfolding push_front
  push_front_tail = rw l.tail (tail_or cs)
    where
      tail_or : (cs : Cells) → or_else (last none cs) (some r) ≡ last (some r) cs
      tail_or [] = refl
      tail_or (x ∷ cs) = let (q, e, m) = last-mem x cs in rw e

  -- `#pushFront` puts a node that is not in the list before it.
  pub push_front-Links : Links (push_front t r) ((r, k) ∷ cs)
  unfolding push_front linked
  push_front-Links = record {
    head = refl;
    tail = push_front_tail;
    chain =
        subst (λ g. Chain g none ((r, k) ∷ cs) none) (sym push_front_heap)
          (
            set_prev_frame linked cs (some r) r out ∙ ground (arith, holds),
            set_prev-Chain linked none cs none (some r) l.distinct
                (frame t.heap linked none cs none l.chain (λ q m. ground (arith, out))),
          );
    distinct = (out, l.distinct);
  }
