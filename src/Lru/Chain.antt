-- ===== src/Lru/Chain.antt =====
-- Doubly linked segments on the heap.
use mini_store.Prelude.{
  ◌≡◌, ◌∙◌, refl, Bool, true, false, Option, none, some, List, [], ◌∷◌, ◌++◌, arith, contains,
  Distinct, Text, text_keyed, ref_keyed,
}
use mini_store.Lru.{Ref, Node, Heap, set_next, set_prev}

-- What a segment stands for: the reference and the key of each node, in order.
abbrev pub Cells : Type 0
Cells = List (Ref × Text)

abbrev pub refs : Cells → List Ref
refs [] = []
refs ((r, k) ∷ cs) = r ∷ refs cs

abbrev pub cell_keys : Cells → List Text
cell_keys [] = []
cell_keys ((r, k) ∷ cs) = k ∷ cell_keys cs

-- The first reference, and the last one, with what stands in for it in an empty segment.
abbrev pub first : Cells → Option Ref → Option Ref
first [] next = next
first ((r, k) ∷ cs) next = some r

abbrev pub last : Option Ref → Cells → Option Ref
last prev [] = prev
last prev ((r, k) ∷ cs) = last (some r) cs

abbrev pub node : Text → Option Ref → Option Ref → Node
node k p n = record { key = k; prev = p; next = n }

-- From `prev` the links lead through `cs` to `next`, and back.
abbrev pub Chain : Heap → Option Ref → Cells → Option Ref → Type 0
Chain h prev [] next = Unit
Chain h prev ((r, k) ∷ cs) next = (h r ≡ node k prev (first cs next)) × Chain h (some r) cs next

abbrev pub mem : Ref → Cells → Bool
mem r cs = contains r (refs cs)

-- A segment survives any change that spares its nodes.
pub frame :
    (h g : Heap) (prev : Option Ref) (cs : Cells) (next : Option Ref)
    → Chain h prev cs next
    → ((r : Ref) → mem r cs ≡ true → g r ≡ h r)
    → Chain g prev cs next
unfolding contains
frame h g prev [] next c same = tt
frame h g prev ((r, k) ∷ cs) next c same =
    (ground (arith, same r), frame h g (some r) cs next c.1 (λ q m. same q (ground arith)))

pub first-append :
    (xs ys : Cells) (next : Option Ref) → first (xs ++ ys) next ≡ first xs (first ys next)
first-append [] ys next = refl
first-append (x ∷ xs) ys next = refl

pub last-append :
    (prev : Option Ref) (xs ys : Cells) → last prev (xs ++ ys) ≡ last (last prev xs) ys
last-append prev [] ys = refl
last-append prev ((r, k) ∷ xs) ys = last-append (some r) xs ys

pub Chain-append :
    (h : Heap) (prev : Option Ref) (xs ys : Cells) (next : Option Ref)
    → Chain h prev xs (first ys next)
    → Chain h (last prev xs) ys next
    → Chain h prev (xs ++ ys) next
Chain-append h prev [] ys next a b = b
Chain-append h prev ((r, k) ∷ xs) ys next a b =
    (rw first-append a.0, Chain-append h (some r) xs ys next a.1 b)

pub Chain-split :
    (h : Heap) (prev : Option Ref) (xs ys : Cells) (next : Option Ref)
    → Chain h prev (xs ++ ys) next
    → Chain h prev xs (first ys next) × Chain h (last prev xs) ys next
Chain-split h prev [] ys next c = (tt, c)
Chain-split h prev ((r, k) ∷ xs) ys next c =
    let (a, b) = Chain-split h (some r) xs ys next c.1 in ((rw first-append at c.0, a), b)

pub last-mem :
    (x : Ref × Text) (cs : Cells)
    → (q : Ref) × (last none (x ∷ cs) ≡ some q) × (mem q (x ∷ cs) ≡ true)
unfolding contains
last-mem x [] = (x.0, refl, ground arith)
last-mem x (y ∷ cs) = let (q, e, m) = last-mem y cs in (q, e, ground arith)

-- The redirections spare what is not in the segment.
pub set_next_frame :
    (h : Heap) (cs : Cells) (next' : Option Ref) (r : Ref)
    → mem r cs ≡ false
    → set_next h (last none cs) next' r ≡ h r
unfolding set_next contains
set_next_frame h [] next' r out = refl
set_next_frame h (x ∷ cs) next' r out = let (q, e, m) = last-mem x cs in rw e (ground arith)

pub set_prev_frame :
    (h : Heap) (cs : Cells) (prev' : Option Ref) (r : Ref)
    → mem r cs ≡ false
    → set_prev h (first cs none) prev' r ≡ h r
unfolding set_prev contains
set_prev_frame h [] prev' r out = refl
set_prev_frame h ((q, k) ∷ cs) prev' r out = ground arith

-- Redirects the end of a segment.
pub set_next-Chain :
    (h : Heap) (prev : Option Ref) (cs : Cells) (next next' : Option Ref)
    → Distinct (refs cs)
    → Chain h prev cs next
    → Chain (set_next h (last none cs) next') prev cs next'
unfolding set_next contains
set_next-Chain h prev [] next next' d c = tt
set_next-Chain h prev ((r, k) ∷ []) next next' d c = (ground arith, tt)
set_next-Chain h prev ((r, k) ∷ y ∷ cs) next next' d c = (
  set_next_frame h (y ∷ cs) next' r d.0 ∙ c.0,
  set_next-Chain h (some r) (y ∷ cs) next next' d.1 c.1,
)

-- Redirects the front of a segment.
pub set_prev-Chain :
    (h : Heap) (prev : Option Ref) (cs : Cells) (next prev' : Option Ref)
    → Distinct (refs cs)
    → Chain h prev cs next
    → Chain (set_prev h (first cs none) prev') prev' cs next
unfolding set_prev contains
set_prev-Chain h prev [] next prev' d c = tt
set_prev-Chain h prev ((r, k) ∷ cs) next prev' d c =
    (ground arith, frame h (set_prev h (some r) prev') (some r) cs next c.1 (λ q m. ground arith))
