-- ===== src/Store/Ranges.antt =====
-- About LRANGE: which elements of a list a range holds.
use mini_store.Prelude.{
  ℕ, zero, suc, ◌+◌, ◌-◌, ◌≡◌, ◌∙◌, refl, sym, ap, inl, inr, Bool, true, false, ◌&&◌, List, [], ◌∷◌,
  if◌then◌else◌, leb, ltb, ℤ, pos, negsuc, ltb_ℤ, ◌+ℤ◌, pos_part, length, take, drop, Text,
  Bool-cases, arith, Option, none, some,
}
use mini_store.Store.{InMemoryStore, StoredValue, string, list, hash, ok}
use mini_store.Store.Invariant.{IsValid}
use mini_store.Store.View.{value_at}
use mini_store.Store.Observers.{list_of, lists_observe}
use mini_store.Store.Lists
use mini_store.Store.Lists.{range, slice, from_end}

-- Whether position `i` of a list of `n` elements is not before `start`; -1 is the last one.
abbrev pub not_before : ℤ → ℕ → ℕ → Bool
not_before (pos a) n i = leb a i
not_before (negsuc a) n i = leb n (i + a + 1)

-- Whether it is not behind `stop`.
abbrev pub not_behind : ℤ → ℕ → ℕ → Bool
not_behind (pos b) n i = leb i b
not_behind (negsuc b) n i = leb (i + b + 1) n

-- The elements whose positions pass the test; the first of them stands at `i`.
unfoldable pub select : (ℕ → Bool) → ℕ → List Text → List Text
select keep i [] = []
select keep i (x ∷ l) = if keep i then x ∷ select keep (i + 1) l else select keep (i + 1) l

select-same :
    (f g : ℕ → Bool) (i : ℕ) (l : List Text)
    → ((j : ℕ) → ltb j (i + length l) ≡ true → f j ≡ g j)
    → select f i l ≡ select g i l
unfolding select
select-same f g i [] h = refl
select-same f g i (x ∷ l) h =
    let rest = select-same f g (i + 1) l (λ j below. h j (ground arith)) in
    let here = h i (ground arith) in ground arith

-- The positions from `lo` on and below `hi`.
abbrev window : (lo hi j : ℕ) → Bool
window lo hi j = leb lo j && ltb j hi

select-past : (lo hi i : ℕ) (l : List Text) → leb hi i ≡ true → select (window lo hi) i l ≡ []
unfolding select
select-past lo hi i [] h = refl
select-past lo hi i (x ∷ l) h =
    let rest = select-past lo hi (i + 1) l (ground arith) in ground arith

take-none : (k : ℕ) → take {A = Text} k [] ≡ []
take-none zero = refl
take-none (suc k) = refl

drop-none : (k : ℕ) → drop {A = Text} k [] ≡ []
drop-none zero = refl
drop-none (suc k) = refl

-- What lies below `hi`, of a list that starts at `i`, at or behind `lo`.
select-take :
    (k lo hi i : ℕ) (l : List Text)
    → leb lo i ≡ true
    → hi ≡ i + k
    → select (window lo hi) i l ≡ take k l
unfolding select
select-take k lo hi i [] h e = sym (take-none k)
select-take zero lo hi i (x ∷ l) h e = select-past lo hi i (x ∷ l) (ground arith)
select-take (suc k) lo hi i (x ∷ l) h e =
    let rest = select-take k lo hi (i + 1) l (ground arith) (omega arith) in
    let inside : window lo hi i ≡ true = ground arith in
    rw inside (ap (λ (t : List Text). x ∷ t) rest)

select-slice :
    (d lo hi i : ℕ) (l : List Text)
    → lo ≡ i + d
    → select (window lo hi) i l ≡ take (hi - lo) (drop d l)
unfolding select
select-slice d lo hi i [] e = sym (ap (take (hi - lo)) (drop-none d) ∙ take-none (hi - lo))
select-slice zero lo hi i (x ∷ l) e = elim (Bool-cases (leb lo hi)) [
  | inl up ↦ select-take (hi - lo) lo hi i (x ∷ l) (ground arith) (ground arith)
  | inr down ↦
      let none_left : hi - lo ≡ 0 = ground arith in
      select-past lo hi i (x ∷ l) (ground arith) ∙ ap (λ (k : ℕ). take k (x ∷ l)) (sym none_left)
]
select-slice (suc d) lo hi i (x ∷ l) e =
    let outside : window lo hi i ≡ false = ground arith in
    rw outside (select-slice d lo hi (i + 1) l (omega arith))

-- A range between two natural bounds.
range_between : (l : List Text) (lo hi : ℕ) → slice l lo hi ≡ select (window lo hi) 0 l
range_between l lo hi = sym (select-slice lo lo hi 0 l (omega arith))

-- The first position of a range, and the one behind its last.
lo_of : ℤ → ℕ → ℕ
lo_of (pos a) n = a
lo_of (negsuc a) n = n - (a + 1)

hi_of : ℤ → ℕ → ℕ
hi_of (pos b) n = if ltb b n then b + 1 else n
hi_of (negsuc b) n = n - b

abbrev clamped_from : ℕ → ℤ → ℤ
clamped_from n start = if ltb_ℤ (from_end n start) (pos 0) then pos 0 else from_end n start

abbrev clamped_to : ℕ → ℤ → ℤ
clamped_to n stop = if ltb_ℤ (from_end n stop) (pos n) then from_end n stop else pos n +ℤ negsuc 0

from_lem : (start : ℤ) (n : ℕ) → clamped_from n start ≡ pos (lo_of start n)
unfolding lo_of
from_lem (pos a) n = ground arith
from_lem (negsuc a) n = ground arith

to_lem : (stop : ℤ) (n : ℕ) → pos_part (clamped_to n stop +ℤ pos 1) ≡ hi_of stop n
unfolding hi_of
to_lem (pos b) n = ground arith
to_lem (negsuc b) n = ground arith

empty_lem : (stop : ℤ) (n lo : ℕ) → ltb_ℤ (clamped_to n stop) (pos lo) ≡ leb (hi_of stop n) lo
unfolding hi_of
empty_lem (pos b) n lo = ground arith
empty_lem (negsuc b) n lo = ground arith

window_lem :
    (start stop : ℤ) (n i : ℕ)
    → ltb i n ≡ true
    → window (lo_of start n) (hi_of stop n) i ≡ (not_before start n i && not_behind stop n i)
unfolding lo_of hi_of
window_lem (pos a) (pos b) n i h = ground arith
window_lem (pos a) (negsuc b) n i h = ground arith
window_lem (negsuc a) (pos b) n i h = ground arith
window_lem (negsuc a) (negsuc b) n i h = ground arith

slice_or_none :
    (l : List Text) (lo hi : ℕ) (b : Bool)
    → b ≡ leb hi lo
    → (if b then [] else slice l lo hi) ≡ select (window lo hi) 0 l
slice_or_none l lo hi true e =
    let none_left : hi - lo ≡ 0 = ground arith in
    sym (ap (λ (k : ℕ). take k (drop lo l)) none_left) ∙ range_between l lo hi
slice_or_none l lo hi false e = range_between l lo hi

range-select :
    (l : List Text) (start stop : ℤ)
    → range l start stop
      ≡ select (λ i. not_before start (length l) i && not_behind stop (length l) i) 0 l
unfolding range
range-select l start stop =
    let n = length l in
    rw (from_lem start n, to_lem stop n, empty_lem stop n (lo_of start n))
      (slice_or_none l (lo_of start n) (hi_of stop n) (leb (hi_of stop n) (lo_of start n)) refl
        ∙ select-same (window (lo_of start n) (hi_of stop n)) _ 0 l
            (λ j h. window_lem start stop n j (ground arith)))

-- What a range of the visible value holds: its elements at the positions from `start` to `stop`.
abbrev pub selected : ℤ → ℤ → List Text → List Text
selected start stop l =
    select (λ i. not_before start (length l) i && not_behind stop (length l) i) 0 l

range_of :
    (start stop : ℤ) (o : Option StoredValue)
    → list_of [] (λ l. range l start stop) o ≡ list_of [] (selected start stop) o
range_of start stop none = refl
range_of start stop (some (string x)) = refl
range_of start stop (some (list l)) = ap ok (range-select l start stop)
range_of start stop (some (hash x)) = refl

-- In a valid store LLEN and LRANGE answer from the visible value of the key: its length for a
-- list, and its elements at the positions that are not before the start and not behind the stop,
-- in order, where a negative bound counts from the end, -1 being the last position; zero and
-- nothing where there is no value, and the type error for another kind.
pub ranges_observe :
    (key : Text) (s : InMemoryStore) (v : IsValid s) (start stop : ℤ)
    → ((Lists.llen key s).0 ≡ list_of 0 length (value_at s key))
      × ((Lists.lrange key start stop s).0 ≡ list_of [] (selected start stop) (value_at s key))
ranges_observe key s v start stop =
    let (len, answer) = lists_observe key s v start stop in
    (len, answer ∙ range_of start stop (value_at s key))
