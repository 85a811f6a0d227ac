-- ===== src/Store/Pops.antt =====
-- About LPOP and RPOP.
use mini_store.Prelude.{
  ℕ, ◌≡◌, ◌∙◌, refl, ap, ite, true, false, Option, none, some, List, [], ◌∷◌, init, last?, arith,
  Text, Text-discrete, text_keyed, is_some,
}
use mini_store.JsMap
use mini_store.Store.{InMemoryStore, StoredValue, list, ok, live_entry}
use mini_store.Store.Invariant.{IsValid}
use mini_store.Store.View.{
  gone, value_at, deadline_at, SameView, live_entry-SameView, live_entry-IsValid,
  live_entry-value_at,
}
use mini_store.Store.Stored.{drop-view, live_fresh, store_old-Stores}
use mini_store.Store.Keeps.{found}
use mini_store.Store.Lists

-- What is left of a list under its key: an empty list is not kept, nor is its deadline.
abbrev pub kept : List Text → Option StoredValue
kept [] = none
kept (x ∷ l) = some (list (x ∷ l))

abbrev pub kept_deadline : List Text → Option ℕ → Option ℕ
kept_deadline [] d = none
kept_deadline (x ∷ l) d = d

abbrev pub Leaves : Text → List Text → (s t : InMemoryStore) → Type 0
Leaves key rest s t =
    ((j : Text) → value_at t j ≡ ite (Text-discrete key j) (kept rest) (value_at s j))
    × ((j : Text)
        → deadline_at t j
          ≡ ite (Text-discrete key j) (kept_deadline rest (deadline_at s j)) (deadline_at s j))

Leaves-gate :
    (key : Text) (rest : List Text) (s s' t : InMemoryStore)
    → SameView s s'
    → Leaves key rest s' t
    → Leaves key rest s t
Leaves-gate key rest s s' t same (values, deadlines) =
    ((λ j. values j ∙ rw (same.values j) refl), (λ j. deadlines j ∙ rw (same.deadlines j) refl))

keep_rest-Leaves :
    (key : Text) (rest : List Text) (s : InMemoryStore)
    → IsValid s
    → gone s key ≡ false
    → JsMap.has s.values key ≡ true
    → Leaves key rest s (Lists.keep_rest key rest s)
unfolding Lists.keep_rest
keep_rest-Leaves key [] s v fresh h = drop-view key s v fresh (list []) h
keep_rest-Leaves key (x ∷ rest) s v fresh h =
    let (values, deadlines) = store_old-Stores key s v fresh (list (x ∷ rest)) in
    (values, λ j. deadlines j ∙ ground arith)

module _ (key : Text) (s : InMemoryStore) (v : IsValid s) (x : Text) (rest : List Text) where
  pop-gate :
      (l : List Text)
      → value_at s key ≡ some (list l)
      → Leaves key rest s (Lists.keep_rest key rest (live_entry key s).1)
  pop-gate l holds =
      Leaves-gate key rest s (live_entry key s).1 (Lists.keep_rest key rest (live_entry key s).1)
        (live_entry-SameView key s v)
        (keep_rest-Leaves key rest (live_entry key s).1 (live_entry-IsValid key s v)
          (live_fresh key s v) (found key s v ∙ ap is_some (live_entry-value_at key s v ∙ holds)))

  -- In a valid store LPOP on a visible list answers its first element and leaves the rest, or no
  -- key and no deadline where nothing is left, and changes nothing else visible.
  pub lpop_lem :
      value_at s key ≡ some (list (x ∷ rest))
      → ((Lists.lpop key s).0 ≡ ok (some x)) × Leaves key rest s (Lists.lpop key s).1
  unfolding Lists.lpop Lists.lpop_from
  lpop_lem holds = rw (live_entry-value_at key s v, holds) (refl, pop-gate (x ∷ rest) holds)

  pub rpop_lem :
      (l : List Text)
      → value_at s key ≡ some (list l)
      → last? l ≡ some x
      → init l ≡ rest
      → ((Lists.rpop key s).0 ≡ ok (some x)) × Leaves key rest s (Lists.rpop key s).1
  unfolding Lists.rpop Lists.rpop_from
  rpop_lem l holds last front =
      rw (live_entry-value_at key s v, holds, last, front) (refl, pop-gate l holds)
