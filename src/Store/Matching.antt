-- ===== src/Store/Matching.antt =====
-- About KEYS.
use mini_store.Prelude.{
  ◌≡◌, ◌∙◌, refl, sym, ap, ite, Bool, true, false, not, ◌&&◌, is_some, List, [], ◌∷◌, ◌++◌, arith,
  if◌then◌else◌, Text, Text-discrete, text_keyed, contains, Distinct, ◌↔◌,
}
use mathlib.Core.List.{append-nil, append_assoc}
use mini_store.JsMap
use mini_store.Store.{InMemoryStore, expire_if_needed, remove_key}
use mini_store.Store.Invariant.{IsValid, expire_if_needed-IsValid}
use mini_store.Store.View.{
  value_at, seen_value, SameView, SameView-refl, SameView-trans, expire_if_needed-SameView,
  expire_if_needed-gone,
}
use mini_store.Store.Glob.{compile, test}
use mini_store.Store.Globs.{Matches, test_lem}
use mini_store.Store.Keyspace.{keys_loop, keys}

unfoldable pub filter : (Text → Bool) → List Text → List Text
filter keep [] = []
filter keep (k ∷ ks) = if keep k then k ∷ filter keep ks else filter keep ks

-- The keys are all in the map.
abbrev Stored : List Text → InMemoryStore → Type 0
Stored ks s = (j : Text) → contains j ks ≡ true → JsMap.has s.values j ≡ true

module _ (key : Text) (s : InMemoryStore) (v : IsValid s) where
  -- A stored key is visible exactly if it is not past its deadline.
  not_gone :
      JsMap.has s.values key ≡ true → not (expire_if_needed key s).0 ≡ is_some (value_at s key)
  unfolding seen_value
  not_gone h = ground (arith, expire_if_needed-gone key s v, JsMap.has-get s.values key)

  others_stay :
      (j : Text)
      → ite (Text-discrete key j) true false ≡ false
      → JsMap.has (expire_if_needed key s).1.values j ≡ JsMap.has s.values j
  unfolding expire_if_needed remove_key
  others_stay j other = ground (arith, JsMap.has-delete s.values key j)

keys_loop-view :
    (matches : Text → Bool) (ks matched : List Text) (s : InMemoryStore)
    → IsValid s
    → SameView s (keys_loop matches ks matched s).1
unfolding keys_loop
keys_loop-view matches [] matched s v = SameView-refl s
keys_loop-view matches (key ∷ ks) matched s v = SameView-trans (expire_if_needed-SameView key s v) (
    keys_loop-view matches ks
      (if not (expire_if_needed key s).0 && matches key then matched ++ key ∷ [] else matched)
      (expire_if_needed key s).1 (expire_if_needed-IsValid key s v))

first_in : (key : Text) (ks : List Text) → contains key (key ∷ ks) ≡ true
unfolding contains
first_in key ks = ground arith

-- One key more is matched, or not.
matched_filter :
    (keep : Bool) (key : Text) (rest matched : List Text)
    → (if keep then matched ++ key ∷ [] else matched) ++ rest
      ≡ matched ++ (if keep then key ∷ rest else rest)
matched_filter true key rest matched = append_assoc matched (key ∷ []) rest
matched_filter false key rest matched = refl

rest-Stored :
    (key : Text) (ks : List Text) (s : InMemoryStore)
    → IsValid s
    → Distinct (key ∷ ks)
    → Stored (key ∷ ks) s
    → Stored ks (expire_if_needed key s).1
unfolding contains
rest-Stored key ks s v (first, d) stored j inside = elim (Text-discrete key j) [
  | yes same ↦ absurd (ground (arith, ap (λ (k : Text). contains k ks) same))
  | no other ↦ others_stay key s v j (ground arith) ∙ stored j (ground arith)
]

keys_loop-filter :
    (matches seen : Text → Bool) (ks matched : List Text) (s : InMemoryStore)
    → IsValid s
    → ((j : Text) → is_some (value_at s j) ≡ seen j)
    → Distinct ks
    → Stored ks s
    → (keys_loop matches ks matched s).0 ≡ matched ++ filter (λ k. seen k && matches k) ks
unfolding keys_loop filter
keys_loop-filter matches seen [] matched s v sees d stored = sym (append-nil matched)
keys_loop-filter matches seen (key ∷ ks) matched s v sees d stored =
    let s' = (expire_if_needed key s).1 in
    let keep = not (expire_if_needed key s).0 && matches key in
    let same : keep ≡ (seen key && matches key) =
      ap (λ (b : Bool). b && matches key)
        (not_gone key s v (stored key (first_in key ks)) ∙ sees key) in
    keys_loop-filter matches seen ks (if keep then matched ++ key ∷ [] else matched) s'
      (expire_if_needed-IsValid key s v)
      (λ j. ap is_some ((expire_if_needed-SameView key s v).values j) ∙ sees j) d.1
      (rest-Stored key ks s v d stored)
    ∙ matched_filter keep key (filter (λ k. seen k && matches k) ks) matched
    ∙ ap
        (λ (b : Bool).
          matched
          ++ (if b
              then key ∷ filter (λ k. seen k && matches k) ks
              else filter (λ k. seen k && matches k) ks))
        same

-- The visible keys that match the pattern, in insertion order, from a call that changes nothing
-- visible.
abbrev pub Finds : Text → InMemoryStore → List Text × InMemoryStore → Type 0
Finds pattern s (answer, t) =
    (found : Text → Bool) × ((j : Text)
      → (found j ≡ true) ↔ (is_some (value_at s j) ≡ true) × Matches pattern j)
    × (answer ≡ filter found (JsMap.keys s.values))
    × SameView s t

module _ (s : InMemoryStore) (v : IsValid s) (pattern : Text) where
  pub keys-filter :
      ((keys pattern s).0
        ≡ filter (λ k. is_some (value_at s k) && test (compile pattern) k) (JsMap.keys s.values))
      × SameView s (keys pattern s).1
  unfolding keys
  keys-filter = (
    keys_loop-filter (test (compile pattern)) (λ k. is_some (value_at s k)) (JsMap.keys s.values) []
        s v (λ j. refl) v.distinct (λ j inside. sym (JsMap.contains-keys s.values j) ∙ inside),
    keys_loop-view (test (compile pattern)) (JsMap.keys s.values) [] s v,
  )

  -- In a valid store KEYS returns exactly the visible keys that match the pattern, where a star
  -- stands for any run of characters without line terminators and every other character for
  -- itself, in insertion order, and changes nothing visible.
  pub keys_lem : Finds pattern s (keys pattern s)
  keys_lem = (
    (λ k. is_some (value_at s k) && test (compile pattern) k),
    (λ j. (
      (λ h. (ground arith, (test_lem pattern j).0 (ground arith))),
      (λ (seen, m). let t = (test_lem pattern j).1 m in ground arith),
    )),
    keys-filter.0,
    keys-filter.1,
  )
