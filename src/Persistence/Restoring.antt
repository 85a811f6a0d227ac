-- ===== src/Persistence/Restoring.antt =====
-- About `restore`: what the store looks like afterwards.
use mini_store.Prelude.{
  ℕ, ◌+◌, ◌≤◌, ◌≡◌, ◌∙◌, refl, ap, true, false, Option, none, some, List, [], ◌∷◌, ite, length,
  Text, Text-discrete, text_keyed, contains, Distinct, arith,
}
use mini_store.JsMap
use mini_store.Store.{InMemoryStore, StoredValue}
use mini_store.Store.Invariant.{IsValid}
use mini_store.Store.View.{value_at, deadline_at}
use mini_store.Store.Effects.{deadline_of, PositiveTtl}
use mini_store.Persistence.{SerializedKey, put_back, is_over, restore_all}
use mini_store.Persistence.Placing.{put_back-IsValid, put_back-Places, put_back-Grows, Places, back}

-- What the entries of a dump give a key.
abbrev pub value_back : Option SerializedKey → Option StoredValue → Option StoredValue
value_back none old = old
value_back (some serialized) old = some (back serialized.value)

abbrev pub deadline_back : Option SerializedKey → ℕ → Option ℕ → Option ℕ
deadline_back none now old = old
deadline_back (some serialized) now old = deadline_of serialized.ttl now

-- The entries are for keys without a visible value, have a positive TTL or none, and find room.
abbrev pub AllPositive : List (Text × SerializedKey) → Type 0
AllPositive [] = Unit
AllPositive ((key, serialized) ∷ entries) = PositiveTtl serialized.ttl × AllPositive entries

abbrev pub Unseen : List (Text × SerializedKey) → InMemoryStore → Type 0
Unseen entries s =
    (j : Text) → JsMap.has entries j ≡ true → (value_at s j ≡ none) × (deadline_at s j ≡ none)

in_time : (ttl : Option ℕ) → PositiveTtl ttl → is_over ttl ≡ false
in_time none positive = refl
in_time (some n) positive = ground arith

module _ (key : Text) (serialized : SerializedKey) (entries : List (Text × SerializedKey))
    (s t : InMemoryStore) (new : contains key (JsMap.keys entries) ≡ false)
    (placed : Places key (back serialized.value) (deadline_of serialized.ttl s.now) s t) where
  not_first : (j : Text) → JsMap.has entries j ≡ true → ite (Text-discrete key j) true false ≡ false
  not_first j inside = elim (Text-discrete key j) [
    | yes same ↦
        absurd (ground (arith, ap (JsMap.has entries) same, JsMap.contains-keys entries key))
    | no other ↦ ground arith
  ]

  Unseen-rest : Unseen ((key, serialized) ∷ entries) s → Unseen entries t
  unfolding JsMap.has JsMap.get
  Unseen-rest unseen j inside =
      let apart = not_first j inside in
      let (value, deadline) = unseen j (ground arith) in
      (placed.0 j ∙ ground arith, placed.1 j ∙ ground arith)

  absent : JsMap.get entries key ≡ none
  unfolding JsMap.has
  absent = ground (arith, JsMap.contains-keys entries key)

  value-rest :
      (j : Text)
      → value_back (JsMap.get entries j) (value_at t j)
        ≡ value_back (JsMap.get ((key, serialized) ∷ entries) j) (value_at s j)
  unfolding JsMap.get
  value-rest j = elim (Text-discrete key j) [
    | yes same ↦ ground (arith, placed.0 j, ap (JsMap.get entries) same, absent)
    | no other ↦ ground (arith, placed.0 j)
  ]

  deadline-rest :
      (j : Text)
      → deadline_back (JsMap.get entries j) s.now (deadline_at t j)
        ≡ deadline_back (JsMap.get ((key, serialized) ∷ entries) j) s.now (deadline_at s j)
  unfolding JsMap.get
  deadline-rest j = elim (Text-discrete key j) [
    | yes same ↦ ground (arith, placed.1 j, ap (JsMap.get entries) same, absent)
    | no other ↦ ground (arith, placed.1 j)
  ]

first_has :
    (key : Text) (serialized : SerializedKey) (entries : List (Text × SerializedKey))
    → JsMap.has ((key, serialized) ∷ entries) key ≡ true
unfolding JsMap.has JsMap.get
first_has key serialized entries = ground arith

pub restore_all_lem :
    (entries : List (Text × SerializedKey)) (n : ℕ) (s : InMemoryStore)
    → IsValid s
    → Distinct (JsMap.keys entries)
    → AllPositive entries
    → Unseen entries s
    → JsMap.size s.values + length entries ≤ s.max_keys
    → ((restore_all entries n s).0 ≡ n + length entries)
      × ((j : Text)
          → value_at (restore_all entries n s).1 j
            ≡ value_back (JsMap.get entries j) (value_at s j))
      × ((j : Text)
          → deadline_at (restore_all entries n s).1 j
            ≡ deadline_back (JsMap.get entries j) s.now (deadline_at s j))
unfolding restore_all JsMap.get
restore_all_lem [] n s v d positive unseen room = (omega arith, (λ j. refl), (λ j. refl))
restore_all_lem ((key, serialized) ∷ entries) n s v (new, d) (positive, others) unseen room =
    let t = put_back key serialized.value serialized.ttl s in
    let (here, timeless) = unseen key (first_has key serialized entries) in
    let placed =
      put_back-Places key s v (omega arith) here timeless serialized.value serialized.ttl
        positive in
    let (clock, capacity, size) = put_back-Grows key serialized.value serialized.ttl s in
    let (count, values, deadlines) =
      restore_all_lem entries (n + 1) t (put_back-IsValid key serialized.value serialized.ttl s v) d
        others (Unseen-rest key serialized entries s t new placed unseen) (omega arith) in
    rw (in_time serialized.ttl positive) (
      omega arith,
      (λ j. values j ∙ value-rest key serialized entries s t new placed j),
      (λ j.
          deadlines j
          ∙ ap (λ (now : ℕ). deadline_back (JsMap.get entries j) now (deadline_at t j)) clock
          ∙ deadline-rest key serialized entries s t new placed j),
    )
