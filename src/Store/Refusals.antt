-- ===== src/Store/Refusals.antt =====
-- About the operations of `InMemoryStore` on a key whose value is of another kind.
use mini_store.Prelude.{
  arith, ◌≡◌, ◌≢◌, ◌⊎◌, inl, inr, refl, Option, none, some, is_some, true, List, ℤ, Text,
}
use mini_store.JsMap.{JsMap}
use mini_store.Store.{
  InMemoryStore, StoredValue, string, list, hash, StoreResult, wrong_type, ValueType, string_type,
  list_type, hash_type, live_entry,
}
use mini_store.Store.Invariant.{IsValid}
use mini_store.Store.View.{value_at, SameView, live_entry-SameView, live_entry-value_at}
use mini_store.Store.Strings
use mini_store.Store.Lists
use mini_store.Store.Hashes

-- The type error, from a call that leaves everything that can be seen as it was.
abbrev pub Refused : {A : Type 0} → InMemoryStore → StoreResult A × InMemoryStore → Type 0
Refused s (answer, t) = (answer ≡ wrong_type) × SameView s t

-- What every operation on values of the kind does at the key. GET has no type error of its own: it
-- answers nothing.
abbrev pub Refuses : ValueType → Text → InMemoryStore → Type 0
Refuses string_type key s = ((Strings.get key s).0 ≡ none) × SameView s (Strings.get key s).1
Refuses list_type key s =
    ((values : List Text) → Refused s (Lists.lpush key values s))
    × ((values : List Text) → Refused s (Lists.rpush key values s))
    × Refused s (Lists.lpop key s)
    × Refused s (Lists.rpop key s)
    × Refused s (Lists.llen key s)
    × ((start stop : ℤ) → Refused s (Lists.lrange key start stop s))
Refuses hash_type key s =
    ((pairs : List (Text × Text)) → Refused s (Hashes.hset key pairs s))
    × ((fields : List Text) → Refused s (Hashes.hdel key fields s))
    × ((field : Text) → Refused s (Hashes.hget key field s))
    × Refused s (Hashes.hgetall key s)
    × Refused s (Hashes.hlen key s)

no_string :
    (o : Option StoredValue)
    → is_some o ≡ true
    → Strings.type_if_any o ≢ some string_type
    → ((l : List Text) × (o ≡ some (list l))) ⊎ ((m : JsMap Text Text) × (o ≡ some (hash m)))
no_string none there other = ground arith
no_string (some (string x)) there other = absurd (other refl)
no_string (some (list l)) there other = inl (l, refl)
no_string (some (hash m)) there other = inr (m, refl)

no_list :
    (o : Option StoredValue)
    → is_some o ≡ true
    → Strings.type_if_any o ≢ some list_type
    → ((x : Text) × (o ≡ some (string x))) ⊎ ((m : JsMap Text Text) × (o ≡ some (hash m)))
no_list none there other = ground arith
no_list (some (string x)) there other = inl (x, refl)
no_list (some (list l)) there other = absurd (other refl)
no_list (some (hash m)) there other = inr (m, refl)

no_hash :
    (o : Option StoredValue)
    → is_some o ≡ true
    → Strings.type_if_any o ≢ some hash_type
    → ((x : Text) × (o ≡ some (string x))) ⊎ ((l : List Text) × (o ≡ some (list l)))
no_hash none there other = ground arith
no_hash (some (string x)) there other = inl (x, refl)
no_hash (some (list l)) there other = inr (l, refl)
no_hash (some (hash m)) there other = absurd (other refl)

module _ (key : Text) (s : InMemoryStore) (v : IsValid s)
    (there : is_some (value_at s key) ≡ true) where
  same : SameView s (live_entry key s).1
  same = live_entry-SameView key s v

  -- A key that holds a visible value of another kind refuses every operation of a kind: the list
  -- and the hash operations answer the type error and GET answers nothing, and no visible value
  -- and no deadline of any key changes.
  pub other_kind-Refuses :
      (kind : ValueType) → Strings.type_if_any (value_at s key) ≢ some kind → Refuses kind key s
  unfolding Strings.get Strings.get_from Lists.lpush Lists.lpush_to Lists.rpush Lists.rpush_to
      Lists.lpop Lists.lpop_from Lists.rpop Lists.rpop_from Lists.llen Lists.llen_of Lists.lrange
      Lists.lrange_of Hashes.hset Hashes.hset_to Hashes.hdel Hashes.hdel_from Hashes.hget
      Hashes.hget_of Hashes.hgetall Hashes.hgetall_of Hashes.hlen Hashes.hlen_of
  other_kind-Refuses string_type other = elim (no_string (value_at s key) there other) [
    | inl (l, holds) ↦ rw (live_entry-value_at key s v, holds) (refl, same)
    | inr (m, holds) ↦ rw (live_entry-value_at key s v, holds) (refl, same)
  ]
  other_kind-Refuses list_type other = elim (no_list (value_at s key) there other) [
    | inl (x, holds) ↦
        rw (live_entry-value_at key s v, holds)
          (
            (λ values. (refl, same)),
            (λ values. (refl, same)),
            (refl, same),
            (refl, same),
            (refl, same),
            λ start stop. (refl, same),
          )
    | inr (m, holds) ↦
        rw (live_entry-value_at key s v, holds)
          (
            (λ values. (refl, same)),
            (λ values. (refl, same)),
            (refl, same),
            (refl, same),
            (refl, same),
            λ start stop. (refl, same),
          )
  ]
  other_kind-Refuses hash_type other = elim (no_hash (value_at s key) there other) [
    | inl (x, holds) ↦
        rw (live_entry-value_at key s v, holds)
          (
            (λ pairs. (refl, same)),
            (λ fields. (refl, same)),
            (λ field. (refl, same)),
            (refl, same),
            (refl, same),
          )
    | inr (l, holds) ↦
        rw (live_entry-value_at key s v, holds)
          (
            (λ pairs. (refl, same)),
            (λ fields. (refl, same)),
            (λ field. (refl, same)),
            (refl, same),
            (refl, same),
          )
  ]
