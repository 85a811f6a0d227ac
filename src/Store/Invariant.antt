-- ===== src/Store/Invariant.antt =====
-- The invariant that InMemoryStore.ts states over its class: `#values` and `#lru` hold the same keys,
-- and the keys of `#expiry` are among them. Every internal step keeps it.
use mini_store.Prelude.{
  ℕ, ◌≤◌, ◌<◌, ◌≡◌, inl, inr, true, false, List, ◌∷◌, arith, Text, text_keyed, contains,
  contains-remove, remove, Distinct, Bool-cases, is_some,
}
use mini_store.JsMap
use mini_store.JsMap.{JsMap}
use mini_store.Expiry
use mini_store.Expiry.{ExpiryManager}
use mini_store.Expiry.Validity
use mini_store.Expiry.Validity.{deadline}
use mini_store.Lru.{LruTracker}
use mini_store.Lru.Order.{Tracks}
use mini_store.Lru.Recency
use mini_store.Store.{
  InMemoryStore, StoredValue, touch, put, set_deadline, clear_deadline, remove_key,
  expire_if_needed,
}

pub record Consistent (values : JsMap Text StoredValue) (lru : LruTracker) (expiry : ExpiryManager)
    (max_keys : ℕ) : Type 0 where
  pub order : List Text
  pub tracked : Tracks lru order
  pub same_keys : (k : Text) → contains k order ≡ JsMap.has values k
  pub expiry_valid : Validity.IsValid expiry
  pub subset : (k : Text) → is_some (deadline expiry k) ≡ true → JsMap.has values k ≡ true
  pub distinct : Distinct (JsMap.keys values)
  pub capacity : JsMap.size values ≤ max_keys
  pub positive : 0 < max_keys

abbrev pub IsValid : InMemoryStore → Type 0
IsValid s = Consistent s.values s.lru s.expiry s.max_keys

module _ (key : Text) (s : InMemoryStore) (v : IsValid s) where
  pub touch-IsValid : JsMap.has s.values key ≡ true → IsValid (touch key s)
  unfolding contains
  touch-IsValid h = record {
    order = key ∷ remove key v.order;
    tracked = Recency.touch-Tracks s.lru v.order v.tracked key;
    same_keys = λ k. ground (arith, v.same_keys k, contains-remove key k v.order);
    expiry_valid = v.expiry_valid;
    subset = v.subset;
    distinct = v.distinct;
    capacity = v.capacity;
    positive = v.positive;
  }

  pub replace-IsValid : (w : StoredValue) → JsMap.has s.values key ≡ true → IsValid (put key w s)
  replace-IsValid w h = record {
    order = v.order;
    tracked = v.tracked;
    same_keys = λ k. ground (arith, v.same_keys k, JsMap.has-set s.values key w k);
    expiry_valid = v.expiry_valid;
    subset = λ k. ground (arith, v.subset k, JsMap.has-set s.values key w k);
    distinct = JsMap.Distinct-set s.values key w v.distinct;
    capacity = omega (arith, v.capacity, JsMap.size-set_old s.values key w h);
    positive = v.positive;
  }

  -- A new key may be stored where there is room for it.
  pub insert-IsValid :
      (w : StoredValue)
      → JsMap.has s.values key ≡ false
      → JsMap.size s.values < s.max_keys
      → IsValid (touch key (put key w s))
  unfolding contains
  insert-IsValid w h room = record {
    order = key ∷ remove key v.order;
    tracked = Recency.touch-Tracks s.lru v.order v.tracked key;
    same_keys = λ k.
        ground
          (arith, v.same_keys k, contains-remove key k v.order, JsMap.has-set s.values key w k);
    expiry_valid = v.expiry_valid;
    subset = λ k. ground (arith, v.subset k, JsMap.has-set s.values key w k);
    distinct = JsMap.Distinct-set s.values key w v.distinct;
    capacity = omega (arith, JsMap.size-set_new s.values key w h);
    positive = v.positive;
  }

  pub set_deadline-IsValid :
      (t : ℕ) → JsMap.has s.values key ≡ true → IsValid (set_deadline key t s)
  set_deadline-IsValid t h = record {
    order = v.order;
    tracked = v.tracked;
    same_keys = v.same_keys;
    expiry_valid = Validity.set-IsValid s.expiry key t v.expiry_valid;
    subset = λ k. ground (arith, v.subset k, Validity.deadline-set s.expiry key t k);
    distinct = v.distinct;
    capacity = v.capacity;
    positive = v.positive;
  }

  pub clear_deadline-IsValid : IsValid (clear_deadline key s)
  clear_deadline-IsValid = record {
    order = v.order;
    tracked = v.tracked;
    same_keys = v.same_keys;
    expiry_valid = Validity.clear-IsValid s.expiry key v.expiry_valid;
    subset = λ k. ground (arith, v.subset k, Validity.deadline-clear s.expiry key v.expiry_valid k);
    distinct = v.distinct;
    capacity = v.capacity;
    positive = v.positive;
  }

  pub remove_key-IsValid : IsValid (remove_key key s)
  unfolding remove_key
  remove_key-IsValid = elim (Bool-cases (JsMap.has s.values key)) [
    | inr absent ↦ rw absent v
    | inl there ↦ rw there (record {
      order = remove key v.order;
      tracked = Recency.delete-Tracks s.lru v.order v.tracked key;
      same_keys = λ k.
          ground
            (arith, v.same_keys k, contains-remove key k v.order, JsMap.has-delete s.values key k);
      expiry_valid = Validity.clear-IsValid s.expiry key v.expiry_valid;
      subset = λ k. ground (
        arith,
        v.subset k,
        Validity.deadline-clear s.expiry key v.expiry_valid k,
        JsMap.has-delete s.values key k,
      );
      distinct = JsMap.Distinct-delete s.values key v.distinct;
      capacity = omega (arith, v.capacity, JsMap.size-delete s.values key v.distinct there);
      positive = v.positive;
    })
  ]

  pub expire_if_needed-IsValid : IsValid (expire_if_needed key s).1
  unfolding expire_if_needed
  expire_if_needed-IsValid = elim (Bool-cases (JsMap.has s.values key)) [
    | inr absent ↦ rw absent v
    | inl there ↦ elim (Bool-cases (Expiry.is_expired s.expiry key s.now)) [
      | inr fresh ↦ rw (there, fresh) v
      | inl gone ↦ rw (there, gone) remove_key-IsValid
    ]
  ]
