-- ===== src/Store/Deadlines.antt =====
-- About the view when a deadline or a value is written.
use mini_store.Prelude.{ℕ, ◌<◌, ◌≡◌, ite, none, some, arith, Text, Text-discrete, text_keyed}
use mini_store.JsMap
use mini_store.JsMap.{JsMap}
use mini_store.Expiry
use mini_store.Expiry.{ExpiryManager}
use mini_store.Expiry.Validity
use mini_store.Store.{InMemoryStore, StoredValue}
use mini_store.Store.Invariant.{IsValid}
use mini_store.Store.View.{value_at, deadline_at, seen_value, seen_deadline}

module _ (key : Text) (e : ExpiryManager) (v : Validity.IsValid e) (values : JsMap Text StoredValue)
    (now : ℕ) where
  pub seen_value-clear :
      (j : Text)
      → seen_value values (Expiry.clear e key).0 now j
        ≡ ite (Text-discrete key j) (JsMap.get values key) (seen_value values e now j)
  unfolding seen_value Expiry.is_expired
  seen_value-clear j = ground (arith, Validity.deadline-clear e key v j)

  pub seen_deadline-clear :
      (j : Text)
      → seen_deadline (Expiry.clear e key).0 now j
        ≡ ite (Text-discrete key j) none (seen_deadline e now j)
  unfolding seen_deadline Expiry.is_expired
  seen_deadline-clear j = ground (arith, Validity.deadline-clear e key v j)

  pub seen_value-expires :
      (t : ℕ)
      → now < t
      → (j : Text)
      → seen_value values (Expiry.set e key t) now j
        ≡ ite (Text-discrete key j) (JsMap.get values key) (seen_value values e now j)
  unfolding seen_value Expiry.is_expired
  seen_value-expires t h j = ground (arith, Validity.deadline-set e key t j)

  pub seen_deadline-expires :
      (t : ℕ)
      → now < t
      → (j : Text)
      → seen_deadline (Expiry.set e key t) now j
        ≡ ite (Text-discrete key j) (some t) (seen_deadline e now j)
  unfolding seen_deadline Expiry.is_expired
  seen_deadline-expires t h j = ground (arith, Validity.deadline-set e key t j)

  pub seen_value-put :
      (w : StoredValue) (j : Text)
      → ite
          (Text-discrete key j)
          (JsMap.get (JsMap.set values key w) key)
          (seen_value (JsMap.set values key w) e now j)
        ≡ ite (Text-discrete key j) (some w) (seen_value values e now j)
  unfolding seen_value
  seen_value-put w j = ground (arith, JsMap.get-set values key w j, JsMap.get-set values key w key)

module _ (key : Text) (s : InMemoryStore) (v : IsValid s) where
  -- A deadline that can be seen is that of a value.
  pub no_deadline : value_at s key ≡ none → deadline_at s key ≡ none
  unfolding seen_value seen_deadline
  no_deadline h = ground (arith, v.subset key, JsMap.has-get s.values key)
