-- ===== src/Store/View.antt =====
-- What a client can see of a store: for each key its value and its deadline, where it has not
-- expired. The internal steps are stated on this view.
use mini_store.Prelude.{
  ℕ, ◌≡◌, ◌∙◌, inl, inr, refl, ite, Bool, true, Option, none, arith, Text, Text-discrete,
  text_keyed, Bool-cases, is_some, if◌then◌else◌,
}
use mini_store.JsMap
use mini_store.JsMap.{JsMap}
use mini_store.Expiry
use mini_store.Expiry.{ExpiryManager}
use mini_store.Expiry.Validity
use mini_store.Expiry.Validity.{deadline}
use mini_store.Store.{InMemoryStore, StoredValue, remove_key, expire_if_needed, live_entry}
use mini_store.Store.Invariant.{IsValid}
use mini_store.Store.Invariant.{expire_if_needed-IsValid}

unfoldable pub seen_value : JsMap Text StoredValue → ExpiryManager → ℕ → Text → Option StoredValue
seen_value values expiry now key =
    if Expiry.is_expired expiry key now then none else JsMap.get values key

unfoldable pub seen_deadline : ExpiryManager → ℕ → Text → Option ℕ
seen_deadline expiry now key =
    if Expiry.is_expired expiry key now then none else deadline expiry key

-- A key past its deadline.
abbrev pub gone : InMemoryStore → Text → Bool
gone s key = Expiry.is_expired s.expiry key s.now

abbrev pub value_at : InMemoryStore → Text → Option StoredValue
value_at s key = seen_value s.values s.expiry s.now key

abbrev pub deadline_at : InMemoryStore → Text → Option ℕ
deadline_at s key = seen_deadline s.expiry s.now key

-- The two stores look alike.
pub record SameView (s t : InMemoryStore) : Type 0 where
  pub values : (k : Text) → value_at t k ≡ value_at s k
  pub deadlines : (k : Text) → deadline_at t k ≡ deadline_at s k
  pub now : t.now ≡ s.now

pub SameView-refl : (s : InMemoryStore) → SameView s s
SameView-refl s = record { values = λ k. refl; deadlines = λ k. refl; now = refl }

pub SameView-trans : {s t u : InMemoryStore} → SameView s t → SameView t u → SameView s u
SameView-trans p q = record {
  values = λ k. q.values k ∙ p.values k;
  deadlines = λ k. q.deadlines k ∙ p.deadlines k;
  now = q.now ∙ p.now;
}

module _ (e : ExpiryManager) (key : Text) (now : ℕ) (j : Text) where
  cleared_deadline :
      deadline (Expiry.clear e key).0 j ≡ ite (Text-discrete key j) none (deadline e j)
      → seen_deadline (Expiry.clear e key).0 now j
        ≡ ite (Text-discrete key j) none (seen_deadline e now j)
  unfolding seen_deadline Expiry.is_expired
  cleared_deadline h = ground arith

  absent_deadline :
      deadline e key ≡ none
      → seen_deadline e now j ≡ ite (Text-discrete key j) none (seen_deadline e now j)
  unfolding seen_deadline Expiry.is_expired
  absent_deadline h = ground arith

module _ (key : Text) (s : InMemoryStore) (v : IsValid s) where
  pub value_at-remove_key :
      (j : Text) → value_at (remove_key key s) j ≡ ite (Text-discrete key j) none (value_at s j)
  unfolding seen_value remove_key Expiry.is_expired
  value_at-remove_key j = ground (
    arith,
    Validity.deadline-clear s.expiry key v.expiry_valid j,
    JsMap.get-delete s.values key j,
    JsMap.has-get s.values key,
  )

  pub deadline_at-remove_key :
      (j : Text)
      → deadline_at (remove_key key s) j ≡ ite (Text-discrete key j) none (deadline_at s j)
  unfolding remove_key
  deadline_at-remove_key j = elim (Bool-cases (JsMap.has s.values key)) [
    | inl there ↦ rw there (
        cleared_deadline s.expiry key s.now j
          (Validity.deadline-clear s.expiry key v.expiry_valid j))
    | inr absent ↦ rw absent (absent_deadline s.expiry key s.now j (ground (arith, v.subset key)))
  ]

  pub now-remove_key : (remove_key key s).now ≡ s.now
  unfolding remove_key
  now-remove_key = ground arith

  pub expire_if_needed-gone : (expire_if_needed key s).0 ≡ gone s key
  unfolding expire_if_needed Expiry.is_expired
  expire_if_needed-gone = ground (arith, v.subset key)

  hidden :
      gone s key ≡ true → (j : Text) → ite (Text-discrete key j) none (value_at s j) ≡ value_at s j
  unfolding seen_value
  hidden h j = ground arith

  hidden_deadline :
      gone s key ≡ true
      → (j : Text) → ite (Text-discrete key j) none (deadline_at s j) ≡ deadline_at s j
  unfolding seen_deadline
  hidden_deadline h j = ground arith

  -- In a valid store the expiry gate changes no visible value, no visible deadline and not the
  -- clock.
  pub expire_if_needed-SameView : SameView s (expire_if_needed key s).1
  unfolding expire_if_needed
  expire_if_needed-SameView = elim (Bool-cases (JsMap.has s.values key)) [
    | inr absent ↦ rw absent (SameView-refl s)
    | inl there ↦ elim (Bool-cases (Expiry.is_expired s.expiry key s.now)) [
      | inr fresh ↦ rw (there, fresh) (SameView-refl s)
      | inl past ↦
          rw (there, past)
            record {
              values = λ j. value_at-remove_key j ∙ hidden past j;
              deadlines = λ j. deadline_at-remove_key j ∙ hidden_deadline past j;
              now = now-remove_key;
            }
    ]
  ]

  pub live_entry-SameView : SameView s (live_entry key s).1
  unfolding live_entry
  live_entry-SameView = expire_if_needed-SameView

  pub live_entry-IsValid : IsValid (live_entry key s).1
  unfolding live_entry
  live_entry-IsValid = expire_if_needed-IsValid key s v

  -- The entry that an operation goes on with is the one that can be seen.
  pub live_entry-value_at : (live_entry key s).0 ≡ value_at s key
  unfolding live_entry seen_value expire_if_needed
  live_entry-value_at =
      ground (arith, expire_if_needed-gone, JsMap.has-get s.values key, v.subset key)

  -- After the gate the key is stored exactly if it can be seen.
  pub has-live_entry : JsMap.has (live_entry key s).1.values key ≡ is_some (value_at s key)
  unfolding live_entry seen_value expire_if_needed remove_key
  has-live_entry = ground (arith, JsMap.has-get s.values key, JsMap.has-delete s.values key key)

  pub has-expire_if_needed :
      JsMap.has (expire_if_needed key s).1.values key ≡ is_some (value_at s key)
  unfolding live_entry
  has-expire_if_needed = has-live_entry
