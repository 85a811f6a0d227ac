-- ===== src/Store/Lifetimes.antt =====
-- What EXPIRE and PERSIST do to the view.
use mini_store.Prelude.{
  not, ◌||◌, inr, inl, ℕ, ◌+◌, ◌*◌, ◌<◌, ◌≡◌, ◌∙◌, refl, ite, true, false, none, some, arith, Text,
  Text-discrete, text_keyed, Bool-cases, is_some, if◌then◌else◌,
}
use mini_store.JsMap
use mini_store.JsMap.{JsMap}
use mini_store.Expiry
use mini_store.Expiry.{ExpiryManager}
use mini_store.Expiry.Validity
use mini_store.Store.{InMemoryStore, expire_if_needed}
use mini_store.Store.Invariant.{IsValid, expire_if_needed-IsValid}
use mini_store.Store.View.{
  value_at, deadline_at, seen_value, seen_deadline, SameView, expire_if_needed-gone,
  expire_if_needed-SameView, has-expire_if_needed,
}
use mini_store.Store.Writes.{gate_fresh}
use mini_store.Store.Strings
use mini_store.Store.Deadlines.{
  seen_value-clear, seen_deadline-clear, seen_value-expires, seen_deadline-expires, no_deadline,
}

module _ (key : Text) (s : InMemoryStore) (v : IsValid s) where
  s1 : InMemoryStore
  s1 = (expire_if_needed key s).1

  v1 : IsValid s1
  unfolding s1
  v1 = expire_if_needed-IsValid key s v

  view : SameView s s1
  unfolding s1
  view = expire_if_needed-SameView key s v

  hidden_if : (expire_if_needed key s).0 ≡ true → is_some (value_at s key) ≡ false
  unfolding seen_value
  hidden_if past = ground (arith, expire_if_needed-gone key s v)

  no_value : JsMap.has s1.values key ≡ false → is_some (value_at s key) ≡ false
  unfolding s1
  no_value absent = ground (arith, has-expire_if_needed key s v)

  a_value : JsMap.has s1.values key ≡ true → is_some (value_at s key) ≡ true
  unfolding s1
  a_value there = ground (arith, has-expire_if_needed key s v)

  same_value : value_at s1 key ≡ JsMap.get s1.values key
  unfolding s1 seen_value
  same_value = ground (arith, gate_fresh key s v)

  unseen :
      ((expire_if_needed key s).0 || not (JsMap.has s1.values key)) ≡ true → value_at s key ≡ none
  unfolding s1 seen_value
  unseen h = ground (arith, expire_if_needed-gone key s v, has-expire_if_needed key s v)

  unchanged :
      value_at s key ≡ none
      → (j : Text) → deadline_at s j ≡ ite (Text-discrete key j) none (deadline_at s j)
  unchanged h j = ground (arith, no_deadline key s v)

  no_deadline_here : Expiry.has s1.expiry key ≡ false → deadline_at s key ≡ none
  unfolding s1 seen_deadline
  no_deadline_here h = ground (arith, view.deadlines key, Validity.has-deadline s1.expiry key)

  a_deadline : Expiry.has s1.expiry key ≡ true → is_some (deadline_at s key) ≡ true
  unfolding s1 seen_deadline
  a_deadline h =
      ground (arith, view.deadlines key, Validity.has-deadline s1.expiry key, gate_fresh key s v)

  -- EXPIRE with a positive number of seconds answers whether the key is visible, keeps every
  -- visible value, and moves the deadline of that key alone, to that many seconds from now.
  pub expire_lem :
      (seconds : ℕ)
      → 0 < seconds
      → ((Strings.expire key seconds s).0 ≡ is_some (value_at s key))
        × ((j : Text) → value_at (Strings.expire key seconds s).1 j ≡ value_at s j)
        × ((j : Text)
            → deadline_at (Strings.expire key seconds s).1 j ≡ (
                if is_some (value_at s key)
                then ite (Text-discrete key j) (some (s.now + seconds * 1000)) (deadline_at s j)
                else deadline_at s j))
  unfolding Strings.expire s1
  expire_lem seconds h = elim (Bool-cases (expire_if_needed key s).0) [
    | inl past ↦ rw past (
      ground (arith, hidden_if past),
      view.values,
      (λ j. rw (hidden_if past, view.deadlines j) refl),
    )
    | inr live ↦ elim (Bool-cases (JsMap.has s1.values key)) [
      | inr absent ↦
          rw (live, absent)
            (
              ground (arith, has-expire_if_needed key s v),
              view.values,
              (λ j. rw (no_value absent, view.deadlines j) refl),
            )
      | inl there ↦
          rw (live, there)
            (
              ground (arith, has-expire_if_needed key s v),
              (λ j.
                  seen_value-expires key s1.expiry v1.expiry_valid s1.values s1.now
                    (s1.now + seconds * 1000) (omega arith) j
                  ∙ ground (arith, view.values j, same_value)),
              (λ j.
                  seen_deadline-expires key s1.expiry v1.expiry_valid s1.values s1.now
                    (s1.now + seconds * 1000) (omega arith) j
                  ∙ rw (a_value there, view.deadlines j, view.now) refl),
            )
    ]
  ]

  -- PERSIST answers whether the key has a visible deadline, keeps every visible value, and
  -- removes the deadline of that key alone.
  pub persist_lem :
      ((Strings.persist key s).0 ≡ is_some (deadline_at s key))
      × ((j : Text) → value_at (Strings.persist key s).1 j ≡ value_at s j)
      × ((j : Text)
          → deadline_at (Strings.persist key s).1 j
            ≡ ite (Text-discrete key j) none (deadline_at s j))
  unfolding Strings.persist s1
  persist_lem = elim (Bool-cases ((expire_if_needed key s).0 || not (JsMap.has s1.values key))) [
    | inl hidden ↦ rw hidden (
      ground (arith, unseen hidden, no_deadline key s v),
      view.values,
      (λ j. rw (view.deadlines j) (unchanged (unseen hidden) j)),
    )
    | inr live ↦ elim (Bool-cases (Expiry.has s1.expiry key)) [
      | inr never ↦
          rw (live, never)
            (
              ground (arith, no_deadline_here never),
              view.values,
              (λ j. rw (view.deadlines j) (ground (arith, no_deadline_here never))),
            )
      | inl mortal ↦
          rw (live, mortal)
            (
              ground (arith, a_deadline mortal),
              (λ j.
                  seen_value-clear key s1.expiry v1.expiry_valid s1.values s1.now j
                  ∙ ground (arith, view.values j, same_value)),
              (λ j.
                  seen_deadline-clear key s1.expiry v1.expiry_valid s1.values s1.now j
                  ∙ rw (view.deadlines j) refl),
            )
    ]
  ]
