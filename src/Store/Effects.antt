-- ===== src/Store/Effects.antt =====
-- What SET and DEL do to the view.
use mini_store.Prelude.{
  inr, inl, ℕ, ◌+◌, ◌*◌, ◌<◌, ◌≡◌, ◌∙◌, refl, ite, false, Option, none, some, arith, Text,
  Text-discrete, text_keyed, Bool-cases, is_some, if◌then◌else◌,
}
use mini_store.JsMap
use mini_store.JsMap.{JsMap}
use mini_store.Store.{InMemoryStore, string, expire_if_needed, reserve_slot_for}
use mini_store.Store.Invariant.{IsValid, expire_if_needed-IsValid}
use mini_store.Store.Room.{victim_for, is_victim, reserve_slot_for-IsValid}
use mini_store.Store.View.{
  value_at, deadline_at, expire_if_needed-SameView, has-expire_if_needed, value_at-remove_key,
  deadline_at-remove_key,
}
use mini_store.Store.Writes.{value_at-reserve, deadline_at-reserve, now-reserve}
use mini_store.Store.Strings
use mini_store.Store.Deadlines.{
  seen_value-clear, seen_deadline-clear, seen_value-expires, seen_deadline-expires, seen_value-put,
  no_deadline,
}

-- The key that SET of `key` evicts, if any.
abbrev pub evicted_by : Text → InMemoryStore → Option Text
evicted_by key s = victim_for key (expire_if_needed key s).1

-- The deadline that a TTL of SET stands for.
abbrev pub deadline_of : Option ℕ → ℕ → Option ℕ
deadline_of none now = none
deadline_of (some seconds) now = some (now + seconds * 1000)

-- No TTL, or one that is positive, as the parser of the protocol makes sure.
abbrev pub PositiveTtl : Option ℕ → Type 0
PositiveTtl none = Unit
PositiveTtl (some seconds) = 0 < seconds

module _ (key : Text) (s : InMemoryStore) (v : IsValid s) where
  s1 : InMemoryStore
  s1 = (expire_if_needed key s).1

  s2 : InMemoryStore
  unfolding s1
  s2 = reserve_slot_for key s1

  v1 : IsValid s1
  unfolding s1 expire_if_needed
  v1 = expire_if_needed-IsValid key s v

  v2 : IsValid s2
  unfolding s2
  v2 = reserve_slot_for-IsValid key s1 v1

  value_set :
      (value : Text) (ttl : Option ℕ)
      → PositiveTtl ttl
      → (j : Text)
      → value_at (Strings.set key value ttl s) j
        ≡ ite (Text-discrete key j) (some (string value)) (value_at s2 j)
  unfolding Strings.set s1 s2
  value_set value none h j =
      seen_value-clear key s2.expiry v2.expiry_valid (JsMap.set s2.values key (string value)) s2.now
        j
      ∙ seen_value-put key s2.expiry v2.expiry_valid s2.values s2.now (string value) j
  value_set value (some n) h j =
      seen_value-expires key s2.expiry v2.expiry_valid (JsMap.set s2.values key (string value))
        s2.now (s2.now + n * 1000) (omega arith) j
      ∙ seen_value-put key s2.expiry v2.expiry_valid s2.values s2.now (string value) j

  deadline_set :
      (value : Text) (ttl : Option ℕ)
      → PositiveTtl ttl
      → (j : Text)
      → deadline_at (Strings.set key value ttl s) j
        ≡ ite (Text-discrete key j) (deadline_of ttl s2.now) (deadline_at s2 j)
  unfolding Strings.set s1 s2
  deadline_set value none h j = seen_deadline-clear key s2.expiry v2.expiry_valid s2.values s2.now j
  deadline_set value (some n) h j =
      seen_deadline-expires key s2.expiry v2.expiry_valid s2.values s2.now (s2.now + n * 1000)
        (omega arith) j

  now_set : s2.now ≡ s.now
  unfolding s1 s2
  now_set = now-reserve key s1 v1 ∙ (expire_if_needed-SameView key s v).now

  -- SET stores the string at its key and gives it exactly the deadline of its TTL (none without
  -- one; a TTL has to be positive), and changes no other visible value or deadline but that of
  -- the key it evicts.
  pub set_lem :
      (value : Text) (ttl : Option ℕ)
      → PositiveTtl ttl
      → (j : Text)
      → (value_at (Strings.set key value ttl s) j
          ≡ ite
              (Text-discrete key j)
              (some (string value))
              (if is_victim (evicted_by key s) j then none else value_at s j))
        × (deadline_at (Strings.set key value ttl s) j
            ≡ ite
                (Text-discrete key j)
                (deadline_of ttl s.now)
                (if is_victim (evicted_by key s) j then none else deadline_at s j))
  unfolding s1 s2
  set_lem value ttl h j =
      let gate = expire_if_needed-SameView key s v in
      (
        rw (value_set value ttl h j, value_at-reserve key s1 v1 j, gate.values j) refl,
        rw (deadline_set value ttl h j, deadline_at-reserve key s1 v1 j, gate.deadlines j, now_set)
            refl,
      )

  -- DEL answers whether the key is visible, and removes its visible value and deadline and those
  -- of no other key.
  pub del_lem :
      ((Strings.del key s).0 ≡ is_some (value_at s key))
      × ((j : Text)
          → value_at (Strings.del key s).1 j ≡ ite (Text-discrete key j) none (value_at s j))
      × ((j : Text)
          → deadline_at (Strings.del key s).1 j ≡ ite (Text-discrete key j) none (deadline_at s j))
  unfolding Strings.del s1
  del_lem = elim (Bool-cases (JsMap.has s1.values key)) [
    | inl there ↦ rw there (
      ground (arith, has-expire_if_needed key s v),
      (λ j.
          rw (value_at-remove_key key s1 v1 j, (expire_if_needed-SameView key s v).values j) refl),
      (λ j.
          rw (deadline_at-remove_key key s1 v1 j, (expire_if_needed-SameView key s v).deadlines j)
            refl),
    )
    | inr absent ↦ rw absent (
      ground (arith, has-expire_if_needed key s v),
      (λ j. rw ((expire_if_needed-SameView key s v).values j) (absent_value absent j)),
      (λ j. rw ((expire_if_needed-SameView key s v).deadlines j) (absent_deadline absent j)),
    )
  ]
    where
      no_value : JsMap.has s1.values key ≡ false → value_at s key ≡ none
      no_value h = ground (arith, has-expire_if_needed key s v)

      absent_value :
          JsMap.has s1.values key ≡ false
          → (j : Text) → value_at s j ≡ ite (Text-discrete key j) none (value_at s j)
      absent_value h j = ground (arith, no_value h)

      absent_deadline :
          JsMap.has s1.values key ≡ false
          → (j : Text) → deadline_at s j ≡ ite (Text-discrete key j) none (deadline_at s j)
      absent_deadline h j = ground (arith, no_value h, no_deadline key s v)
