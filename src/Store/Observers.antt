-- ===== src/Store/Observers.antt =====
-- About the reading operations of `InMemoryStore`: their answers as functions of the view.
use mini_store.Prelude.{
  [], length, arith, ◌/◌, ◌+◌, ◌-◌, pos, ℤ, ap, none, negsuc, ℕ, is_some, if◌then◌else◌, some,
  Option, Text, List, ◌≡◌, refl,
}
use mini_store.Store.{
  live_entry, JsMap, InMemoryStore, StoredValue, string, list, hash, StoreResult, ok, wrong_type,
}
use mini_store.Store.Invariant.{IsValid}
use mini_store.Store.View.{
  value_at, deadline_at, seen_value, seen_deadline, expire_if_needed-gone,
  expire_if_needed-SameView, live_entry-value_at, has-expire_if_needed,
}
use mini_store.Expiry
use mini_store.Store.Writes.{gate_fresh}
use mini_store.Store.Strings
use mini_store.Store.Lists

-- The answers, read off a key's visible value.
abbrev pub string_of : Option StoredValue → Option Text
string_of (some (string v)) = some v
string_of _ = none

abbrev pub list_of : {A : Type 0} → A → (List Text → A) → Option StoredValue → StoreResult A
list_of default read none = ok default
list_of default read (some (list l)) = ok (read l)
list_of default read (some _) = wrong_type

abbrev pub hash_of : {A : Type 0} → A → (JsMap Text Text → A) → Option StoredValue → StoreResult A
hash_of default read none = ok default
hash_of default read (some (hash m)) = ok (read m)
hash_of default read (some _) = wrong_type

-- The remaining time in seconds, rounded up; -1 with no deadline.
abbrev pub seconds_at : Option ℕ → ℕ → ℤ
seconds_at none now = negsuc 0
seconds_at (some deadline) now = pos ((deadline - now + 999) / 1000)

module _ (key : Text) (s : InMemoryStore) (v : IsValid s) where
  entry : (live_entry key s).0 ≡ value_at s key
  entry = live_entry-value_at key s v

  exists_observes : (Strings.exists key s).0 ≡ is_some (value_at s key)
  unfolding Strings.exists seen_value
  exists_observes = ground (arith, has-expire_if_needed key s v, expire_if_needed-gone key s v)

  -- In a valid store GET, EXISTS and the type probe answer from the visible value of the key:
  -- GET with the string (nothing for another kind), EXISTS with whether there is one, the probe
  -- with its kind.
  pub strings_observe :
      ((Strings.get key s).0 ≡ string_of (value_at s key))
      × ((Strings.exists key s).0 ≡ is_some (value_at s key))
      × ((Strings.key_type key s).0 ≡ Strings.type_if_any (value_at s key))
  unfolding Strings.get Strings.get_from Strings.exists Strings.key_type
  strings_observe = (
    rw (entry) (get_of (value_at s key) (live_entry key s).1),
    exists_observes,
    ap Strings.type_if_any entry,
  )
    where
      get_of :
          (o : Option StoredValue) (t : InMemoryStore) → (Strings.get_from o key t).0 ≡ string_of o
      get_of none t = refl
      get_of (some (string x)) t = refl
      get_of (some (list x)) t = refl
      get_of (some (hash x)) t = refl

  -- In a valid store TTL is -2 where no value is visible, -1 where the value has no deadline,
  -- and else the remaining time in seconds, rounded up.
  pub ttl_observes :
      (Strings.ttl key s).0
      ≡ (if is_some (value_at s key) then seconds_at (deadline_at s key) s.now else negsuc 1)
  unfolding Strings.ttl Expiry.remaining_ms seen_deadline seen_value Expiry.is_expired
  ttl_observes =
      let view = expire_if_needed-SameView key s v in
      ground (
        arith,
        has-expire_if_needed key s v,
        expire_if_needed-gone key s v,
        gate_fresh key s v,
        view.values key,
        view.deadlines key,
        view.now,
      )

  -- In a valid store LLEN and LRANGE answer from the visible value of the key: its length and
  -- its range for a list, zero and nothing where there is none, the type error for another kind.
  pub lists_observe :
      (start stop : ℤ)
      → ((Lists.llen key s).0 ≡ list_of 0 length (value_at s key))
        × ((Lists.lrange key start stop s).0
            ≡ list_of [] (λ l. Lists.range l start stop) (value_at s key))
  unfolding Lists.llen Lists.lrange
  lists_observe start stop = (
    rw (entry) (llen_read (value_at s key) (live_entry key s).1),
    rw (entry) (lrange_read (value_at s key) (live_entry key s).1),
  )
    where
      llen_read :
          (o : Option StoredValue) (t : InMemoryStore)
          → (Lists.llen_of o key t).0 ≡ list_of 0 length o
      llen_read none t = refl
      llen_read (some (string x)) t = refl
      llen_read (some (list x)) t = refl
      llen_read (some (hash x)) t = refl

      lrange_read :
          (o : Option StoredValue) (t : InMemoryStore)
          → (Lists.lrange_of o key start stop t).0 ≡ list_of [] (λ l. Lists.range l start stop) o
      lrange_read none t = refl
      lrange_read (some (string x)) t = refl
      lrange_read (some (list x)) t = refl
      lrange_read (some (hash x)) t = refl
