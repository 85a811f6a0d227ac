-- ===== src/Persistence/Reading.antt =====
-- About the loop of `save`: what it reads from the store.
use mini_store.Store.{
  expire_if_needed, InMemoryStore, StoredValue, string, list, hash, ok, touch, live_entry,
  ValueType, type_of,
}
use mini_store.Persistence.{
  if_text, if_texts, SerializedValue, text, texts, fields, SerializedKey, Dump, pair_up, if_natural,
  value_of, if_fields, store_serialized, serialize_typed, serialize,
}
use mini_store.Prelude.{
  take, length, ℕ, ◌≡◌, ◌∙◌, refl, sym, ap, subst, Bool, true, false, Option, none, some, List, [],
  ◌∷◌, if◌then◌else◌, ℤ, pos, negsuc, Text, text_keyed, arith,
}
use mini_store.JsMap.{JsMap}
use mini_store.JsObject
use mini_store.Store.Invariant.{IsValid}
use mini_store.Store.Calls.{Call, apply}
use mini_store.Store.Preserved.{apply-IsValid}
use mini_store.Store.View.{
  value_at, deadline_at, SameView, SameView-refl, SameView-trans, live_entry-SameView,
  live_entry-value_at, expire_if_needed-SameView,
}
use mini_store.Store.Observers
use mini_store.Store.Observers.{seconds_at}
use mini_store.Store.Strings
use mini_store.Store.Lists
use mini_store.Store.Hashes

-- What a value is written as.
abbrev pub serial : StoredValue → SerializedValue
serial (string v) = text v
serial (list l) = texts l
serial (hash m) = fields (pair_up (Hashes.entries m) [])

abbrev pub written : StoredValue → Option ℕ → ℕ → SerializedKey
written w deadline now = record { value = serial w; ttl = if_natural (seconds_at deadline now) }

-- A reading call: the store stays valid and looks the same.
abbrev pub Keeps : (s t : InMemoryStore) → Type 0
Keeps s t = IsValid t × SameView s t

pub Keeps-trans : {s t u : InMemoryStore} → Keeps s t → Keeps t u → Keeps s u
Keeps-trans (v, p) (w, q) = (w, SameView-trans p q)

take_all : (l : List Text) → take (length l) l ≡ l
take_all [] = refl
take_all (x ∷ l) = ap (λ (t : List Text). x ∷ t) (take_all l)

range_all : (l : List Text) → Lists.range l (pos 0) (negsuc 0) ≡ l
unfolding Lists.range
range_all [] = refl
range_all (x ∷ l) = ground (arith, take_all (x ∷ l))

if-SameView :
    (b : Bool) (x y : ℤ) (s t : InMemoryStore)
    → SameView s t
    → (let r : ℤ × InMemoryStore = if b then (x, t) else (y, t) in SameView s r.1)
if-SameView true x y s t p = p
if-SameView false x y s t p = p

-- The dump with a key's entry.
abbrev pub with_entry : Text → InMemoryStore → Option StoredValue → Dump → Dump
with_entry key s none dump = dump
with_entry key s (some w) dump = JsObject.assign dump key (written w (deadline_at s key) s.now)

module _ (key : Text) (s : InMemoryStore) (v : IsValid s) where
  touched : (o : Option StoredValue) (t : InMemoryStore) → SameView s t → SameView s (touch key t)
  touched o t p = record { values = p.values; deadlines = p.deadlines; now = p.now }

  get-Keeps : Keeps s (Strings.get key s).1
  unfolding Strings.get Strings.get_from apply
  get-Keeps = (
    apply-IsValid (Call.get key) s v,
    from (live_entry key s).0 (live_entry key s).1 (live_entry-SameView key s v),
  )
    where
      from :
          (o : Option StoredValue) (t : InMemoryStore)
          → SameView s t
          → SameView s (Strings.get_from o key t).1
      from none t p = p
      from (some (string x)) t p = touched (some (string x)) t p
      from (some (list x)) t p = p
      from (some (hash x)) t p = p

  lrange-Keeps : Keeps s (Lists.lrange key (pos 0) (negsuc 0) s).1
  unfolding Lists.lrange Lists.lrange_of apply
  lrange-Keeps = (
    apply-IsValid (Call.lrange key (pos 0) (negsuc 0)) s v,
    from (live_entry key s).0 (live_entry key s).1 (live_entry-SameView key s v),
  )
    where
      from :
          (o : Option StoredValue) (t : InMemoryStore)
          → SameView s t
          → SameView s (Lists.lrange_of o key (pos 0) (negsuc 0) t).1
      from none t p = p
      from (some (string x)) t p = p
      from (some (list x)) t p = touched (some (list x)) t p
      from (some (hash x)) t p = p

  hgetall-Keeps : Keeps s (Hashes.hgetall key s).1
  unfolding Hashes.hgetall Hashes.hgetall_of apply
  hgetall-Keeps = (
    apply-IsValid (Call.hgetall key) s v,
    from (live_entry key s).0 (live_entry key s).1 (live_entry-SameView key s v),
  )
    where
      from :
          (o : Option StoredValue) (t : InMemoryStore)
          → SameView s t
          → SameView s (Hashes.hgetall_of o key t).1
      from none t p = p
      from (some (string x)) t p = p
      from (some (list x)) t p = p
      from (some (hash x)) t p = touched (some (hash x)) t p

  hgetall_answer :
      (m : JsMap Text Text)
      → value_at s key ≡ some (hash m)
      → (Hashes.hgetall key s).0 ≡ ok (Hashes.entries m)
  unfolding Hashes.hgetall Hashes.hgetall_of
  hgetall_answer m holds = rw (live_entry-value_at key s v, holds) refl

  key_type-Keeps : Keeps s (Strings.key_type key s).1
  unfolding Strings.key_type apply
  key_type-Keeps = (apply-IsValid (Call.key_type key) s v, live_entry-SameView key s v)

  ttl-Keeps : Keeps s (Strings.ttl key s).1
  unfolding Strings.ttl apply
  ttl-Keeps = (
    apply-IsValid (Call.ttl key) s v,
    if-SameView _ (negsuc 1) _ s (expire_if_needed key s).1 (expire_if_needed-SameView key s v),
  )

  value_of_lem :
      (w : StoredValue)
      → value_at s key ≡ some w
      → ((value_of (type_of w) key s).0 ≡ some (serial w)) × Keeps s (value_of (type_of w) key s).1
  unfolding value_of if_fields
  value_of_lem (string x) holds =
      (ap if_text ((Observers.strings_observe key s v).0 ∙ ap Observers.string_of holds), get-Keeps)
  value_of_lem (list l) holds = (
    ap if_texts (
        (Observers.lists_observe key s v (pos 0) (negsuc 0)).1
        ∙ ap (Observers.list_of [] (λ l. Lists.range l (pos 0) (negsuc 0))) holds
        ∙ ap ok (range_all l)),
    lrange-Keeps,
  )
  value_of_lem (hash m) holds = (ap if_fields (hgetall_answer m holds), hgetall-Keeps)

  ttl_lem :
      (w : StoredValue)
      → value_at s key ≡ some w
      → (Strings.ttl key s).0 ≡ seconds_at (deadline_at s key) s.now
  ttl_lem w holds = Observers.ttl_observes key s v ∙ rw holds refl

module _ (key : Text) (dump : Dump) where
  store_serialized_lem :
      (s t : InMemoryStore)
      → IsValid t
      → SameView s t
      → (w : StoredValue) → value_at s key ≡ some w
      → ((store_serialized key (some (serial w)) dump t).0
          ≡ JsObject.assign dump key (written w (deadline_at s key) s.now))
        × Keeps t (store_serialized key (some (serial w)) dump t).1
  store_serialized_lem s t v p w holds = (
    ap (λ (ttl : ℤ). JsObject.assign dump key (record { value = serial w; ttl = if_natural ttl }))
        (ttl_lem key t v w (p.values key ∙ holds) ∙ rw (p.deadlines key, p.now) refl),
    ttl-Keeps key t v,
  )

  serialize_typed_lem :
      (s t : InMemoryStore)
      → IsValid t
      → SameView s t
      → (o : Option StoredValue) → value_at s key ≡ o
      → ((serialize_typed (Strings.type_if_any o) key dump t).0 ≡ with_entry key s o dump)
        × Keeps t (serialize_typed (Strings.type_if_any o) key dump t).1
  serialize_typed_lem s t v p none holds = (refl, (v, SameView-refl t))
  serialize_typed_lem s t v p (some w) holds =
      let (answer, (v2, p2)) = value_of_lem key t v w (p.values key ∙ holds) in
      let u = (value_of (type_of w) key t).1 in
      let (entry, kept) = store_serialized_lem s u v2 (SameView-trans p p2) w holds in
      subst
        (λ (o : Option SerializedValue).
          ((store_serialized key o dump u).0 ≡ with_entry key s (some w) dump)
          × Keeps t (store_serialized key o dump u).1)
        (sym answer) (entry, Keeps-trans (v2, p2) kept)

  pub serialize_lem :
      (s : InMemoryStore)
      → IsValid s
      → ((serialize key dump s).0 ≡ with_entry key s (value_at s key) dump)
        × Keeps s (serialize key dump s).1
  unfolding serialize
  serialize_lem s v =
      let t = (Strings.key_type key s).1 in
      let (v1, p1) = key_type-Keeps key s v in
      let (entry, kept) = serialize_typed_lem s t v1 p1 (value_at s key) refl in
      subst
        (λ (type : Option ValueType).
          ((serialize_typed type key dump t).0 ≡ with_entry key s (value_at s key) dump)
          × Keeps s (serialize_typed type key dump t).1)
        (sym (Observers.strings_observe key s v).2) (entry, Keeps-trans (v1, p1) kept)
