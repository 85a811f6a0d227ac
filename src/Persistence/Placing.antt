-- ===== src/Persistence/Placing.antt =====
-- About one entry that `restore` puts back.
use mini_store.Prelude.{
  ℕ, ◌+◌, ◌*◌, ◌<◌, ◌≡◌, ◌∙◌, refl, ap, subst, inl, inr, true, Option, none, some, is_some, List,
  [], ◌∷◌, ite, Text, Text-discrete, text_keyed, Bool-cases, arith,
}
use mini_store.JsMap
use mini_store.JsObject
use mini_store.Store.{InMemoryStore, StoredValue, string, list, hash}
use mini_store.Store.Invariant.{IsValid}
use mini_store.Store.Calls.{Call, apply}
use mini_store.Store.Preserved.{apply-IsValid}
use mini_store.Store.View.{value_at, deadline_at}
use mini_store.Store.Effects.{evicted_by, deadline_of, PositiveTtl, set_lem}
use mini_store.Store.Lifetimes.{expire_lem}
use mini_store.Store.Stored.{Stores}
use mini_store.Store.Pushes.{list_at, rpush_lem}
use mini_store.Store.SetFields.{hash_at, hset-SetsFields}
use mini_store.Store.Growth.{Grows, room_keeps, set-Grows, rpush-Grows, hset-Grows, expire-Grows}
use mini_store.Store.Strings
use mini_store.Store.Lists
use mini_store.Store.Hashes
use mini_store.Persistence.{
  SerializedKey, SerializedValue, text, texts, fields, expire_if_given, put_back, is_over,
  restore_all,
}

expire_if_given-IsValid :
    (ttl : Option ℕ) (key : Text) (s : InMemoryStore)
    → IsValid s
    → IsValid (expire_if_given ttl key s)
unfolding apply
expire_if_given-IsValid none key s v = v
expire_if_given-IsValid (some seconds) key s v = apply-IsValid (Call.expire key seconds) s v

pub put_back-IsValid :
    (key : Text) (value : SerializedValue) (ttl : Option ℕ) (s : InMemoryStore)
    → IsValid s
    → IsValid (put_back key value ttl s)
unfolding put_back apply
put_back-IsValid key (text t) ttl s v = apply-IsValid (Call.set key t ttl) s v
put_back-IsValid key (texts l) ttl s v =
    expire_if_given-IsValid ttl key (Lists.rpush key l s).1 (apply-IsValid (Call.rpush key l) s v)
put_back-IsValid key (fields obj) ttl s v =
    let pairs = JsObject.entries obj in
    expire_if_given-IsValid ttl key (Hashes.hset key pairs s).1
      (apply-IsValid (Call.hset key pairs) s v)

pub restore_all-IsValid :
    (rest : List (Text × SerializedKey)) (n : ℕ) (s : InMemoryStore)
    → IsValid s
    → IsValid (restore_all rest n s).1
unfolding restore_all
restore_all-IsValid [] n s v = v
restore_all-IsValid ((key, serialized) ∷ rest) n s v = elim (Bool-cases (is_over serialized.ttl)) [
  | inl over ↦ rw over (restore_all-IsValid rest n s v)
  | inr fresh ↦ rw fresh (
      restore_all-IsValid rest (n + 1) (put_back key serialized.value serialized.ttl s)
        (put_back-IsValid key serialized.value serialized.ttl s v))
]

apply_rpush-IsValid :
    (key : Text) (l : List Text) (s : InMemoryStore) → IsValid s → IsValid (Lists.rpush key l s).1
unfolding apply
apply_rpush-IsValid key l s v = apply-IsValid (Call.rpush key l) s v

apply_hset-IsValid :
    (key : Text) (pairs : List (Text × Text)) (s : InMemoryStore)
    → IsValid s
    → IsValid (Hashes.hset key pairs s).1
unfolding apply
apply_hset-IsValid key pairs s v = apply-IsValid (Call.hset key pairs) s v

-- The value that comes back.
abbrev pub back : SerializedValue → StoredValue
back (text t) = string t
back (texts l) = list l
back (fields obj) = hash (Hashes.set_fields (JsObject.entries obj) [] 0).0

-- One entry more, and everything else as before.
abbrev pub Places : Text → StoredValue → Option ℕ → (s t : InMemoryStore) → Type 0
Places key w deadline s t =
    ((j : Text) → value_at t j ≡ ite (Text-discrete key j) (some w) (value_at s j))
    × ((j : Text) → deadline_at t j ≡ ite (Text-discrete key j) deadline (deadline_at s j))

module _ (key : Text) (s : InMemoryStore) (v : IsValid s) (room : JsMap.size s.values < s.max_keys)
    (unseen : value_at s key ≡ none) (untimed : deadline_at s key ≡ none) where
  set-Places :
      (t : Text) (ttl : Option ℕ)
      → PositiveTtl ttl
      → Places key (string t) (deadline_of ttl s.now) s (Strings.set key t ttl s)
  set-Places t ttl positive =
      let no_victim = room_keeps key s room in
      (
        (λ j. (set_lem key s v t ttl positive j).0 ∙ rw no_victim refl),
        (λ j. (set_lem key s v t ttl positive j).1 ∙ rw no_victim refl),
      )

  untimed_at : (j : Text) → deadline_at s j ≡ ite (Text-discrete key j) none (deadline_at s j)
  untimed_at j = elim (Text-discrete key j) [
    | yes same ↦ subst (λ (k : Text). deadline_at s k ≡ none) same untimed ∙ ground arith
    | no other ↦ ground arith
  ]

  -- The entry lies there without a deadline, which EXPIRE may give it.
  stored-Places :
      (w : StoredValue) (t : InMemoryStore) (ttl : Option ℕ)
      → IsValid t
      → t.now ≡ s.now
      → Stores key w (evicted_by key s) s t
      → PositiveTtl ttl
      → Places key w (deadline_of ttl s.now) s (expire_if_given ttl key t)
  stored-Places w t none u clock (values, deadlines) positive =
      let no_victim = room_keeps key s room in
      ((λ j. values j ∙ rw no_victim refl), (λ j. deadlines j ∙ rw no_victim refl ∙ untimed_at j))
  stored-Places w t (some n) u clock (values, deadlines) positive =
      let no_victim = room_keeps key s room in
      let (answer, same, timed) = expire_lem key t u n positive in
      let there : is_some (value_at t key) ≡ true = ground (arith, values key) in
      (
        (λ j. same j ∙ values j ∙ rw no_victim refl),
        (λ j.
            timed j
            ∙ rw there (
                ap (ite (Text-discrete key j) (some (t.now + n * 1000)))
                  (deadlines j ∙ rw no_victim refl))
            ∙ ap (λ (now : ℕ). ite (Text-discrete key j) (some (now + n * 1000)) (deadline_at s j))
                clock),
      )

  pub put_back-Places :
      (value : SerializedValue) (ttl : Option ℕ)
      → PositiveTtl ttl
      → Places key (back value) (deadline_of ttl s.now) s (put_back key value ttl s)
  unfolding put_back
  put_back-Places (text t) ttl positive = set-Places t ttl positive
  put_back-Places (texts l) ttl positive =
      stored-Places (list l) (Lists.rpush key l s).1 ttl (apply_rpush-IsValid key l s v)
        (rpush-Grows key s l).0 (rpush_lem key s v l [] (ap list_at unseen)).1 positive
  put_back-Places (fields obj) ttl positive =
      let pairs = JsObject.entries obj in
      stored-Places (back (fields obj)) (Hashes.hset key pairs s).1 ttl
        (apply_hset-IsValid key pairs s v) (hset-Grows key s pairs).0
        (hset-SetsFields key s v pairs [] (ap hash_at unseen)).1 positive

expire_if_given-Grows :
    (ttl : Option ℕ) (key : Text) (s t : InMemoryStore)
    → Grows 1 s t
    → Grows 1 s (expire_if_given ttl key t)
expire_if_given-Grows none key s t g = g
expire_if_given-Grows (some n) key s t g = ground (arith, expire-Grows key t n)

pub put_back-Grows :
    (key : Text) (value : SerializedValue) (ttl : Option ℕ) (s : InMemoryStore)
    → Grows 1 s (put_back key value ttl s)
unfolding put_back
put_back-Grows key (text t) ttl s = set-Grows key s t ttl
put_back-Grows key (texts l) ttl s =
    expire_if_given-Grows ttl key s (Lists.rpush key l s).1 (rpush-Grows key s l)
put_back-Grows key (fields obj) ttl s =
    expire_if_given-Grows ttl key s (Hashes.hset key (JsObject.entries obj) s).1
      (hset-Grows key s (JsObject.entries obj))
