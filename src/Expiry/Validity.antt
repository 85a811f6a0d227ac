-- ===== src/Expiry/Validity.antt =====
-- The two mirrors of `ExpiryManager` agree, and every operation keeps them so.
use mini_store.Prelude.{
  ℕ, ◌-◌, ◌<◌, ◌≡◌, refl, ite, true, Option, none, some, [], ◌∷◌, arith, length, is_some, get_elem?,
  set_elem, get_elem?-lt, get_elem?-some, get_elem?-init, get_elem?-set_elem, get_elem?-append,
  length-append, length-init, length-set_elem, Distinct, Text, Text-discrete, text_keyed,
  Bool-cases, inl, inr, Option-cases,
}
use mini_store.JsMap
use mini_store.JsMap.{JsMap}
use mini_store.Expiry
use mini_store.Expiry.{ExpiryManager, set, clear}

pub record IsValid (e : ExpiryManager) : Type 0 where
  pub mirrored : (k : Text) → JsMap.has e.expires_at k ≡ JsMap.has e.pos k
  pub located : (k : Text) (i : ℕ) → JsMap.get e.pos k ≡ some i → get_elem? e.key_array i ≡ some k
  pub indexed : (k : Text) (i : ℕ) → get_elem? e.key_array i ≡ some k → JsMap.get e.pos k ≡ some i
  pub distinct : Distinct (JsMap.keys e.expires_at)
  pub filled : length e.key_array ≡ Expiry.size e

pub set-IsValid : (e : ExpiryManager) (key : Text) (t : ℕ) → IsValid e → IsValid (set e key t)
unfolding set Expiry.size
set-IsValid e key t v = elim (Bool-cases (JsMap.has e.expires_at key)) [
  | inl old ↦ rw old (record {
    mirrored = λ k. ground (arith, v.mirrored k, JsMap.has-set e.expires_at key t k);
    located = v.located;
    indexed = v.indexed;
    distinct = JsMap.Distinct-set e.expires_at key t v.distinct;
    filled = omega (arith, v.filled, JsMap.size-set_old e.expires_at key t old);
  })
  | inr new ↦ rw new (record {
    mirrored = λ k. ground (
      arith,
      v.mirrored k,
      JsMap.has-set e.expires_at key t k,
      JsMap.has-set e.pos key (length e.key_array) k,
    );
    located = λ k i h. ground (
      arith,
      v.located k i,
      JsMap.get-set e.pos key (length e.key_array) k,
      get_elem?-append e.key_array key i,
      get_elem?-lt e.key_array i k,
    );
    indexed = λ k i h. ground (
      arith,
      v.indexed k i,
      v.mirrored k,
      JsMap.has-get e.pos k,
      JsMap.get-set e.pos key (length e.key_array) k,
      get_elem?-append e.key_array key i,
      get_elem?-lt e.key_array i k,
    );
    distinct = JsMap.Distinct-set e.expires_at key t v.distinct;
    filled = omega (
      arith,
      v.filled,
      JsMap.size-set_new e.expires_at key t new,
      length-append e.key_array (key ∷ []),
    );
  })
]

-- What a manager knows of a key: the deadline, if there is one.
abbrev pub deadline : ExpiryManager → Text → Option ℕ
deadline e key = JsMap.get e.expires_at key

pub deadline-set :
    (e : ExpiryManager) (key : Text) (t : ℕ) (j : Text)
    → deadline (set e key t) j ≡ ite (Text-discrete key j) (some t) (deadline e j)
unfolding set
deadline-set e key t j = ground (arith, JsMap.get-set e.expires_at key t j)

pub has-deadline : (e : ExpiryManager) (key : Text) → Expiry.has e key ≡ is_some (deadline e key)
unfolding Expiry.has
has-deadline e key = JsMap.has-get e.expires_at key

module _ (e : ExpiryManager) (key : Text) (v : IsValid e) where
  -- Where the position of `key` is known, the array has a last key.
  last_key :
      (i : ℕ)
      → JsMap.get e.pos key ≡ some i
      → (k : Text) × (get_elem? e.key_array (length e.key_array - 1) ≡ some k)
        × (i < length e.key_array)
  last_key i h =
      let inside = get_elem?-lt e.key_array i key (v.located key i h) in
      let (k, found) = get_elem?-some e.key_array (length e.key_array - 1) (omega arith) in
      (k, found, inside)

  absent_deadline : JsMap.get e.pos key ≡ none → deadline e key ≡ none
  absent_deadline h =
      ground (arith, v.mirrored key, JsMap.has-get e.pos key, JsMap.has-get e.expires_at key)

  present_deadline : (i : ℕ) → JsMap.get e.pos key ≡ some i → JsMap.has e.expires_at key ≡ true
  present_deadline i h = ground (arith, v.mirrored key, JsMap.has-get e.pos key)

  pub deadline-clear :
      (j : Text) → deadline (clear e key).0 j ≡ ite (Text-discrete key j) none (deadline e j)
  unfolding clear
  deadline-clear j = elim (Option-cases (JsMap.get e.pos key)) [
    | inl absent ↦ ground (arith, absent_deadline absent)
    | inr (i, at) ↦
        let (k, found, inside) = last_key i at in
        rw (at, found) (ground (arith, JsMap.get-delete e.expires_at key j))
  ]

  pub clear_removed : (clear e key).1 ≡ is_some (deadline e key)
  unfolding clear
  clear_removed =
      ground (arith, v.mirrored key, JsMap.has-get e.pos key, JsMap.has-get e.expires_at key)

  -- Removing a deadline by swap-remove keeps the manager valid: the dense array and the
  -- positions mirror the map of deadlines.
  pub clear-IsValid : IsValid (clear e key).0
  unfolding clear Expiry.size
  clear-IsValid = elim (Option-cases (JsMap.get e.pos key)) [
    | inl absent ↦ rw absent v
    | inr (i, at) ↦
        let (k, found, inside) = last_key i at in
        let last = length e.key_array - 1 in
        let moved = JsMap.delete e.pos key in
        rw (at, found)
          (record {
            mirrored = λ j. ground (
              arith,
              v.mirrored j,
              v.mirrored k,
              v.indexed k last found,
              JsMap.has-delete e.expires_at key j,
              JsMap.has-delete e.pos key j,
              JsMap.has-set moved k i j,
              JsMap.has-get e.pos k,
            );
            located = λ j m h. ground (
              arith,
              v.located j m,
              v.located key i at,
              v.indexed k last found,
              v.indexed key m,
              v.indexed j m,
              get_elem?-init (set_elem e.key_array i k) m,
              get_elem?-init e.key_array m,
              get_elem?-set_elem e.key_array i m k,
              length-set_elem e.key_array i k,
              JsMap.get-set moved k i j,
              JsMap.get-delete e.pos key j,
              get_elem?-lt e.key_array m j,
            );
            indexed = λ j m h. ground (
              arith,
              v.indexed j m,
              v.indexed k last found,
              v.located key i at,
              v.indexed k m,
              get_elem?-init (set_elem e.key_array i k) m,
              get_elem?-init e.key_array m,
              get_elem?-set_elem e.key_array i m k,
              length-set_elem e.key_array i k,
              JsMap.get-set moved k i j,
              JsMap.get-delete e.pos key j,
            );
            distinct = ground (arith, JsMap.Distinct-delete e.expires_at key v.distinct);
            filled = ground (
              arith,
              v.filled,
              present_deadline i at,
              JsMap.size-delete e.expires_at key v.distinct,
              length-init e.key_array,
              length-init (set_elem e.key_array i k),
              length-set_elem e.key_array i k,
            );
          })
  ]

pub empty-IsValid : IsValid Expiry.empty
unfolding JsMap.get JsMap.has Expiry.size
empty-IsValid = record {
  mirrored = λ k. refl;
  located = λ k i h. absurd (ground arith);
  indexed = λ k i h. absurd (ground arith);
  distinct = tt;
  filled = refl;
}

pub deadline-empty : (k : Text) → deadline Expiry.empty k ≡ none
unfolding JsMap.get
deadline-empty k = refl
