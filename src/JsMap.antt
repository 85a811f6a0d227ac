-- ===== src/JsMap.antt =====
-- The JavaScript `Map` that the program keeps its state in: an association list in insertion order.
-- `set` on a key that is there keeps its place; a new key goes to the end. A `Set` is the list of its
-- elements, under `add`. The laws below are what the other modules use; the functions stay shut there.
use mini_store.Prelude.{
  ℕ, ◌+◌, ◌≡◌, ◌∙◌, refl, ap, ite, inl, inr, Bool-cases, if◌then◌else◌, Bool, true, false, Option,
  none, some, List, [], ◌∷◌, ◌++◌, arith, is_some, Keyed, contains, remove, Distinct,
  Distinct-remove, Distinct-append, length, length-append, length-remove,
}

abbrev pub JsMap : Type 0 → Type 0 → Type 0
JsMap K V = List (K × V)

module _ {K V : Type 0} where
  -- `[...m.keys()]`
  abbrev pub keys : JsMap K V → List K
  keys [] = []
  keys ((j, v) ∷ m) = j ∷ keys m

  -- `m.size`
  abbrev pub size : JsMap K V → ℕ
  size m = length (keys m)

module _ {K V : Type 0} ⦃d : Keyed K⦄ where
  -- `m.get(k)`, with `none` for `undefined`
  unfoldable pub get : JsMap K V → K → Option V
  get [] k = none
  get ((j, v) ∷ m) k = ite (d.dec j k) (some v) (get m k)

  -- `m.has(k)`
  unfoldable pub has : JsMap K V → K → Bool
  unfolding get
  has m k = is_some (get m k)

  -- `m.set(k, v)`
  unfoldable pub set : JsMap K V → K → V → JsMap K V
  set [] k v = (k, v) ∷ []
  set ((j, w) ∷ m) k v = ite (d.dec j k) ((j, v) ∷ m) ((j, w) ∷ set m k v)

  -- `m.delete(k)`
  unfoldable pub delete : JsMap K V → K → JsMap K V
  delete [] k = []
  delete ((j, w) ∷ m) k = let rest = delete m k in ite (d.dec j k) rest ((j, w) ∷ rest)

  pub get-set :
      (m : JsMap K V) (k : K) (v : V) (j : K)
      → get (set m k v) j ≡ ite (d.dec k j) (some v) (get m j)
  unfolding get set
  get-set [] k v j = refl
  get-set ((i, w) ∷ m) k v j = ground (arith, get-set m k v j)

  pub get-delete : (m : JsMap K V) (k j : K) → get (delete m k) j ≡ ite (d.dec k j) none (get m j)
  unfolding get delete
  get-delete [] k j = ground arith
  get-delete ((i, w) ∷ m) k j = ground (arith, get-delete m k j)

  pub has-get : (m : JsMap K V) (k : K) → has m k ≡ is_some (get m k)
  unfolding has
  has-get m k = refl

  pub has-set :
      (m : JsMap K V) (k : K) (v : V) (j : K) → has (set m k v) j ≡ ite (d.dec k j) true (has m j)
  unfolding has
  has-set m k v j = ground (arith, get-set m k v j)

  pub has-delete : (m : JsMap K V) (k j : K) → has (delete m k) j ≡ ite (d.dec k j) false (has m j)
  unfolding has
  has-delete m k j = ground (arith, get-delete m k j)

  pub contains-keys : (m : JsMap K V) (k : K) → contains k (keys m) ≡ has m k
  unfolding contains has get
  contains-keys [] k = refl
  contains-keys ((j, v) ∷ m) k = ground (arith, contains-keys m k)

  pub keys-set_old : (m : JsMap K V) (k : K) (v : V) → has m k ≡ true → keys (set m k v) ≡ keys m
  unfolding has get set
  keys-set_old [] k v h = absurd (ground arith)
  keys-set_old ((j, w) ∷ m) k v h = ground (arith, keys-set_old m k v)

  pub keys-set_new :
      (m : JsMap K V) (k : K) (v : V) → has m k ≡ false → keys (set m k v) ≡ keys m ++ k ∷ []
  unfolding has get set
  keys-set_new [] k v h = refl
  keys-set_new ((j, w) ∷ m) k v h = ground (arith, keys-set_new m k v)

  pub keys-delete : (m : JsMap K V) (k : K) → keys (delete m k) ≡ remove k (keys m)
  unfolding delete remove
  keys-delete [] k = refl
  keys-delete ((j, w) ∷ m) k = ground (arith, keys-delete m k)

  pub Distinct-set :
      (m : JsMap K V) (k : K) (v : V) → Distinct (keys m) → Distinct (keys (set m k v))
  Distinct-set m k v h = elim (Bool-cases (has m k)) [
    | inl old ↦ rw (keys-set_old m k v old) h
    | inr new ↦ rw (keys-set_new m k v new) (Distinct-append (keys m) k h (contains-keys m k ∙ new))
  ]

  pub Distinct-delete : (m : JsMap K V) (k : K) → Distinct (keys m) → Distinct (keys (delete m k))
  Distinct-delete m k h = rw (keys-delete m k) (Distinct-remove k (keys m) h)

  pub size-set_old : (m : JsMap K V) (k : K) (v : V) → has m k ≡ true → size (set m k v) ≡ size m
  size-set_old m k v h = ap length (keys-set_old m k v h)

  pub size-set_new :
      (m : JsMap K V) (k : K) (v : V) → has m k ≡ false → size (set m k v) ≡ size m + 1
  size-set_new m k v h = rw (keys-set_new m k v h) (length-append (keys m) (k ∷ []))

  pub size-delete :
      (m : JsMap K V) (k : K) → Distinct (keys m) → has m k ≡ true → size (delete m k) + 1 ≡ size m
  size-delete m k h p = rw (keys-delete m k) (length-remove k (keys m) h (contains-keys m k ∙ p))

-- `s.add(k)` on a `Set`
module _ {K : Type 0} ⦃d : Keyed K⦄ where
  unfoldable pub add : List K → K → List K
  unfolding contains
  add s k = if contains k s then s else s ++ k ∷ []
