-- ===== src/Store/SetFields.antt =====
-- About HSET.
use mini_store.Prelude.{
  ℕ, ◌+◌, ◌≡◌, ◌∙◌, inl, inr, refl, ap, ite, false, Option, none, some, List, [], ◌∷◌, length,
  arith, Text, Text-discrete, text_keyed, is_some, if◌then◌else◌, contains, Distinct, remove_absent,
  Bool-cases,
}
use mini_store.JsMap
use mini_store.JsMap.{JsMap}
use mini_store.Store.{InMemoryStore, StoredValue, string, list, hash, StoreResult, ok, live_entry}
use mini_store.Store.Invariant.{IsValid}
use mini_store.Store.Room.{victim_for}
use mini_store.Store.View.{
  gone, value_at, live_entry-SameView, live_entry-IsValid, live_entry-value_at,
}
use mini_store.Store.Effects.{evicted_by}
use mini_store.Store.Stored.{
  present_no_victim, Stores-gate, live_fresh, Stores, store_new-Stores, store_old-Stores,
}
use mini_store.Store.Keeps.{found}
use mini_store.Store.Hashes

-- The value that a list of pairs gives a field, the last one counting.
unfoldable pub assigned : List (Text × Text) → Text → Option Text → Option Text
assigned [] f old = old
assigned ((g, w) ∷ pairs) f old = assigned pairs f (ite (Text-discrete g f) (some w) old)

pub get-set_fields :
    (pairs : List (Text × Text)) (m : JsMap Text Text) (n : ℕ) (f : Text)
    → JsMap.get (Hashes.set_fields pairs m n).0 f ≡ assigned pairs f (JsMap.get m f)
unfolding Hashes.set_fields assigned
get-set_fields [] m n f = refl
get-set_fields ((g, w) ∷ pairs) m n f =
    get-set_fields pairs (JsMap.set m g w) _ f ∙ ap (assigned pairs f) (JsMap.get-set m g w f)

-- The count is that of the new fields.
pub set_fields-size :
    (pairs : List (Text × Text)) (m : JsMap Text Text) (n : ℕ)
    → JsMap.size (Hashes.set_fields pairs m n).0 + n
      ≡ JsMap.size m + (Hashes.set_fields pairs m n).1
unfolding Hashes.set_fields
set_fields-size [] m n = refl
set_fields-size ((g, w) ∷ pairs) m n = elim (Bool-cases (JsMap.has m g)) [
  | inl old ↦ ground (
    arith,
    set_fields-size pairs (JsMap.set m g w) (if JsMap.has m g then n else n + 1),
    JsMap.size-set_old m g w old,
  )
  | inr new ↦ ground (
    arith,
    set_fields-size pairs (JsMap.set m g w) (if JsMap.has m g then n else n + 1),
    JsMap.size-set_new m g w new,
  )
]

pub get-delete_fields :
    (fields : List Text) (m : JsMap Text Text) (n : ℕ) (f : Text)
    → JsMap.get (Hashes.delete_fields fields m n).0 f
      ≡ (if contains f fields then none else JsMap.get m f)
unfolding Hashes.delete_fields contains
get-delete_fields [] m n f = refl
get-delete_fields (g ∷ fields) m n f =
    get-delete_fields fields (JsMap.delete m g) _ f ∙ ground (arith, JsMap.get-delete m g f)

pub delete_fields-size :
    (fields : List Text) (m : JsMap Text Text) (n : ℕ)
    → Distinct (JsMap.keys m)
    → JsMap.size (Hashes.delete_fields fields m n).0 + (Hashes.delete_fields fields m n).1
      ≡ JsMap.size m + n
unfolding Hashes.delete_fields
delete_fields-size [] m n d = refl
delete_fields-size (g ∷ fields) m n d = elim (Bool-cases (JsMap.has m g)) [
  | inl there ↦ ground (
    arith,
    delete_fields-size fields (JsMap.delete m g) (if JsMap.has m g then n + 1 else n)
        (JsMap.Distinct-delete m g d),
    JsMap.size-delete m g d there,
  )
  | inr absent ↦ ground (
    arith,
    delete_fields-size fields (JsMap.delete m g) (if JsMap.has m g then n + 1 else n)
        (JsMap.Distinct-delete m g d),
    ap length (JsMap.keys-delete m g),
    ap length (remove_absent g (JsMap.keys m) (JsMap.contains-keys m g ∙ absent)),
  )
]

-- The hash that HSET starts from; a string or a list has none.
abbrev pub hash_at : Option StoredValue → Option (JsMap Text Text)
hash_at none = some []
hash_at (some (hash m)) = some m
hash_at (some (string v)) = none
hash_at (some (list l)) = none

abbrev pub SetsFields :
    Text
    → List (Text × Text)
    → JsMap Text Text
    → Option Text
    → InMemoryStore
    → StoreResult ℕ × InMemoryStore
    → Type 0
SetsFields key pairs m victim s (answer, t) =
    (answer ≡ ok (Hashes.set_fields pairs m 0).1)
    × Stores key (hash (Hashes.set_fields pairs m 0).0) victim s t

-- The hash `m'` has the fields of `m` but where the pairs assign others, and `added` fields more.
abbrev pub Assigns : List (Text × Text) → (m m' : JsMap Text Text) → (added : ℕ) → Type 0
Assigns pairs m m' added =
    ((f : Text) → JsMap.get m' f ≡ assigned pairs f (JsMap.get m f))
    × (JsMap.size m' ≡ JsMap.size m + added)

-- An answer with a hash of that kind under the key.
abbrev pub Fills :
    Text
    → List (Text × Text)
    → JsMap Text Text
    → Option Text
    → InMemoryStore
    → StoreResult ℕ × InMemoryStore
    → Type 0
Fills key pairs m victim s (answer, t) =
    (m' : JsMap Text Text) × (added : ℕ) × Assigns pairs m m' added
    × (answer ≡ ok added)
    × Stores key (hash m') victim s t

set_fields-Assigns :
    (pairs : List (Text × Text)) (m : JsMap Text Text)
    → Assigns pairs m (Hashes.set_fields pairs m 0).0 (Hashes.set_fields pairs m 0).1
set_fields-Assigns pairs m =
    ((λ f. get-set_fields pairs m 0 f), ground (arith, set_fields-size pairs m 0))

marked :
    (key : Text) (pairs : List (Text × Text)) (w : StoredValue) (victim : Option Text)
    (s t : InMemoryStore)
    → Stores key w victim s t
    → Stores key w victim s (Hashes.mark_if_any pairs t)
marked key [] w victim s t h = h
marked key (p ∷ pairs) w victim s t h = h

hset_to-SetsFields :
    (key : Text) (t : InMemoryStore)
    → IsValid t
    → gone t key ≡ false
    → (o : Option StoredValue) (pairs : List (Text × Text)) (m : JsMap Text Text)
    → JsMap.has t.values key ≡ is_some o
    → hash_at o ≡ some m
    → SetsFields key pairs m (victim_for key t) t (Hashes.hset_to o key pairs t)
unfolding Hashes.hset_to
hset_to-SetsFields key t v fresh none pairs m h e =
    let same : [] ≡ m = ground arith in
    rw (← same) (
      refl,
      marked key pairs _ _ t _
          (store_new-Stores key t v fresh (hash (Hashes.set_fields pairs [] 0).0)),
    )
hset_to-SetsFields key t v fresh (some (hash n)) pairs m h e =
    let same : n ≡ m = ground arith in
    rw (← same, present_no_victim key t v fresh h)
      (
        refl,
        marked key pairs _ none t _
            (store_old-Stores key t v fresh (hash (Hashes.set_fields pairs n 0).0)),
      )
hset_to-SetsFields key t v fresh (some (string x)) pairs m h e = absurd (ground arith)
hset_to-SetsFields key t v fresh (some (list l)) pairs m h e = absurd (ground arith)

pub hset-SetsFields :
    (key : Text) (s : InMemoryStore) (v : IsValid s) (pairs : List (Text × Text))
    (m : JsMap Text Text)
    → hash_at (value_at s key) ≡ some m
    → SetsFields key pairs m (evicted_by key s) s (Hashes.hset key pairs s)
unfolding Hashes.hset live_entry
hset-SetsFields key s v pairs m starts =
    let t = (live_entry key s).1 in
    let (same, stores) =
      hset_to-SetsFields key t (live_entry-IsValid key s v) (live_fresh key s v)
        (live_entry key s).0 pairs m (found key s v)
        (ap hash_at (live_entry-value_at key s v) ∙ starts) in
    (
      same,
      Stores-gate key _ (evicted_by key s) s t (Hashes.hset_to (live_entry key s).0 key pairs t).1
          (live_entry-SameView key s v) stores,
    )

-- In a valid store HSET on a hash, or on a key without a visible value, stores a hash in which
-- each field has the last value that the pairs give it, and else its old one; it answers by how
-- many fields the hash has grown, and changes no other visible value and no deadline but those
-- of the key it evicts.
pub hset_lem :
    (key : Text) (s : InMemoryStore) (v : IsValid s) (pairs : List (Text × Text))
    (m : JsMap Text Text)
    → hash_at (value_at s key) ≡ some m
    → Fills key pairs m (evicted_by key s) s (Hashes.hset key pairs s)
hset_lem key s v pairs m starts =
    let (same, stores) = hset-SetsFields key s v pairs m starts in
    (
      (Hashes.set_fields pairs m 0).0,
      (Hashes.set_fields pairs m 0).1,
      set_fields-Assigns pairs m,
      same,
      stores,
    )
