-- ===== src/Persistence/Shapes.antt =====
-- About the objects that `save` builds: their names are distinct, and a hash comes back as it was.
use mini_store.Prelude.{
  ◌≡◌, ◌≢◌, ◌∙◌, refl, ap, Bool, false, Option, none, some, is_some, List, [], ◌∷◌, ite,
  if◌then◌else◌, Text, Text-discrete, text_keyed, contains, Distinct, arith, ◌+◌, ◌≤◌, ◌&&◌, length,
  inl, inr, Bool-cases,
}
use mini_store.Store.Invariant.{IsValid}
use mini_store.Store.View.{value_at}
use mini_store.Store.Glob.{compile, test}
use mini_store.Store.Matching.{filter, keys-filter}
use mini_store.JsMap
use mini_store.JsMap.{JsMap}
use mini_store.JsObject
use mini_store.JsObject.Order.{get-entries, entries-Distinct, assign-Distinct}
use mini_store.Store.{InMemoryStore, ValueType}
use mini_store.Store.Strings
use mini_store.Store.Hashes
use mini_store.Store.Keyspace
use mini_store.Store.SetFields.{assigned, get-set_fields}
use mini_store.Persistence.{
  SerializedValue, Dump, pair_up, value_of, store_serialized, serialize_typed, serialize,
  serialize_all, make_dump,
}
use mini_store.Persistence.Dumping.{get-assign}

pair_up-Distinct :
    (m obj : JsMap Text Text)
    → Distinct (JsMap.keys obj)
    → Distinct (JsMap.keys (pair_up (Hashes.entries m) obj))
unfolding pair_up Hashes.entries
pair_up-Distinct [] obj d = d
pair_up-Distinct ((field, value) ∷ m) obj d =
    pair_up-Distinct m (JsObject.assign obj field value) (assign-Distinct obj field value d)

plain_assign :
    (field f : Text) (new old : Option Text)
    → JsObject.proto ≢ f
    → ite (Text-discrete JsObject.proto field) old (ite (Text-discrete field f) new old)
      ≡ ite (Text-discrete field f) new old
plain_assign field f new old plain = elim (Text-discrete JsObject.proto field) [
  | no other ↦ ground arith
  | yes same ↦ elim (Text-discrete field f) [
    | yes here ↦ absurd (plain (same ∙ here))
    | no there ↦ ground arith
  ]
]

-- Without a field `__proto__` asked for, an assignment is an assignment.
get-pair_up :
    (m obj : JsMap Text Text) (f : Text)
    → JsObject.proto ≢ f
    → JsMap.get (pair_up (Hashes.entries m) obj) f ≡ assigned m f (JsMap.get obj f)
unfolding pair_up Hashes.entries assigned
get-pair_up [] obj f plain = refl
get-pair_up ((field, value) ∷ m) obj f plain =
    get-pair_up m (JsObject.assign obj field value) f plain
    ∙ ap (assigned m f)
        (get-assign obj field value f ∙ plain_assign field f (some value) (JsMap.get obj f) plain)

absent_field :
    (g : Text) (m : JsMap Text Text) → contains g (JsMap.keys m) ≡ false → JsMap.get m g ≡ none
unfolding JsMap.has
absent_field g m new = ground (arith, JsMap.contains-keys m g)

-- With distinct fields it does not matter that the last one counts.
assigned_distinct :
    (m : JsMap Text Text) (f : Text) (old : Option Text)
    → Distinct (JsMap.keys m)
    → assigned m f old ≡ (if is_some (JsMap.get m f) then JsMap.get m f else old)
unfolding assigned JsMap.get
assigned_distinct [] f old d = refl
assigned_distinct ((g, w) ∷ m) f old (new, d) = elim (Text-discrete g f) [
  | yes same ↦ ground (
    arith,
    assigned_distinct m f (ite (Text-discrete g f) (some w) old) d,
    absent_field g m new,
    ap (JsMap.get m) same,
  )
  | no other ↦ ground (arith, assigned_distinct m f (ite (Text-discrete g f) (some w) old) d)
]

if_none : {A : Type 0} (o : Option A) → (if is_some o then o else none) ≡ o
if_none none = refl
if_none (some a) = refl

pub get_hash_back :
    (m : JsMap Text Text) (f : Text)
    → Distinct (JsMap.keys m)
    → JsObject.proto ≢ f
    → JsMap.get (Hashes.set_fields (JsObject.entries (pair_up (Hashes.entries m) [])) [] 0).0 f
      ≡ JsMap.get m f
unfolding JsMap.get
get_hash_back m f d plain =
    let obj = pair_up (Hashes.entries m) [] in
    let once = pair_up-Distinct m [] tt in
    get-set_fields (JsObject.entries obj) [] 0 f
    ∙ assigned_distinct (JsObject.entries obj) f none (entries-Distinct obj once)
    ∙ if_none (JsMap.get (JsObject.entries obj) f)
    ∙ get-entries obj once f
    ∙ get-pair_up m [] f plain
    ∙ assigned_distinct m f none d
    ∙ if_none (JsMap.get m f)

store_serialized-Distinct :
    (key : Text) (o : Option SerializedValue) (dump : Dump) (s : InMemoryStore)
    → Distinct (JsMap.keys dump)
    → Distinct (JsMap.keys (store_serialized key o dump s).0)
store_serialized-Distinct key none dump s d = d
store_serialized-Distinct key (some v) dump s d = assign-Distinct dump key _ d

serialize_typed-Distinct :
    (o : Option ValueType) (key : Text) (dump : Dump) (s : InMemoryStore)
    → Distinct (JsMap.keys dump)
    → Distinct (JsMap.keys (serialize_typed o key dump s).0)
serialize_typed-Distinct none key dump s d = d
serialize_typed-Distinct (some type) key dump s d =
    store_serialized-Distinct key (value_of type key s).0 dump (value_of type key s).1 d

serialize_all-Distinct :
    (ks : List Text) (dump : Dump) (s : InMemoryStore)
    → Distinct (JsMap.keys dump)
    → Distinct (JsMap.keys (serialize_all ks dump s).0)
unfolding serialize_all serialize
serialize_all-Distinct [] dump s d = d
serialize_all-Distinct (key ∷ ks) dump s d =
    serialize_all-Distinct ks (serialize key dump s).0 (serialize key dump s).1
      (serialize_typed-Distinct (Strings.key_type key s).0 key dump (Strings.key_type key s).1 d)

pub make_dump-Distinct : (s : InMemoryStore) → Distinct (JsMap.keys (make_dump s).0)
unfolding make_dump
make_dump-Distinct s =
    serialize_all-Distinct (Keyspace.keys (b'*' ∷ []) s).0 [] (Keyspace.keys (b'*' ∷ []) s).1 tt

-- The dump has no more entries than the store has keys.
assign-size :
    {V : Type 0} (o : JsMap Text V) (name : Text) (v : V)
    → JsMap.size (JsObject.assign o name v) ≤ JsMap.size o + 1
unfolding JsObject.assign
assign-size o name v = elim (Bool-cases (JsMap.has o name)) [
  | inl old ↦ ground (arith, JsMap.size-set_old o name v old)
  | inr new ↦ ground (arith, JsMap.size-set_new o name v new)
]

store_serialized-size :
    (key : Text) (o : Option SerializedValue) (dump : Dump) (s : InMemoryStore)
    → JsMap.size (store_serialized key o dump s).0 ≤ JsMap.size dump + 1
store_serialized-size key none dump s = omega arith
store_serialized-size key (some v) dump s = assign-size dump key _

serialize_typed-size :
    (o : Option ValueType) (key : Text) (dump : Dump) (s : InMemoryStore)
    → JsMap.size (serialize_typed o key dump s).0 ≤ JsMap.size dump + 1
serialize_typed-size none key dump s = omega arith
serialize_typed-size (some type) key dump s =
    store_serialized-size key (value_of type key s).0 dump (value_of type key s).1

serialize_all-size :
    (ks : List Text) (dump : Dump) (s : InMemoryStore)
    → JsMap.size (serialize_all ks dump s).0 ≤ JsMap.size dump + length ks
unfolding serialize_all serialize
serialize_all-size [] dump s = omega arith
serialize_all-size (key ∷ ks) dump s = omega (
  arith,
  serialize_all-size ks (serialize key dump s).0 (serialize key dump s).1,
  serialize_typed-size (Strings.key_type key s).0 key dump (Strings.key_type key s).1,
)

filter-length : (keep : Text → Bool) (ks : List Text) → length (filter keep ks) ≤ length ks
unfolding filter
filter-length keep [] = omega arith
filter-length keep (k ∷ ks) = ground (arith, filter-length keep ks)

pub make_dump-size :
    (s : InMemoryStore) → IsValid s → JsMap.size (make_dump s).0 ≤ JsMap.size s.values
unfolding make_dump
make_dump-size s v =
    let keep : Text → Bool = λ k. is_some (value_at s k) && test (compile (b'*' ∷ [])) k in
    omega (
      arith,
      serialize_all-size (Keyspace.keys (b'*' ∷ []) s).0 [] (Keyspace.keys (b'*' ∷ []) s).1,
      ap length (keys-filter s v (b'*' ∷ [])).0,
      filter-length keep (JsMap.keys s.values),
    )
