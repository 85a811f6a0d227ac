-- ===== src/Persistence/Dumping.antt =====
-- About the dump that `save` writes.
use mini_store.Prelude.{
  subst, ◌≢◌, ℕ, ◌≡◌, ◌∙◌, refl, sym, ap, inl, inr, Bool, true, false, not, Option, none, some,
  is_some, List, [], ◌∷◌, ◌&&◌, ite, if◌then◌else◌, Text, Text-discrete, text_keyed, contains,
  Bool-cases, Option-cases, arith,
}
use mini_store.JsMap
use mini_store.JsObject
use mini_store.Store.{InMemoryStore, StoredValue}
use mini_store.Store.Invariant.{IsValid}
use mini_store.Store.Calls.{Call, apply}
use mini_store.Store.Preserved.{apply-IsValid}
use mini_store.Store.View.{value_at, deadline_at, seen_value, SameView, SameView-refl}
use mini_store.Store.Glob.{compile, test, after_run, line_terminator}
use mini_store.Store.Keyspace
use mini_store.Store.Matching.{filter, keys-filter}
use mini_store.Persistence.{SerializedKey, Dump, serialize, serialize_all, make_dump}
use mini_store.Persistence.Reading.{written, with_entry, Keeps, Keeps-trans, serialize_lem}

abbrev pub first : {A : Type 0} → Option A → Option A → Option A
first none b = b
first (some a) b = some a

abbrev pub entry_of : Option StoredValue → Option ℕ → ℕ → Option SerializedKey
entry_of none deadline now = none
entry_of (some w) deadline now = some (written w deadline now)

-- What a dump can hold for a key.
abbrev pub entry_at : InMemoryStore → Text → Option SerializedKey
entry_at s k =
    ite (Text-discrete JsObject.proto k) none (entry_of (value_at s k) (deadline_at s k) s.now)

pub get-assign :
    {V : Type 0} (o : JsMap.JsMap Text V) (name : Text) (v : V) (k : Text)
    → JsMap.get (JsObject.assign o name v) k
      ≡ ite
          (Text-discrete JsObject.proto name)
          (JsMap.get o k)
          (ite (Text-discrete name k) (some v) (JsMap.get o k))
unfolding JsObject.assign
get-assign o name v k = ground (arith, JsMap.get-set o name v k)

-- The entry of the key itself.
get-with_entry_self :
    (key : Text) (s : InMemoryStore) (dump : Dump) (o : Option StoredValue)
    → value_at s key ≡ o
    → JsMap.get (with_entry key s o dump) key ≡ first (entry_at s key) (JsMap.get dump key)
get-with_entry_self key s dump none e = rw e (ground arith)
get-with_entry_self key s dump (some w) e =
    rw e (get-assign dump key (written w (deadline_at s key) s.now) key ∙ ground arith)

get-with_entry_other :
    (key : Text) (s : InMemoryStore) (dump : Dump) (o : Option StoredValue) (k : Text)
    → key ≢ k
    → JsMap.get (with_entry key s o dump) k ≡ JsMap.get dump k
get-with_entry_other key s dump none k other = refl
get-with_entry_other key s dump (some w) k other =
    get-assign dump key (written w (deadline_at s key) s.now) k ∙ ground arith

entry_at-view : (s t : InMemoryStore) → SameView s t → (k : Text) → entry_at t k ≡ entry_at s k
entry_at-view s t p k = rw (p.values k, p.deadlines k, p.now) refl

abbrev entry_if : Bool → InMemoryStore → Text → Option SerializedKey
entry_if b s k = if b then entry_at s k else none

first_twice :
    {A : Type 0} (b : Bool) (x y : Option A) → first (if b then x else none) (first x y) ≡ first x y
first_twice true none y = refl
first_twice true (some a) y = refl
first_twice false x y = refl

one_more :
    (key : Text) (ks : List Text) (dump : Dump) (s : InMemoryStore) (k : Text)
    → first
        (if contains k ks then entry_at s k else none)
        (JsMap.get (with_entry key s (value_at s key) dump) k)
      ≡ first (if contains k (key ∷ ks) then entry_at s k else none) (JsMap.get dump k)
unfolding contains
one_more key ks dump s k = elim (Text-discrete key k) [
  | yes same ↦
      let here : contains k (key ∷ ks) ≡ true = ground arith in
      ap (first (if contains k ks then entry_at s k else none)) (
        subst
          (λ (j : Text).
            JsMap.get (with_entry key s (value_at s key) dump) j
            ≡ first (entry_at s j) (JsMap.get dump j))
          same (get-with_entry_self key s dump (value_at s key) refl))
      ∙ first_twice (contains k ks) (entry_at s k) (JsMap.get dump k)
      ∙ ap (λ (b : Bool). first (if b then entry_at s k else none) (JsMap.get dump k)) (sym here)
  | no other ↦
      let there : contains k (key ∷ ks) ≡ contains k ks = ground arith in
      ap (first (if contains k ks then entry_at s k else none))
        (get-with_entry_other key s dump (value_at s key) k other)
      ∙ ap (λ (b : Bool). first (if b then entry_at s k else none) (JsMap.get dump k)) (sym there)
]

serialize_all_lem :
    (ks : List Text) (dump : Dump) (s : InMemoryStore)
    → IsValid s
    → ((k : Text)
        → JsMap.get (serialize_all ks dump s).0 k
          ≡ first (if contains k ks then entry_at s k else none) (JsMap.get dump k))
      × Keeps s (serialize_all ks dump s).1
unfolding serialize_all contains
serialize_all_lem [] dump s v = (λ k. refl, (v, SameView-refl s))
serialize_all_lem (key ∷ ks) dump s v =
    let (entry, (v1, p1)) = serialize_lem key dump s v in
    let (entries, kept) =
      serialize_all_lem ks (serialize key dump s).0 (serialize key dump s).1 v1 in
    (
      (λ k.
          entries k
          ∙ ap
              (λ (o : Option SerializedKey).
                first (if contains k ks then o else none) (JsMap.get (serialize key dump s).0 k))
              (entry_at-view s (serialize key dump s).1 p1 k)
          ∙ ap (λ (d : Dump). first (if contains k ks then entry_at s k else none) (JsMap.get d k))
              entry
          ∙ one_more key ks dump s k),
      Keeps-trans (v1, p1) kept,
    )

-- No line terminator in it: what `*` matches.
unfoldable pub one_line : Text → Bool
one_line [] = true
one_line (c ∷ t) = not (line_terminator c) && one_line t

test_run : (t : Text) → after_run (test []) t ≡ one_line t
unfolding after_run one_line test
test_run [] = refl
test_run (c ∷ t) = ap (λ (b : Bool). not (line_terminator c) && b) (test_run t)

test_star : (t : Text) → test (compile (b'*' ∷ [])) t ≡ one_line t
unfolding compile test
test_star t = test_run t

contains-filter :
    (keep : Text → Bool) (ks : List Text) (k : Text)
    → contains k (filter keep ks) ≡ (contains k ks && keep k)
unfolding contains filter
contains-filter keep [] k = refl
contains-filter keep (j ∷ ks) k = elim (Text-discrete j k) [
  | yes same ↦ ground (arith, contains-filter keep ks k, ap keep same)
  | no other ↦ ground (arith, contains-filter keep ks k)
]

first-none : {A : Type 0} (o : Option A) → first o none ≡ o
first-none none = refl
first-none (some a) = refl

visible_stored :
    (s : InMemoryStore) (k : Text) → is_some (value_at s k) ≡ true → JsMap.has s.values k ≡ true
unfolding seen_value
visible_stored s k h = ground (arith, JsMap.has-get s.values k)

unseen_entry : (s : InMemoryStore) (k : Text) → is_some (value_at s k) ≡ false → entry_at s k ≡ none
unseen_entry s k h = elim (Option-cases (value_at s k)) [
  | inl unseen ↦ rw unseen (ground arith)
  | inr (w, e) ↦ absurd (ground arith)
]

-- Where nothing is visible, being among the keys does not matter.
listed_entry :
    (s : InMemoryStore) (k : Text) (b : Bool)
    → b ≡ (JsMap.has s.values k && (is_some (value_at s k) && one_line k))
    → (if b then entry_at s k else none) ≡ (if one_line k then entry_at s k else none)
listed_entry s k b e = elim (Bool-cases (is_some (value_at s k))) [
  | inl visible ↦
      ap (λ (c : Bool). if c then entry_at s k else none)
        (ground (arith, visible_stored s k visible))
  | inr unseen ↦ rw (unseen_entry s k unseen) (ground arith)
]

module _ (s : InMemoryStore) (v : IsValid s) where
  pub make_dump_lem :
      ((k : Text) → JsMap.get (make_dump s).0 k ≡ (if one_line k then entry_at s k else none))
      × Keeps s (make_dump s).1
  unfolding make_dump apply JsMap.get
  make_dump_lem =
      let t = (Keyspace.keys (b'*' ∷ []) s).1 in
      let (found, p) = keys-filter s v (b'*' ∷ []) in
      let w = apply-IsValid (Call.keys (b'*' ∷ [])) s v in
      let (entries, kept) = serialize_all_lem (Keyspace.keys (b'*' ∷ []) s).0 [] t w in
      (
        (λ k.
            entries k
            ∙ first-none (if contains k (Keyspace.keys (b'*' ∷ []) s).0 then entry_at t k else none)
            ∙ ap
                (λ (o : Option SerializedKey).
                  if contains k (Keyspace.keys (b'*' ∷ []) s).0 then o else none)
                (entry_at-view s t p k)
            ∙ listed_entry s k (contains k (Keyspace.keys (b'*' ∷ []) s).0) (
                ap (contains k) found
                ∙ contains-filter (λ j. is_some (value_at s j) && test (compile (b'*' ∷ [])) j)
                    (JsMap.keys s.values) k
                ∙ ap (λ (c : Bool). c && (is_some (value_at s k) && test (compile (b'*' ∷ [])) k))
                    (JsMap.contains-keys s.values k)
                ∙ ap (λ (c : Bool). JsMap.has s.values k && (is_some (value_at s k) && c))
                    (test_star k))),
        Keeps-trans (w, p) kept,
      )
