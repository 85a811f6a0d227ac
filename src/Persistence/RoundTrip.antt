-- ===== src/Persistence/RoundTrip.antt =====
-- About `save` in one process and `restore` in the next.
use mini_store.Store.Proper.{HashesDistinct, Proper, Proper-if}
use mini_store.Expiry
use mini_store.Persistence.{
  holds, PersistenceManager, SerializedKey, make_dump, begin_save, end_save, restore, restore_all,
  if_natural,
}
use mini_store.Prelude.{
  if_neg, ℕ, ◌+◌, ◌-◌, ◌*◌, ◌/◌, ◌≤◌, ◌<◌, ◌≡◌, ◌≢◌, ◌∙◌, refl, sym, ap, subst, Bool, true, false,
  Option, none, some, is_some, List, [], ◌∷◌, ite, if◌then◌else◌, Text, Text-discrete, text_keyed,
  contains, Distinct, arith,
}
use mini_store.JsMap
use mini_store.JsMap.{JsMap}
use mini_store.JsObject
use mini_store.JsObject.Order.{get-entries, entries-Distinct, length-entries}
use mini_store.Expiry
use mini_store.Expiry.{reached}
use mini_store.Store.{InMemoryStore, StoredValue, string, list, hash}
use mini_store.Store.Invariant.{IsValid}
use mini_store.Store.View.{value_at, deadline_at, seen_value, seen_deadline}
use mini_store.Store.Effects.{PositiveTtl}
use mini_store.Store.Observers.{seconds_at}
use mini_store.Persistence.Dumping.{one_line, entry_of, make_dump_lem}
use mini_store.Persistence.Restoring.{value_back, deadline_back, AllPositive, restore_all_lem}
use mini_store.Persistence.Shapes.{get_hash_back, make_dump-Distinct, make_dump-size}

-- How a value may differ from what was saved: a hash may have its fields in another order, and none
-- called `__proto__`.
pub data ComesBack : Option StoredValue → Option StoredValue → Type 0 where
  nothing : ComesBack none none
  text : (v : Text) → ComesBack (some (string v)) (some (string v))
  texts : (l : List Text) → ComesBack (some (list l)) (some (list l))
  fields :
      (m m' : JsMap Text Text)
      → ((f : Text) → JsObject.proto ≢ f → JsMap.get m' f ≡ JsMap.get m f)
      → ComesBack (some (hash m)) (some (hash m'))

-- The time that was left, in whole seconds.
abbrev pub rounded : Option ℕ → (now now' : ℕ) → Option ℕ
rounded none now now' = none
rounded (some deadline) now now' = some (now' + (deadline - now + 999) / 1000 * 1000)

seen_hash :
    (s : InMemoryStore)
    → HashesDistinct s
    → (j : Text) (m : JsMap Text Text) → value_at s j ≡ some (hash m)
    → Distinct (JsMap.keys m)
unfolding seen_value
seen_hash s distinct j m is_hash =
    subst Proper is_hash
      (Proper-if (Expiry.is_expired s.expiry j s.now) none (JsMap.get s.values j) tt (distinct j))

comes_back :
    (o : Option StoredValue) (d : Option ℕ) (now : ℕ)
    → ((m : JsMap Text Text) → o ≡ some (hash m) → Distinct (JsMap.keys m))
    → ComesBack o (value_back (entry_of o d now) none)
comes_back none d now distinct = nothing
comes_back (some (string v)) d now distinct = text v
comes_back (some (list l)) d now distinct = texts l
comes_back (some (hash m)) d now distinct =
    fields m _ (λ f plain. get_hash_back m f (distinct m refl) plain)

untimed_of :
    (o : Option ℕ) (w : Option StoredValue) (now : ℕ)
    → (is_some o ≡ true → is_some w ≡ true)
    → (if reached o now then none else w) ≡ none
    → (if reached o now then none else o) ≡ none
untimed_of none w now held h = refl
untimed_of (some d) none now held h = absurd (ground (arith, held refl))
untimed_of (some d) (some w) now held h = ground arith

ahead_of : (o : Option ℕ) (now x : ℕ) → (if reached o now then none else o) ≡ some x → now < x
ahead_of none now x h = absurd (ground arith)
ahead_of (some d) now x h = ground arith

module _ (s : InMemoryStore) (v : IsValid s) (j : Text) where
  unseen_untimed : value_at s j ≡ none → deadline_at s j ≡ none
  unfolding seen_value seen_deadline Expiry.is_expired
  unseen_untimed h =
      untimed_of (JsMap.get s.expiry.expires_at j) (JsMap.get s.values j) s.now
        (λ e. sym (JsMap.has-get s.values j) ∙ v.subset j e) h

  still_ahead : (x : ℕ) → deadline_at s j ≡ some x → s.now < x
  unfolding seen_deadline Expiry.is_expired
  still_ahead x h = ahead_of (JsMap.get s.expiry.expires_at j) s.now x h

timed_back :
    (o : Option StoredValue) (d : Option ℕ) (now now' : ℕ)
    → (o ≡ none → d ≡ none)
    → deadline_back (entry_of o d now) now' none ≡ rounded d now now'
timed_back none d now now' h = rw (h refl) refl
timed_back (some w) none now now' h = refl
timed_back (some w) (some x) now now' h = refl

positive_left :
    (d : Option ℕ) (now : ℕ)
    → ((x : ℕ) → d ≡ some x → now < x)
    → PositiveTtl (if_natural (seconds_at d now))
positive_left none now ahead = tt
positive_left (some x) now ahead = let later = ahead x refl in omega arith

positive_of :
    (o : Option StoredValue) (d : Option ℕ) (now : ℕ) (serialized : SerializedKey)
    → ((x : ℕ) → d ≡ some x → now < x)
    → entry_of o d now ≡ some serialized
    → PositiveTtl serialized.ttl
positive_of none d now serialized ahead h = absurd (ground arith)
positive_of (some w) d now serialized ahead h =
    let same : if_natural (seconds_at d now) ≡ serialized.ttl = ground arith in
    subst PositiveTtl same (positive_left d now ahead)

elsewhere :
    (key : Text) (serialized : SerializedKey) (entries : List (Text × SerializedKey)) (j : Text)
    (other : SerializedKey)
    → contains key (JsMap.keys entries) ≡ false
    → JsMap.get entries j ≡ some other
    → JsMap.get ((key, serialized) ∷ entries) j ≡ some other
unfolding JsMap.get JsMap.has
elsewhere key serialized entries j other new h = elim (Text-discrete key j) [
  | yes same ↦ absurd (ground (arith, ap (JsMap.get entries) same, JsMap.contains-keys entries key))
  | no apart ↦ ground arith
]

AllPositive-get :
    (entries : List (Text × SerializedKey))
    → Distinct (JsMap.keys entries)
    → ((j : Text) (serialized : SerializedKey)
        → JsMap.get entries j ≡ some serialized
        → PositiveTtl serialized.ttl)
    → AllPositive entries
unfolding JsMap.get
AllPositive-get [] d positive = tt
AllPositive-get ((key, serialized) ∷ entries) (new, d) positive = (
  positive key serialized (ground arith),
  AllPositive-get entries d
      (λ j other h. positive j other (elsewhere key serialized entries j other new h)),
)

-- What the dump of a valid store holds for a key that can be dumped.
dumped :
    (s : InMemoryStore)
    → IsValid s
    → (j : Text) → one_line j ≡ true
    → JsObject.proto ≢ j
    → JsMap.get (JsObject.entries (make_dump s).0) j
      ≡ entry_of (value_at s j) (deadline_at s j) s.now
dumped s v j line plain =
    get-entries (make_dump s).0 (make_dump-Distinct s) j
    ∙ (make_dump_lem s v).0 j
    ∙ rw line (
        if_neg (Text-discrete JsObject.proto j) plain none
          (entry_of (value_at s j) (deadline_at s j) s.now))

held :
    {P : Type 0} (b : Bool) (c : Dec P) (o : Option SerializedKey) (x : SerializedKey)
    → (if b then ite c none o else none) ≡ some x
    → o ≡ some x
held false c o x h = absurd (ground arith)
held true (yes p) o x h = absurd (ground arith)
held true (no n) o x h = h

positive_entries : (s : InMemoryStore) → IsValid s → AllPositive (JsObject.entries (make_dump s).0)
positive_entries s v =
    let once = make_dump-Distinct s in
    AllPositive-get (JsObject.entries (make_dump s).0) (entries-Distinct (make_dump s).0 once)
      (λ j serialized h.
        positive_of (value_at s j) (deadline_at s j) s.now serialized (still_ahead s v j) (
          held (one_line j) (Text-discrete JsObject.proto j)
            (entry_of (value_at s j) (deadline_at s j) s.now) serialized
            (sym (get-entries (make_dump s).0 once j ∙ (make_dump_lem s v).0 j) ∙ h)))

-- A store with no entries shows none.
pub empty_unseen :
    (t : InMemoryStore)
    → IsValid t
    → t.values ≡ []
    → (j : Text) → (value_at t j ≡ none) × (deadline_at t j ≡ none)
unfolding seen_value JsMap.get
empty_unseen t u empty j =
    let unseen : value_at t j ≡ none = rw empty (ground arith) in
    (unseen, unseen_untimed t u j unseen)

module _ (s : InMemoryStore) (v : IsValid s) (t : InMemoryStore) (u : IsValid t)
    (empty : t.values ≡ []) (room : JsMap.size s.values ≤ t.max_keys) (distinct : HashesDistinct s)
    (j : Text) (line : one_line j ≡ true) (plain : JsObject.proto ≢ j) where
  restored_dump :
      (n : ℕ)
      → ComesBack (value_at s j) (value_at (restore_all (JsObject.entries (make_dump s).0) n t).1 j)
        × (deadline_at (restore_all (JsObject.entries (make_dump s).0) n t).1 j
            ≡ rounded (deadline_at s j) s.now t.now)
  restored_dump n =
      let dump = (make_dump s).0 in
      let once = make_dump-Distinct s in
      let unseen = empty_unseen t u empty in
      let (count, values, deadlines) =
        restore_all_lem (JsObject.entries dump) n t u (entries-Distinct dump once)
          (positive_entries s v) (λ k inside. unseen k)
          (rw (length-entries dump once, empty) (omega (arith, room, make_dump-size s v))) in
      let is = dumped s v j line plain in
      (
        subst (ComesBack (value_at s j))
            (sym (
              values j
              ∙ ap (λ (o : Option SerializedKey). value_back o (value_at t j)) is
              ∙ ap (value_back (entry_of (value_at s j) (deadline_at s j) s.now)) (unseen j).0))
            (comes_back (value_at s j) (deadline_at s j) s.now (seen_hash s distinct j)),
        deadlines j
            ∙ ap (λ (o : Option SerializedKey). deadline_back o t.now (deadline_at t j)) is
            ∙ ap (deadline_back (entry_of (value_at s j) (deadline_at s j) s.now) t.now)
                (unseen j).1
            ∙ timed_back (value_at s j) (deadline_at s j) s.now t.now (unseen_untimed s v j),
      )

file-saved :
    (p : PersistenceManager)
    → p.save_in_progress ≡ false
    → (end_save true (begin_save p).1).file ≡ holds (make_dump p.store).0
unfolding begin_save end_save
file-saved p free = rw free refl

module _ (p q : PersistenceManager) (v : IsValid p.store) (u : IsValid q.store) where
  -- A snapshot of one process restored by the next: where both stores are valid, no save was
  -- under way, no field stands twice in a hash, the dump was written, the new store is empty and
  -- may hold as many keys as the old one had, every key without line terminators other than
  -- __proto__ has the same value again (a hash perhaps with its fields in another order, and but
  -- for a field __proto__), and the time it had left, rounded up to whole seconds; what was
  -- invisible stays so.
  pub restore-save :
      p.save_in_progress ≡ false
      → HashesDistinct p.store
      → q.file ≡ (end_save true (begin_save p).1).file
      → q.store.values ≡ []
      → JsMap.size p.store.values ≤ q.store.max_keys
      → (j : Text) → one_line j ≡ true
      → JsObject.proto ≢ j
      → ComesBack (value_at p.store j) (value_at (restore q).1.store j)
        × (deadline_at (restore q).1.store j
            ≡ rounded (deadline_at p.store j) p.store.now q.store.now)
  unfolding restore
  restore-save free distinct same empty room j line plain =
      rw (same ∙ file-saved p free)
        (restored_dump p.store v q.store u empty room distinct j line plain 0)
