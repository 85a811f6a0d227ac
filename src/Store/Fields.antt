-- ===== src/Store/Fields.antt =====
-- About HDEL.
use mini_store.Prelude.{
  subst, ℕ, ◌≡◌, ◌∙◌, refl, ap, ite, Bool, true, false, Option, none, some, List, [], ◌∷◌, arith,
  Text, Text-discrete, text_keyed, is_some, if◌then◌else◌, ◌==◌, ltb, contains, Distinct, ◌+◌,
}
use mini_store.JsMap
use mini_store.JsMap.{JsMap}
use mini_store.Store.{
  InMemoryStore, StoredValue, hash, ok, live_entry, remove_key, put, touch, mark_dirty, StoreResult,
}
use mini_store.Store.Invariant.{IsValid}
use mini_store.Store.View.{
  gone, value_at, deadline_at, live_entry-SameView, live_entry-IsValid, live_entry-value_at,
}
use mini_store.Store.Stored.{live_fresh, store_old-Stores, drop-view}
use mini_store.Store.Keeps.{found}
use mini_store.Store.Hashes
use mini_store.Store.SetFields.{get-delete_fields, delete_fields-size}

-- What is left of a hash under its key: an empty one is not kept, nor is its deadline.
abbrev pub kept_hash : JsMap Text Text → Option StoredValue
kept_hash [] = none
kept_hash (p ∷ m) = some (hash (p ∷ m))

abbrev pub kept_deadline : JsMap Text Text → Option ℕ → Option ℕ
kept_deadline [] d = none
kept_deadline (p ∷ m) d = d

abbrev pub LeavesFields : Text → JsMap Text Text → (s t : InMemoryStore) → Type 0
LeavesFields key m s t =
    ((j : Text) → value_at t j ≡ ite (Text-discrete key j) (kept_hash m) (value_at s j))
    × ((j : Text)
        → deadline_at t j
          ≡ ite (Text-discrete key j) (kept_deadline m (deadline_at s j)) (deadline_at s j))

-- An answer with what is left of the hash `m` without the fields.
abbrev pub Drops :
    Text → List Text → JsMap Text Text → InMemoryStore → StoreResult ℕ × InMemoryStore → Type 0
Drops key fields m s (answer, t) =
    (left : JsMap Text Text) × (removed : ℕ) × ((f : Text)
      → JsMap.get left f ≡ (if contains f fields then none else JsMap.get m f))
    × (JsMap.size left + removed ≡ JsMap.size m)
    × (answer ≡ ok removed)
    × LeavesFields key left s t

-- The state that HDEL leaves when `m` is left, by whether it is empty and whether fields went.
after_hdel : Bool → Bool → Text → JsMap Text Text → InMemoryStore → InMemoryStore
after_hdel true some_went key m s = remove_key key (put key (hash m) s)
after_hdel false true key m s = mark_dirty (touch key (put key (hash m) s))
after_hdel false false key m s = put key (hash m) s

hdel_from-after_hdel :
    (b c : Bool) (key : Text) (m : JsMap Text Text) (s : InMemoryStore)
    → after_hdel b c key m s ≡ (
        if b
        then remove_key key (put key (hash m) s)
        else if c
        then mark_dirty (touch key (put key (hash m) s))
        else put key (hash m) s)
unfolding after_hdel
hdel_from-after_hdel true c key m s = refl
hdel_from-after_hdel false true key m s = refl
hdel_from-after_hdel false false key m s = refl

module _ (key : Text) (s : InMemoryStore) (v : IsValid s) (fresh : gone s key ≡ false)
    (h : JsMap.has s.values key ≡ true) where
  stays :
      (p : Text × Text) (m : JsMap Text Text)
      → LeavesFields key (p ∷ m) s (put key (hash (p ∷ m)) s)
  stays p m =
      let (values, deadlines) = store_old-Stores key s v fresh (hash (p ∷ m)) in
      (values, λ j. deadlines j ∙ ground arith)

  after_hdel-LeavesFields :
      (m : JsMap Text Text) (b some_went : Bool)
      → (JsMap.size m == 0) ≡ b
      → LeavesFields key m s (after_hdel b some_went key m s)
  unfolding after_hdel
  after_hdel-LeavesFields [] true some_went e = drop-view key s v fresh (hash []) h
  after_hdel-LeavesFields [] false some_went e = absurd (ground arith)
  after_hdel-LeavesFields (p ∷ m) true some_went e = absurd (ground arith)
  after_hdel-LeavesFields (p ∷ m) false true e = stays p m
  after_hdel-LeavesFields (p ∷ m) false false e = stays p m

module _ (key : Text) (s : InMemoryStore) (v : IsValid s) (fields : List Text)
    (m : JsMap Text Text) where
  LeavesFields-gate :
      (left : JsMap Text Text) (t : InMemoryStore)
      → LeavesFields key left (live_entry key s).1 t
      → LeavesFields key left s t
  LeavesFields-gate left t (values, deadlines) =
      let same = live_entry-SameView key s v in
      ((λ j. values j ∙ rw (same.values j) refl), (λ j. deadlines j ∙ rw (same.deadlines j) refl))

  hdel-LeavesFields :
      value_at s key ≡ some (hash m)
      → ((Hashes.hdel key fields s).0 ≡ ok (Hashes.delete_fields fields m 0).1)
        × LeavesFields key (Hashes.delete_fields fields m 0).0 s (Hashes.hdel key fields s).1
  unfolding Hashes.hdel Hashes.hdel_from
  hdel-LeavesFields holds =
      let t = (live_entry key s).1 in
      let (left, removed) = Hashes.delete_fields fields m 0 in
      let leaves =
        after_hdel-LeavesFields key t (live_entry-IsValid key s v) (live_fresh key s v)
          (found key s v ∙ ap is_some (live_entry-value_at key s v ∙ holds)) left
          (JsMap.size left == 0) (ltb 0 removed) refl in
      let step = hdel_from-after_hdel (JsMap.size left == 0) (ltb 0 removed) key left t in
      rw (live_entry-value_at key s v, holds)
        (
          refl,
          LeavesFields-gate left
              (if JsMap.size left == 0
                then remove_key key (put key (hash left) t)
                else if ltb 0 removed
                then mark_dirty (touch key (put key (hash left) t))
                else put key (hash left) t)
              (subst (LeavesFields key left t) step leaves),
        )

  -- In a valid store HDEL on a visible hash, whose fields are distinct, leaves the hash without
  -- the given fields and otherwise as it was, or no key and no deadline where no field is left;
  -- it answers by how many fields the hash has shrunk, and changes nothing else visible.
  pub hdel_lem :
      value_at s key ≡ some (hash m)
      → Distinct (JsMap.keys m)
      → Drops key fields m s (Hashes.hdel key fields s)
  hdel_lem holds once =
      let (same, leaves) = hdel-LeavesFields holds in
      (
        (Hashes.delete_fields fields m 0).0,
        (Hashes.delete_fields fields m 0).1,
        get-delete_fields fields m 0,
        ground (arith, delete_fields-size fields m 0 once),
        same,
        leaves,
      )
