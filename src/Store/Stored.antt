-- ===== src/Store/Stored.antt =====
-- About the steps that store an entry under a key, behind the gate: what they do to the view.
use mini_store.Prelude.{
  ◌≡◌, ◌∙◌, refl, ite, true, false, Option, none, some, arith, Text, Text-discrete, text_keyed,
  if◌then◌else◌,
}
use mini_store.JsMap
use mini_store.Store.{
  InMemoryStore, StoredValue, touch, put, reserve_slot_for, remove_key, live_entry,
}
use mini_store.Store.Invariant.{IsValid, replace-IsValid}
use mini_store.Store.Room.{victim_for, is_victim, reserve_slot_for-IsValid}
use mini_store.Store.View.{
  SameView, gone, value_at, deadline_at, value_at-remove_key, deadline_at-remove_key,
}
use mini_store.Store.Writes.{
  gate_fresh, value_at-reserve, deadline_at-reserve, reserve_fresh, value_at-put,
}

-- The view `value`, `deadline` of a store after `w` went under `key`, with `victim` out.
abbrev pub Stores :
    (key : Text) (w : StoredValue) (victim : Option Text) (s t : InMemoryStore) → Type 0
Stores key w victim s t =
    ((j : Text)
      → value_at t j
        ≡ ite (Text-discrete key j) (some w) (if is_victim victim j then none else value_at s j))
    × ((j : Text) → deadline_at t j ≡ (if is_victim victim j then none else deadline_at s j))

module _ (key : Text) (s : InMemoryStore) (v : IsValid s) (fresh : gone s key ≡ false) where
  pub store_new-Stores :
      (w : StoredValue)
      → Stores key w (victim_for key s) s (touch key (put key w (reserve_slot_for key s)))
  store_new-Stores w = (
    (λ j.
        value_at-put key (reserve_slot_for key s) (reserve_slot_for-IsValid key s v) w j
        ∙ rw (reserve_fresh key s v fresh, value_at-reserve key s v j) refl),
    (λ j. deadline_at-reserve key s v j),
  )

  pub store_old-Stores : (w : StoredValue) → Stores key w none s (touch key (put key w s))
  store_old-Stores w = ((λ j. value_at-put key s v w j ∙ rw fresh refl), (λ j. refl))

  -- The entry goes, where an empty list or hash is left.
  pub drop-view :
      (w : StoredValue)
      → JsMap.has s.values key ≡ true
      → ((j : Text)
          → value_at (remove_key key (put key w s)) j
            ≡ ite (Text-discrete key j) none (value_at s j))
        × ((j : Text)
            → deadline_at (remove_key key (put key w s)) j
              ≡ ite (Text-discrete key j) none (deadline_at s j))
  drop-view w h =
      let kept = replace-IsValid key s v w h in
      (
        (λ j.
            value_at-remove_key key (put key w s) kept j
            ∙ ground (arith, value_at-put key s v w j)),
        (λ j. deadline_at-remove_key key (put key w s) kept j),
      )

  pub present_no_victim : JsMap.has s.values key ≡ true → victim_for key s ≡ none
  unfolding victim_for
  present_no_victim h = ground arith

-- The gate in front changes nothing in the view.
pub Stores-gate :
    (key : Text) (w : StoredValue) (victim : Option Text) (s s' t : InMemoryStore)
    → SameView s s'
    → Stores key w victim s' t
    → Stores key w victim s t
Stores-gate key w victim s s' t same (values, deadlines) =
    ((λ j. values j ∙ rw (same.values j) refl), (λ j. deadlines j ∙ rw (same.deadlines j) refl))

pub live_fresh :
    (key : Text) (s : InMemoryStore) → IsValid s → gone (live_entry key s).1 key ≡ false
unfolding live_entry
live_fresh key s v = gate_fresh key s v
