-- ===== src/Store/Writes.antt =====
-- What the steps of a write do to the view: the eviction that makes room, and the value that is stored.
use mini_store.Prelude.{
  ◌≡◌, ◌∙◌, inl, inr, refl, ite, Bool, true, false, none, some, arith, Text, Text-discrete,
  text_keyed, if◌then◌else◌,
}
use mini_store.JsMap
use mini_store.Expiry
use mini_store.Expiry.Validity
use mini_store.Expiry.Validity.{deadline}
use mini_store.Store.{
  InMemoryStore, StoredValue, put, remove_key, expire_if_needed, reserve_slot_for, report_victim,
}
use mini_store.Store.Invariant.{IsValid}
use mini_store.Store.Room.{reserve_cases, victim_for, is_victim}
use mini_store.Store.View.{
  gone, value_at, deadline_at, seen_value, value_at-remove_key, deadline_at-remove_key,
  now-remove_key,
}

module _ (key : Text) (s : InMemoryStore) (v : IsValid s) where
  -- Behind the gate the key is not past its deadline.
  pub gate_fresh : gone (expire_if_needed key s).1 key ≡ false
  unfolding expire_if_needed remove_key Expiry.is_expired
  gate_fresh = ground (arith, v.subset key, Validity.deadline-clear s.expiry key v.expiry_valid key)

  reserved_view :
      (b : Bool) (victim : Text) (j : Text)
      → (value_at (report_victim b victim (remove_key victim s)) j
          ≡ value_at (remove_key victim s) j)
        × (deadline_at (report_victim b victim (remove_key victim s)) j
            ≡ deadline_at (remove_key victim s) j)
        × (gone (report_victim b victim (remove_key victim s)) j ≡ gone (remove_key victim s) j)
        × ((report_victim b victim (remove_key victim s)).now ≡ (remove_key victim s).now)
  unfolding report_victim
  reserved_view true victim j = (refl, refl, refl, refl)
  reserved_view false victim j = (refl, refl, refl, refl)

  -- Making room takes the victim out of the view, and changes nothing else in it.
  pub value_at-reserve :
      (j : Text)
      → value_at (reserve_slot_for key s) j
        ≡ (if is_victim (victim_for key s) j then none else value_at s j)
  value_at-reserve j = elim (reserve_cases key s v) [
    | inl (same, kept, room) ↦ rw (same, kept)
    | inr (victim, e, h, absent, chosen, evicts) ↦
        rw (evicts, chosen)
          ((reserved_view (Expiry.is_expired s.expiry victim s.now) victim j).0
            ∙ value_at-remove_key victim s v j
            ∙ ground arith)
  ]

  pub deadline_at-reserve :
      (j : Text)
      → deadline_at (reserve_slot_for key s) j
        ≡ (if is_victim (victim_for key s) j then none else deadline_at s j)
  deadline_at-reserve j = elim (reserve_cases key s v) [
    | inl (same, kept, room) ↦ rw (same, kept)
    | inr (victim, e, h, absent, chosen, evicts) ↦
        rw (evicts, chosen)
          ((reserved_view (Expiry.is_expired s.expiry victim s.now) victim j).1
            ∙ deadline_at-remove_key victim s v j
            ∙ ground arith)
  ]

  pub now-reserve : (reserve_slot_for key s).now ≡ s.now
  now-reserve = elim (reserve_cases key s v) [
    | inl (same, kept, room) ↦ rw same
    | inr (victim, e, h, absent, chosen, evicts) ↦ rw evicts (
        (reserved_view (Expiry.is_expired s.expiry victim s.now) victim key).3
        ∙ now-remove_key victim s v)
  ]

  pub reserve_fresh : gone s key ≡ false → gone (reserve_slot_for key s) key ≡ false
  unfolding remove_key Expiry.is_expired
  reserve_fresh f = elim (reserve_cases key s v) [
    | inl (same, kept, room) ↦ rw same f
    | inr (victim, e, h, absent, chosen, evicts) ↦ rw evicts (
        (reserved_view (Expiry.is_expired s.expiry victim s.now) victim key).2
        ∙ rw h (
            ground
              (arith, Validity.deadline-clear s.expiry victim v.expiry_valid key, v.subset key)))
  ]

  pub value_at-put :
      (w : StoredValue) (j : Text)
      → value_at (put key w s) j
        ≡ ite (Text-discrete key j) (if gone s key then none else some w) (value_at s j)
  unfolding seen_value
  value_at-put w j = ground (arith, JsMap.get-set s.values key w j)
