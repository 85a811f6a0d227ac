-- ===== src/Store/Room.antt =====
-- Eviction: what `#reserveSlotFor` and `#makeRoomForNewKey` do.
use mini_store.Prelude.{
  none, Option, if◌then◌else◌, ite, Text-discrete, ◌<◌, ◌≡◌, ◌⊎◌, ◌∙◌, inl, inr, Bool, true, false,
  not, ◌&&◌, some, List, [], ◌∷◌, arith, Text, text_keyed, contains, Bool-cases, Option-cases,
  length, last?, leb, last?-cons, sym, length-same, contains-last?, ◌≤◌, ◌++◌, ◌+◌, refl,
}
use mini_store.JsMap
use mini_store.Expiry
use mini_store.Lru
use mini_store.Lru.Recency
use mini_store.Store.{
  InMemoryStore, expired, evicted, remove_key, make_room_for_new_key, reserve_slot_for,
  report_victim,
}
use mini_store.Store.Invariant.{IsValid, remove_key-IsValid}

module _ (s : InMemoryStore) (v : IsValid s) where
  pub length-order : length v.order ≡ JsMap.size s.values
  length-order =
      length-same v.order (JsMap.keys s.values) (Recency.Tracks-Distinct s.lru v.order v.tracked)
        v.distinct (λ k. v.same_keys k ∙ sym (JsMap.contains-keys s.values k))

  -- A store that is not empty has a least recently used key, and that key is stored.
  pub last_key :
      0 < JsMap.size s.values
      → (victim : Text) × (last? v.order ≡ some victim) × (JsMap.has s.values victim ≡ true)
  last_key h = go v.order (omega (arith, length-order)) (λ k. v.same_keys k)
    where
      go :
          (ks : List Text)
          → 0 < length ks
          → ((k : Text) → contains k ks ≡ JsMap.has s.values k)
          → (victim : Text) × (last? ks ≡ some victim) × (JsMap.has s.values victim ≡ true)
      go [] h same = absurd (omega arith)
      go (k ∷ ks) h same = elim (Option-cases (last? (k ∷ ks))) [
        | inl no_last ↦ absurd (last?-cons k ks no_last)
        | inr (victim, e) ↦ (victim, e, sym (same victim) ∙ contains-last? (k ∷ ks) victim e)
      ]

  -- At capacity the least recently used key goes, whatever its deadline, and nothing else.
  pub make_room_lem :
      (victim : Text)
      → last? v.order ≡ some victim
      → make_room_for_new_key s
        ≡ report_victim (Expiry.is_expired s.expiry victim s.now) victim (remove_key victim s)
  unfolding make_room_for_new_key
  make_room_lem victim h = rw (Recency.peek_lru-last? s.lru v.order v.tracked, h)

-- The key that has to go before `key` can be stored.
unfoldable pub victim_for : Text → InMemoryStore → Option Text
victim_for key s =
    if not (JsMap.has s.values key) && leb s.max_keys (JsMap.size s.values)
    then Lru.peek_lru s.lru
    else none

abbrev pub is_victim : Option Text → Text → Bool
is_victim none j = false
is_victim (some victim) j = ite (Text-discrete victim j) true false

abbrev pub Evicts : Text → (s t : InMemoryStore) → Type 0
Evicts victim s t =
    (t.values ≡ JsMap.delete s.values victim)
    × (t.expiry ≡ (Expiry.clear s.expiry victim).0)
    × (t.events
        ≡ s.events
          ++ (if Expiry.is_expired s.expiry victim s.now then expired victim else evicted victim)
            ∷ [])
    × (t.eviction_count ≡ (
        if Expiry.is_expired s.expiry victim s.now then s.eviction_count else s.eviction_count + 1))

module _ (key : Text) (s : InMemoryStore) (v : IsValid s) where
  full : Bool
  full = not (JsMap.has s.values key) && leb s.max_keys (JsMap.size s.values)

  pub reserve_cases :
      (reserve_slot_for key s ≡ s)
        × (victim_for key s ≡ none)
        × ((JsMap.has s.values key ≡ true) ⊎ (JsMap.size s.values < s.max_keys))
      ⊎ ((victim : Text) × (last? v.order ≡ some victim)
          × (JsMap.has s.values victim ≡ true)
          × (JsMap.has s.values key ≡ false)
          × (victim_for key s ≡ some victim)
          × (reserve_slot_for key s
              ≡ report_victim
                  (Expiry.is_expired s.expiry victim s.now)
                  victim
                  (remove_key victim s)))
  unfolding reserve_slot_for full victim_for
  reserve_cases = elim (Bool-cases full) [
    | inr room ↦ inl (ground arith, ground arith, ground arith)
    | inl no_room ↦
        let (victim, e, h) = last_key s v (ground (arith, v.positive)) in
        inr (
          victim,
          e,
          h,
          ground arith,
          rw no_room (Recency.peek_lru-last? s.lru v.order v.tracked ∙ e),
          rw no_room (make_room_lem s v victim e),
        )
  ]

  pub reserve_slot_for-IsValid : IsValid (reserve_slot_for key s)
  unfolding report_victim
  reserve_slot_for-IsValid = elim reserve_cases [
    | inl (same, kept, room) ↦ rw same v
    | inr (victim, e, h, absent, chosen, evicts) ↦
        rw evicts (report_IsValid (Expiry.is_expired s.expiry victim s.now) victim)
  ]
    where
      report_IsValid :
          (b : Bool) (victim : Text) → IsValid (report_victim b victim (remove_key victim s))
      report_IsValid true victim = remove_key-IsValid victim s v
      report_IsValid false victim = remove_key-IsValid victim s v

  -- After room was made in a valid store, the key is already stored or the store holds fewer
  -- keys than its capacity.
  pub reserve_slot_for_room :
      (JsMap.has (reserve_slot_for key s).values key ≡ true)
      ⊎ (JsMap.has (reserve_slot_for key s).values key ≡ false)
        × (JsMap.size (reserve_slot_for key s).values < (reserve_slot_for key s).max_keys)
  unfolding report_victim remove_key
  reserve_slot_for_room = elim reserve_cases [
    | inl (same, kept, room) ↦ rw same (ground (arith, v.capacity))
    | inr (victim, e, h, absent, chosen, evicts) ↦
        rw evicts (freed (Expiry.is_expired s.expiry victim s.now) victim h absent)
  ]
    where
      freed :
          (b : Bool) (victim : Text)
          → JsMap.has s.values victim ≡ true
          → JsMap.has s.values key ≡ false
          → (JsMap.has (report_victim b victim (remove_key victim s)).values key ≡ true)
            ⊎ (JsMap.has (report_victim b victim (remove_key victim s)).values key ≡ false)
              × (JsMap.size (report_victim b victim (remove_key victim s)).values
                  < (report_victim b victim (remove_key victim s)).max_keys)
      freed true victim h absent = inr (
        ground (arith, JsMap.has-delete s.values victim key),
        ground (arith, v.capacity, JsMap.size-delete s.values victim v.distinct h),
      )
      freed false victim h absent = inr (
        ground (arith, JsMap.has-delete s.values victim key),
        ground (arith, v.capacity, JsMap.size-delete s.values victim v.distinct h),
      )

no_room :
    (key : Text) (s : InMemoryStore) (victim : Text)
    → victim_for key s ≡ some victim
    → s.max_keys ≤ JsMap.size s.values
unfolding victim_for
no_room key s victim chosen = ground arith

evicted_lem :
    (s : InMemoryStore) (victim : Text)
    → JsMap.has s.values victim ≡ true
    → Evicts victim s
        (report_victim (Expiry.is_expired s.expiry victim s.now) victim (remove_key victim s))
unfolding report_victim remove_key
evicted_lem s victim h = elim (Bool-cases (Expiry.is_expired s.expiry victim s.now)) [
  | inl past ↦ rw (past, h) (refl, refl, refl, refl)
  | inr live ↦ rw (live, h) (refl, refl, refl, refl)
]

-- In a valid store, making room for a key does nothing where the key is stored or there is room;
-- else the last key of the recency order leaves the map of values, its deadline goes, and the
-- listener is told: of an expired key where its deadline had passed, else of an evicted one,
-- which is counted.
pub reserve_slot_for_lem :
    (key : Text) (s : InMemoryStore) (v : IsValid s)
    → (reserve_slot_for key s ≡ s)
        × ((JsMap.has s.values key ≡ true) ⊎ (JsMap.size s.values < s.max_keys))
      ⊎ ((victim : Text) × (last? v.order ≡ some victim)
          × (JsMap.has s.values key ≡ false)
          × (s.max_keys ≤ JsMap.size s.values)
          × Evicts victim s (reserve_slot_for key s))
reserve_slot_for_lem key s v = elim (reserve_cases key s v) [
  | inl (same, kept, room) ↦ inl (same, room)
  | inr (victim, e, h, absent, chosen, evicts) ↦
      inr (victim, e, absent, no_room key s victim chosen, rw evicts (evicted_lem s victim h))
]
