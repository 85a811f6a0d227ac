-- ===== src/Store/Keeps.antt =====
-- About the operations of `InMemoryStore` behind the gate: the invariant of the store, one entry at a time.
use mini_store.Prelude.{
  ◌≡◌, ◌∙◌, sym, ap, inl, inr, Bool, true, false, Option, none, some, List, [], ◌∷◌, arith, Text,
  text_keyed, is_some, init, ltb, ◌==◌, if◌then◌else◌, ℤ,
}
use mini_store.JsMap
use mini_store.Store.{
  InMemoryStore, StoredValue, string, list, hash, touch, put, mark_dirty, remove_key, live_entry,
  reserve_slot_for,
}
use mini_store.Store.Invariant.{
  IsValid, touch-IsValid, replace-IsValid, insert-IsValid, remove_key-IsValid,
}
use mini_store.Store.Room.{reserve_slot_for-IsValid, reserve_slot_for_room}
use mini_store.Store.View.{live_entry-IsValid, live_entry-value_at, has-live_entry}
use mini_store.Store.Strings
use mini_store.Store.Lists
use mini_store.Store.Hashes

pub IsValid-if :
    (b : Bool) (s t : InMemoryStore) → IsValid s → IsValid t → IsValid (if b then s else t)
IsValid-if true s t v w = v
IsValid-if false s t v w = w

module _ (key : Text) where
  -- The entry that the gate returns is there to be touched.
  pub found :
      (s : InMemoryStore)
      → IsValid s
      → JsMap.has (live_entry key s).1.values key ≡ is_some (live_entry key s).0
  found s v = has-live_entry key s v ∙ ap is_some (sym (live_entry-value_at key s v))

  pub store_new-IsValid :
      (w : StoredValue) (s : InMemoryStore)
      → IsValid s
      → IsValid (touch key (put key w (reserve_slot_for key s)))
  store_new-IsValid w s v =
      let s' = reserve_slot_for key s in
      let v' = reserve_slot_for-IsValid key s v in
      elim (reserve_slot_for_room key s v) [
        | inl there ↦
            touch-IsValid key (put key w s') (replace-IsValid key s' v' w there)
              (ground (arith, JsMap.has-set s'.values key w key))
        | inr (absent, room) ↦ insert-IsValid key s' v' w absent room
      ]

  pub store_old-IsValid :
      (w : StoredValue) (s : InMemoryStore)
      → IsValid s
      → JsMap.has s.values key ≡ true
      → IsValid (touch key (put key w s))
  store_old-IsValid w s v h =
      touch-IsValid key (put key w s) (replace-IsValid key s v w h)
        (ground (arith, JsMap.has-set s.values key w key))

  pub keep_rest-IsValid :
      (l : List Text) (s : InMemoryStore)
      → IsValid s
      → JsMap.has s.values key ≡ true
      → IsValid (Lists.keep_rest key l s)
  unfolding Lists.keep_rest
  keep_rest-IsValid [] s v h =
      remove_key-IsValid key (put key (list []) s) (replace-IsValid key s v (list []) h)
  keep_rest-IsValid (x ∷ l) s v h = store_old-IsValid (list (x ∷ l)) s v h

  -- What an operation does with the entry keeps the invariant, if the key is stored just when there is
  -- an entry.
  abbrev pub Keeps :
      {A : Type 0} → (Option StoredValue → InMemoryStore → A × InMemoryStore) → Type 0
  Keeps f =
      (o : Option StoredValue) (s : InMemoryStore)
      → IsValid s
      → JsMap.has s.values key ≡ is_some o
      → IsValid (f o s).1

  pub through_gate :
      {A : Type 0} (f : Option StoredValue → InMemoryStore → A × InMemoryStore)
      → Keeps f
      → (s : InMemoryStore) → IsValid s
      → IsValid (f (live_entry key s).0 (live_entry key s).1).1
  through_gate f keeps s v =
      keeps (live_entry key s).0 (live_entry key s).1 (live_entry-IsValid key s v) (found s v)

  pub lpush_to-IsValid : (values : List Text) → Keeps (λ o s. Lists.lpush_to o key values s)
  unfolding Lists.lpush_to
  lpush_to-IsValid values none s v h = store_new-IsValid (list (Lists.unshift_all values [])) s v
  lpush_to-IsValid values (some (list l)) s v h =
      store_old-IsValid (list (Lists.unshift_all values l)) s v h
  lpush_to-IsValid values (some (string x)) s v h = v
  lpush_to-IsValid values (some (hash x)) s v h = v

  pub rpush_to-IsValid : (values : List Text) → Keeps (λ o s. Lists.rpush_to o key values s)
  unfolding Lists.rpush_to
  rpush_to-IsValid values none s v h = store_new-IsValid (list (Lists.push_all values [])) s v
  rpush_to-IsValid values (some (list l)) s v h =
      store_old-IsValid (list (Lists.push_all values l)) s v h
  rpush_to-IsValid values (some (string x)) s v h = v
  rpush_to-IsValid values (some (hash x)) s v h = v

  pub lpop_from-IsValid : Keeps (λ o s. Lists.lpop_from o key s)
  unfolding Lists.lpop_from
  lpop_from-IsValid none s v h = v
  lpop_from-IsValid (some (list [])) s v h = keep_rest-IsValid [] s v h
  lpop_from-IsValid (some (list (x ∷ l))) s v h = keep_rest-IsValid l s v h
  lpop_from-IsValid (some (string x)) s v h = v
  lpop_from-IsValid (some (hash x)) s v h = v

  pub rpop_from-IsValid : Keeps (λ o s. Lists.rpop_from o key s)
  unfolding Lists.rpop_from
  rpop_from-IsValid none s v h = v
  rpop_from-IsValid (some (list l)) s v h = keep_rest-IsValid (init l) s v h
  rpop_from-IsValid (some (string x)) s v h = v
  rpop_from-IsValid (some (hash x)) s v h = v

  pub lrange_of-IsValid : (start stop : ℤ) → Keeps (λ o s. Lists.lrange_of o key start stop s)
  unfolding Lists.lrange_of
  lrange_of-IsValid start stop none s v h = v
  lrange_of-IsValid start stop (some (list l)) s v h = touch-IsValid key s v h
  lrange_of-IsValid start stop (some (string x)) s v h = v
  lrange_of-IsValid start stop (some (hash x)) s v h = v

  pub llen_of-IsValid : Keeps (λ o s. Lists.llen_of o key s)
  unfolding Lists.llen_of
  llen_of-IsValid none s v h = v
  llen_of-IsValid (some (list l)) s v h = touch-IsValid key s v h
  llen_of-IsValid (some (string x)) s v h = v
  llen_of-IsValid (some (hash x)) s v h = v

  pub hset_to-IsValid : (pairs : List (Text × Text)) → Keeps (λ o s. Hashes.hset_to o key pairs s)
  unfolding Hashes.hset_to
  hset_to-IsValid [] none s v h = store_new-IsValid (hash []) s v
  hset_to-IsValid (p ∷ pairs) none s v h =
      store_new-IsValid (hash (Hashes.set_fields (p ∷ pairs) [] 0).0) s v
  hset_to-IsValid [] (some (hash m)) s v h = store_old-IsValid (hash m) s v h
  hset_to-IsValid (p ∷ pairs) (some (hash m)) s v h =
      store_old-IsValid (hash (Hashes.set_fields (p ∷ pairs) m 0).0) s v h
  hset_to-IsValid pairs (some (string x)) s v h = v
  hset_to-IsValid pairs (some (list x)) s v h = v

  pub hget_of-IsValid : (field : Text) → Keeps (λ o s. Hashes.hget_of o key field s)
  unfolding Hashes.hget_of
  hget_of-IsValid field none s v h = v
  hget_of-IsValid field (some (hash l)) s v h = touch-IsValid key s v h
  hget_of-IsValid field (some (string x)) s v h = v
  hget_of-IsValid field (some (list x)) s v h = v

  pub hgetall_of-IsValid : Keeps (λ o s. Hashes.hgetall_of o key s)
  unfolding Hashes.hgetall_of
  hgetall_of-IsValid none s v h = v
  hgetall_of-IsValid (some (hash l)) s v h = touch-IsValid key s v h
  hgetall_of-IsValid (some (string x)) s v h = v
  hgetall_of-IsValid (some (list x)) s v h = v

  pub hlen_of-IsValid : Keeps (λ o s. Hashes.hlen_of o key s)
  unfolding Hashes.hlen_of
  hlen_of-IsValid none s v h = v
  hlen_of-IsValid (some (hash l)) s v h = touch-IsValid key s v h
  hlen_of-IsValid (some (string x)) s v h = v
  hlen_of-IsValid (some (list x)) s v h = v

  pub get_from-IsValid : Keeps (λ o s. Strings.get_from o key s)
  unfolding Strings.get_from
  get_from-IsValid none s v h = v
  get_from-IsValid (some (string x)) s v h = touch-IsValid key s v h
  get_from-IsValid (some (list x)) s v h = v
  get_from-IsValid (some (hash x)) s v h = v

  pub hdel_from-IsValid : (fields : List Text) → Keeps (λ o s. Hashes.hdel_from o key fields s)
  unfolding Hashes.hdel_from
  hdel_from-IsValid fields none s v h = v
  hdel_from-IsValid fields (some (hash m)) s v h =
      let (m', removed) = Hashes.delete_fields fields m 0 in
      let s' = put key (hash m') s in
      let v' = replace-IsValid key s v (hash m') h in
      IsValid-if (JsMap.size m' == 0) (remove_key key s')
        (if ltb 0 removed then mark_dirty (touch key s') else s') (remove_key-IsValid key s' v')
        (IsValid-if (ltb 0 removed) (mark_dirty (touch key s')) s'
          (store_old-IsValid (hash m') s v h) v')
  hdel_from-IsValid fields (some (string x)) s v h = v
  hdel_from-IsValid fields (some (list x)) s v h = v
