-- ===== src/Store/ProperEntries.antt =====
-- About what the operations of `InMemoryStore` do with an entry: that no field of a hash stands there twice.
use mini_store.Prelude.{
  none, some, List, [], ◌∷◌, if◌then◌else◌, ltb, ◌==◌, init, drop, Text, text_keyed, ℤ,
}
use mini_store.JsMap
use mini_store.Store.{
  InMemoryStore, string, list, hash, touch, put, mark_dirty, remove_key, reserve_slot_for,
}
use mini_store.Store.Proper.{
  HashesDistinct, Keeps, if-Distinct, put-Distinct, remove_key-Distinct, reserve-Distinct,
  set_fields-Distinct, delete_fields-Distinct, keep_rest-Distinct,
}
use mini_store.Store.Strings
use mini_store.Store.Lists
use mini_store.Store.Hashes

module _ (key : Text) where
  pub get_from-Distinct : Keeps key (λ o s. Strings.get_from o key s)
  unfolding Strings.get_from
  get_from-Distinct none s p h = h
  get_from-Distinct (some (string x)) s p h = h
  get_from-Distinct (some (list l)) s p h = h
  get_from-Distinct (some (hash m)) s p h = h

  pub lpush_to-Distinct : (values : List Text) → Keeps key (λ o s. Lists.lpush_to o key values s)
  unfolding Lists.lpush_to
  lpush_to-Distinct values none s p h =
      put-Distinct key (reserve_slot_for key s) (reserve-Distinct key s h)
        (list (Lists.unshift_all values [])) tt
  lpush_to-Distinct values (some (string x)) s p h = h
  lpush_to-Distinct values (some (list l)) s p h =
      put-Distinct key s h (list (Lists.unshift_all values l)) tt
  lpush_to-Distinct values (some (hash m)) s p h = h

  pub rpush_to-Distinct : (values : List Text) → Keeps key (λ o s. Lists.rpush_to o key values s)
  unfolding Lists.rpush_to
  rpush_to-Distinct values none s p h =
      put-Distinct key (reserve_slot_for key s) (reserve-Distinct key s h)
        (list (Lists.push_all values [])) tt
  rpush_to-Distinct values (some (string x)) s p h = h
  rpush_to-Distinct values (some (list l)) s p h =
      put-Distinct key s h (list (Lists.push_all values l)) tt
  rpush_to-Distinct values (some (hash m)) s p h = h

  pub lpop_from-Distinct : Keeps key (λ o s. Lists.lpop_from o key s)
  unfolding Lists.lpop_from
  lpop_from-Distinct none s p h = h
  lpop_from-Distinct (some (string x)) s p h = h
  lpop_from-Distinct (some (list l)) s p h = keep_rest-Distinct key (drop 1 l) s h
  lpop_from-Distinct (some (hash m)) s p h = h

  pub rpop_from-Distinct : Keeps key (λ o s. Lists.rpop_from o key s)
  unfolding Lists.rpop_from
  rpop_from-Distinct none s p h = h
  rpop_from-Distinct (some (string x)) s p h = h
  rpop_from-Distinct (some (list l)) s p h = keep_rest-Distinct key (init l) s h
  rpop_from-Distinct (some (hash m)) s p h = h

  pub lrange_of-Distinct : (start stop : ℤ) → Keeps key (λ o s. Lists.lrange_of o key start stop s)
  unfolding Lists.lrange_of
  lrange_of-Distinct start stop none s p h = h
  lrange_of-Distinct start stop (some (string x)) s p h = h
  lrange_of-Distinct start stop (some (list l)) s p h = h
  lrange_of-Distinct start stop (some (hash m)) s p h = h

  pub llen_of-Distinct : Keeps key (λ o s. Lists.llen_of o key s)
  unfolding Lists.llen_of
  llen_of-Distinct none s p h = h
  llen_of-Distinct (some (string x)) s p h = h
  llen_of-Distinct (some (list l)) s p h = h
  llen_of-Distinct (some (hash m)) s p h = h

  pairs-Distinct :
      (pairs : List (Text × Text)) (s : InMemoryStore)
      → HashesDistinct s
      → HashesDistinct (Hashes.mark_if_any pairs s)
  pairs-Distinct [] s h = h
  pairs-Distinct (q ∷ pairs) s h = h

  pub hset_to-Distinct :
      (pairs : List (Text × Text)) → Keeps key (λ o s. Hashes.hset_to o key pairs s)
  unfolding Hashes.hset_to
  hset_to-Distinct pairs none s p h = pairs-Distinct pairs _ (
      put-Distinct key (reserve_slot_for key s) (reserve-Distinct key s h)
        (hash (Hashes.set_fields pairs [] 0).0) (set_fields-Distinct pairs [] 0 tt))
  hset_to-Distinct pairs (some (string x)) s p h = h
  hset_to-Distinct pairs (some (list l)) s p h = h
  hset_to-Distinct pairs (some (hash m)) s p h = pairs-Distinct pairs _ (
      put-Distinct key s h (hash (Hashes.set_fields pairs m 0).0) (set_fields-Distinct pairs m 0 p))

  pub hdel_from-Distinct : (fields : List Text) → Keeps key (λ o s. Hashes.hdel_from o key fields s)
  unfolding Hashes.hdel_from
  hdel_from-Distinct fields none s p h = h
  hdel_from-Distinct fields (some (string x)) s p h = h
  hdel_from-Distinct fields (some (list l)) s p h = h
  hdel_from-Distinct fields (some (hash m)) s p h =
      let (m', removed) = Hashes.delete_fields fields m 0 in
      let s' = put key (hash m') s in
      let h' = put-Distinct key s h (hash m') (delete_fields-Distinct fields m 0 p) in
      if-Distinct (JsMap.size m' == 0) (remove_key key s')
        (if ltb 0 removed then mark_dirty (touch key s') else s') (remove_key-Distinct key s' h')
        (if-Distinct (ltb 0 removed) (mark_dirty (touch key s')) s' h' h')

  pub hget_of-Distinct : (field : Text) → Keeps key (λ o s. Hashes.hget_of o key field s)
  unfolding Hashes.hget_of
  hget_of-Distinct field none s p h = h
  hget_of-Distinct field (some (string x)) s p h = h
  hget_of-Distinct field (some (list l)) s p h = h
  hget_of-Distinct field (some (hash m)) s p h = h

  pub hgetall_of-Distinct : Keeps key (λ o s. Hashes.hgetall_of o key s)
  unfolding Hashes.hgetall_of
  hgetall_of-Distinct none s p h = h
  hgetall_of-Distinct (some (string x)) s p h = h
  hgetall_of-Distinct (some (list l)) s p h = h
  hgetall_of-Distinct (some (hash m)) s p h = h

  pub hlen_of-Distinct : Keeps key (λ o s. Hashes.hlen_of o key s)
  unfolding Hashes.hlen_of
  hlen_of-Distinct none s p h = h
  hlen_of-Distinct (some (string x)) s p h = h
  hlen_of-Distinct (some (list l)) s p h = h
  hlen_of-Distinct (some (hash m)) s p h = h
