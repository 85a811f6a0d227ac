-- ===== src/Handler/Executing.antt =====
-- About the commands of `CommandHandler` (store-engine/src/server/CommandHandler.ts): the store and the list
-- of recent lines after each.
use mini_store.Prelude.{
  ◌-◌, ◌≤◌, ◌≡◌, inl, inr, Bool, true, false, Option, none, some, List, [], ◌∷◌, ◌++◌, arith,
  length, length-append, drop, Text, text_keyed, ref_keyed, Bool-cases, is_some, ℤ, pos, negsuc,
  ◌&&◌,
}
use mini_store.PubSub
use mini_store.PubSub.{Connection, PubSubManager}
use mini_store.Protocol.Command.{Command}
use mini_store.Store.Invariant.{IsValid}
use mini_store.Store.Calls.{Call, apply}
use mini_store.Store.Preserved.{apply-IsValid}
use mini_store.Store.Strings
use mini_store.Handler.{
  CommandHandler, log_activity, execute_get, execute_command, start_rewrite, on_pub_sub, joined,
  counted, wrong_kind, reply_logged, start_save,
}
use mini_store.Handler
use mini_store.AofWriter.{commands_of, commands_if_typed, dump_commands, collect_commands}
use mini_store.Persistence.Dumping.{make_dump_lem}
use mini_store.Store.Keyspace
use mini_store.Store.{InMemoryStore, ValueType, string_type, list_type, hash_type}

pub record Sound (h : CommandHandler) : Type 0 where
  pub store_valid : IsValid h.store
  pub short : length h.recent_activity ≤ 15

log_bound :
    (line : Text) (activity : List Text)
    → length activity ≤ 15
    → length (log_activity line activity) ≤ 15
unfolding log_activity
log_bound line activity h =
    ground (arith, length-append activity (line ∷ []), shorter (activity ++ line ∷ []))
  where
    shorter : (l : List Text) → length (drop 1 l) ≡ length l - 1
    shorter [] = omega arith
    shorter (x ∷ l) = omega arith

with_store-Sound :
    (s : InMemoryStore) (h : CommandHandler) → IsValid s → Sound h → Sound (Handler.with_store s h)
with_store-Sound s h v w = record { store_valid = v; short = w.short }

logged-Sound :
    (b : Bool) (line r : Text) (h : CommandHandler) → Sound h → Sound (reply_logged b line r h).1
unfolding reply_logged
logged-Sound false line r h w = w
logged-Sound true line r h w = elim (Bool-cases (is_some h.aof && h.aof_throws)) [
  | inl broken ↦ rw broken w
  | inr fine ↦
      rw fine
        (record { store_valid = w.store_valid; short = log_bound line h.recent_activity w.short })
]

commands_of-IsValid :
    (type : ValueType) (key : Text) (ttl : ℤ) (s : InMemoryStore)
    → IsValid s
    → IsValid (commands_of type key ttl s).1
unfolding commands_of apply
commands_of-IsValid string_type key ttl s v = apply-IsValid (Call.get key) s v
commands_of-IsValid list_type key ttl s v = apply-IsValid (Call.lrange key (pos 0) (negsuc 0)) s v
commands_of-IsValid hash_type key ttl s v = apply-IsValid (Call.hgetall key) s v

commands_if_typed-IsValid :
    (type : Option ValueType) (key : Text) (s : InMemoryStore)
    → IsValid s
    → IsValid (commands_if_typed type key s).1
unfolding apply
commands_if_typed-IsValid none key s v = v
commands_if_typed-IsValid (some type) key s v =
    commands_of-IsValid type key (Strings.ttl key s).0 (Strings.ttl key s).1
      (apply-IsValid (Call.ttl key) s v)

dump_commands-IsValid :
    (keys commands : List Text) (s : InMemoryStore)
    → IsValid s
    → IsValid (dump_commands keys commands s).1
unfolding dump_commands apply
dump_commands-IsValid [] commands s v = v
dump_commands-IsValid (key ∷ keys) commands s v =
    let (type, s1) = Strings.key_type key s in
    let (more, s2) = commands_if_typed type key s1 in
    dump_commands-IsValid keys (commands ++ more) s2
      (commands_if_typed-IsValid type key s1 (apply-IsValid (Call.key_type key) s v))

-- The work of a rewrite up to its first `await` keeps the store valid.
collect_commands-IsValid : (s : InMemoryStore) → IsValid s → IsValid (collect_commands s).1
unfolding apply
collect_commands-IsValid s v =
    dump_commands-IsValid (Keyspace.keys (b'*' ∷ []) s).0 [] (Keyspace.keys (b'*' ∷ []) s).1
      (apply-IsValid (Call.keys (b'*' ∷ [])) s v)

module _ (line : Text) (connection : Connection) (h : CommandHandler) (w : Sound h) where
  get-Sound : (key : Text) → Sound (execute_get key h).1
  unfolding execute_get apply
  get-Sound key = elim (Bool-cases (wrong_kind (Strings.key_type key h.store).0)) [
    | inl wrong ↦ rw wrong (record {
      store_valid = apply-IsValid (Call.key_type key) h.store w.store_valid;
      short = w.short;
    })
    | inr right ↦ rw right (record {
      store_valid =
          apply-IsValid (Call.get key) (Strings.key_type key h.store).1
            (apply-IsValid (Call.key_type key) h.store w.store_valid);
      short = w.short;
    })
  ]

  on_pub_sub-Sound :
      (call : PubSubManager → Text × PubSubManager) (p : Option PubSubManager)
      → Sound (on_pub_sub call p h).1
  on_pub_sub-Sound call none = w
  on_pub_sub-Sound call (some p) = record { store_valid = w.store_valid; short = w.short }

  rewrite_unless-Sound : (busy : Bool) → Sound (Handler.rewrite_unless busy h)
  rewrite_unless-Sound true = w
  rewrite_unless-Sound false = record {
    store_valid = collect_commands-IsValid h.store w.store_valid;
    short = w.short;
  }

  rewrite-Sound : (aof : Option (List Text)) → Sound (start_rewrite aof h).1
  rewrite-Sound none = w
  rewrite-Sound (some lines) = rewrite_unless-Sound h.rewrite_in_progress

  save-Sound : (persistence : Option Bool) → Sound (start_save persistence h).1
  save-Sound none = w
  save-Sound (some true) = w
  save-Sound (some false) = record {
    store_valid = (make_dump_lem h.store w.store_valid).1.0;
    short = w.short;
  }

  -- The handler with the store that a call leaves.
  called-Sound : (call : Call) → Sound (Handler.with_store (apply call h.store) h)
  called-Sound call =
      with_store-Sound (apply call h.store) h (apply-IsValid call h.store w.store_valid) w

  pub execute-Sound : (c : Command) → Sound (execute_command line connection h c).1
  unfolding execute_command apply
  execute-Sound (Command.set key v ttl) =
      logged-Sound true line _ _ (called-Sound (Call.set key v ttl))
  execute-Sound (Command.get key) = get-Sound key
  execute-Sound (Command.del key) = logged-Sound _ line _ _ (called-Sound (Call.del key))
  execute-Sound (Command.expire key seconds) =
      logged-Sound _ line _ _ (called-Sound (Call.expire key seconds))
  execute-Sound (Command.lpush key values) =
      logged-Sound _ line _ _ (called-Sound (Call.lpush key values))
  execute-Sound (Command.rpush key values) =
      logged-Sound _ line _ _ (called-Sound (Call.rpush key values))
  execute-Sound (Command.lpop key) = logged-Sound _ line _ _ (called-Sound (Call.lpop key))
  execute-Sound (Command.rpop key) = logged-Sound _ line _ _ (called-Sound (Call.rpop key))
  execute-Sound (Command.hset key pairs) =
      logged-Sound _ line _ _ (called-Sound (Call.hset key pairs))
  execute-Sound (Command.hdel key fields) =
      logged-Sound _ line _ _ (called-Sound (Call.hdel key fields))
  execute-Sound (Command.persist key) = logged-Sound _ line _ _ (called-Sound (Call.persist key))
  execute-Sound (Command.lrange key start stop) = called-Sound (Call.lrange key start stop)
  execute-Sound (Command.hget key field) = called-Sound (Call.hget key field)
  execute-Sound (Command.exists key) = called-Sound (Call.exists key)
  execute-Sound (Command.ttl key) = called-Sound (Call.ttl key)
  execute-Sound (Command.keys pattern) = called-Sound (Call.keys pattern)
  execute-Sound (Command.llen key) = called-Sound (Call.llen key)
  execute-Sound (Command.hgetall key) = called-Sound (Call.hgetall key)
  execute-Sound (Command.hlen key) = called-Sound (Call.hlen key)
  execute-Sound Command.bgsave = save-Sound h.persistence
  execute-Sound Command.bgrewriteaof = rewrite-Sound h.aof
  execute-Sound (Command.subscribe channels) =
      on_pub_sub-Sound (λ p. joined (PubSub.subscribe connection channels p)) h.pub_sub
  execute-Sound (Command.unsubscribe channels) =
      on_pub_sub-Sound (λ p. joined (PubSub.unsubscribe connection channels p)) h.pub_sub
  execute-Sound (Command.publish channel message) =
      on_pub_sub-Sound (λ p. counted (PubSub.publish channel message p)) h.pub_sub
  execute-Sound (Command.auth password) = w
  execute-Sound Command.multi = w
  execute-Sound Command.exec = w
  execute-Sound Command.discard = w
