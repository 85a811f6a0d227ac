-- ===== src/Handler.antt =====
-- `CommandHandler` (store-engine/src/server/CommandHandler.ts): from a line of a connection to the reply,
-- with the store, the log, the subscriptions and the transactions behind it: here the commands, and in
-- Lines what stands before them. What the log writer gets is the list of lines written to it; a
-- background save or rewrite is its work up to the first `await` and the note that it was started,
-- and its end, which clears the mark, comes from outside. The reply `none` is an error that is
-- thrown, the `thrown` of TcpServer.
pub mod Lines
pub mod Executing
pub mod Soundness
pub mod Guards
use mini_store.Prelude.{
  ℕ, ite, Bool, true, false, not, ◌&&◌, Option, none, some, is_some, List, [], ◌∷◌, ◌++◌, length,
  drop, ltb, if◌then◌else◌, ℤ, pos, Text, Text-discrete, text_keyed, ref_keyed, contains,
}
use mini_store.JsMap
use mini_store.JsMap.{JsMap, add}
use mini_store.Persistence.{make_dump}
use mini_store.AofWriter.{collect_commands}
use mini_store.PubSub
use mini_store.PubSub.{Connection, PubSubManager}
use mini_store.Protocol.Command.{codes, Command, ParseResult, ok, err}
use mini_store.Protocol.Parser.{parse_command}
use mini_store.Protocol.Rendering.{label, name_of}
use mini_store.Protocol.Replies.{
  ok_reply, value, nil, integer, array, raw_array, error, wrong_type_reply,
}
use mini_store.Store.{
  InMemoryStore, StoreResult, wrong_type, ValueType, string_type, list_type, hash_type,
}
use mini_store.Store.Strings
use mini_store.Store.Lists
use mini_store.Store.Hashes
use mini_store.Store.Keyspace

pub data Job : Type 0 where
  save rewrite : Job

pub record CommandHandler : Type 0 where
  pub store : InMemoryStore
  -- `#persistenceManager`, with whether a save of it is in progress
  pub persistence : Option Bool
  -- `#aofWriter`: the lines written to it, whether writing throws (as it does where a rewrite has
  -- closed the descriptor), and whether a rewrite is in progress
  pub aof : Option (List Text)
  pub aof_throws : Bool
  pub rewrite_in_progress : Bool
  pub pub_sub : Option PubSubManager
  pub requirepass : Option Text
  pub disabled_commands : List Text
  pub transactions : JsMap Connection (List (Text × Command))
  pub authenticated : List Connection
  -- the lines of `recentActivity`, without the time of day in front
  pub recent_activity : List Text
  pub started : List Job

abbrev pub write_aof : Text → Option (List Text) → Option (List Text)
write_aof line none = none
write_aof line (some lines) = some (lines ++ line ∷ [])

unfoldable pub log_activity : Text → List Text → List Text
log_activity line activity =
    let longer = activity ++ line ∷ [] in if ltb 15 (length longer) then drop 1 longer else longer

-- `write` and `#logActivity`
abbrev pub log : Text → CommandHandler → CommandHandler
log line h = record h {
  aof = write_aof line h.aof;
  recent_activity = log_activity line h.recent_activity;
}

-- The reply, and in front of it the logging where the condition holds. `none` is an error that is
-- thrown.
unfoldable pub reply_logged : Bool → Text → Text → CommandHandler → Option Text × CommandHandler
unfolding log_activity
reply_logged false line r h = (some r, h)
reply_logged true line r h =
    if is_some h.aof && h.aof_throws then (none, h) else (some r, log line h)

abbrev pub with_store : InMemoryStore → CommandHandler → CommandHandler
with_store s h = record h { store = s }

abbrev pub flag : Bool → Text
flag b = integer (pos (if b then 1 else 0))

abbrev pub or_nil : Option Text → Text
or_nil none = nil
or_nil (some v) = value v

abbrev pub is_ok : {A : Type 0} → StoreResult A → Bool
is_ok (StoreResult.ok a) = true
is_ok wrong_type = false

abbrev pub positive : StoreResult ℕ → Bool
positive (StoreResult.ok n) = ltb 0 n
positive wrong_type = false

abbrev pub popped : StoreResult (Option Text) → Bool
popped (StoreResult.ok o) = is_some o
popped wrong_type = false

abbrev pub integer_reply : StoreResult ℕ → Text
integer_reply (StoreResult.ok n) = integer (pos n)
integer_reply wrong_type = wrong_type_reply

abbrev pub array_reply : StoreResult (List Text) → Text
array_reply (StoreResult.ok l) = array l
array_reply wrong_type = wrong_type_reply

abbrev pub value_reply : StoreResult (Option Text) → Text
value_reply (StoreResult.ok o) = or_nil o
value_reply wrong_type = wrong_type_reply

-- GET asks for the kind first.
abbrev pub wrong_kind : Option ValueType → Bool
wrong_kind none = false
wrong_kind (some string_type) = false
wrong_kind (some list_type) = true
wrong_kind (some hash_type) = true

unfoldable pub execute_get : Text → CommandHandler → Option Text × CommandHandler
execute_get key h =
    let (kind, s) = Strings.key_type key h.store in
    let (found, s') = Strings.get key s in
    if wrong_kind kind
    then (some wrong_type_reply, with_store s h)
    else (some (or_nil found), with_store s' h)

unfoldable pub join_replies : List Text → Text
join_replies [] = []
join_replies (r ∷ rs) = r ++ join_replies rs

abbrev pub not_configured : Text
not_configured = error (codes "Pub/Sub not configured")

-- A call of the subscriptions, where there are some.
abbrev pub on_pub_sub :
    (PubSubManager → Text × PubSubManager)
    → Option PubSubManager
    → CommandHandler
    → Option Text × CommandHandler
on_pub_sub call none h = (some not_configured, h)
on_pub_sub call (some p) h = let (r, p') = call p in (some r, record h { pub_sub = some p' })

abbrev pub joined : List Text × PubSubManager → Text × PubSubManager
joined (rs, p) = (join_replies rs, p)

abbrev pub counted : ℕ × PubSubManager → Text × PubSubManager
counted (n, p) = (integer (pos n), p)

-- A save runs up to its first `await`; one that is refused is logged on the console.
abbrev pub start_save : Option Bool → CommandHandler → Option Text × CommandHandler
start_save none h = (some (error (codes "persistence not configured")), h)
start_save (some true) h = (some (ok_reply (codes "OK")), h)
start_save (some false) h = (
  some (ok_reply (codes "OK")),
  record h {
    store = (make_dump h.store).1;
    persistence = some true;
    started = h.started ++ save ∷ [];
  },
)

abbrev pub rewrite_unless : Bool → CommandHandler → CommandHandler
rewrite_unless true h = h
rewrite_unless false h = record h {
  store = (collect_commands h.store).1;
  rewrite_in_progress = true;
  started = h.started ++ rewrite ∷ [];
}

abbrev pub start_rewrite : Option (List Text) → CommandHandler → Option Text × CommandHandler
start_rewrite none h = (some (error (codes "AOF not configured")), h)
start_rewrite (some lines) h =
    (some (ok_reply (codes "OK")), rewrite_unless h.rewrite_in_progress h)

-- `#executeCommand`; MULTI, EXEC and DISCARD never get here, and its `default` is `unhandled`, of which
-- the text names the command.
module _ (line : Text) (connection : Connection) (h : CommandHandler) where
  unfoldable pub execute_command : Command → Option Text × CommandHandler
  unfolding execute_get reply_logged
  execute_command (Command.set key v ttl) =
      reply_logged true line (ok_reply (codes "OK")) (with_store (Strings.set key v ttl h.store) h)
  execute_command (Command.get key) = execute_get key h
  execute_command (Command.del key) =
      let (removed, s) = Strings.del key h.store in
      reply_logged removed line (flag removed) (with_store s h)
  execute_command (Command.expire key seconds) =
      let (applied, s) = Strings.expire key seconds h.store in
      reply_logged applied line (flag applied) (with_store s h)
  execute_command (Command.lpush key values) =
      let (result, s) = Lists.lpush key values h.store in
      reply_logged (is_ok result) line (integer_reply result) (with_store s h)
  execute_command (Command.lpop key) =
      let (result, s) = Lists.lpop key h.store in
      reply_logged (popped result) line (value_reply result) (with_store s h)
  execute_command (Command.lrange key start stop) =
      let (result, s) = Lists.lrange key start stop h.store in
      (some (array_reply result), with_store s h)
  execute_command (Command.hset key pairs) =
      let (result, s) = Hashes.hset key pairs h.store in
      reply_logged (positive result) line (integer_reply result) (with_store s h)
  execute_command (Command.hget key field) =
      let (result, s) = Hashes.hget key field h.store in (some (value_reply result), with_store s h)
  execute_command (Command.exists key) =
      let (b, s) = Strings.exists key h.store in (some (flag b), with_store s h)
  execute_command (Command.ttl key) =
      let (n, s) = Strings.ttl key h.store in (some (integer n), with_store s h)
  execute_command (Command.persist key) =
      let (applied, s) = Strings.persist key h.store in
      reply_logged applied line (flag applied) (with_store s h)
  execute_command (Command.keys pattern) =
      let (found, s) = Keyspace.keys pattern h.store in (some (array found), with_store s h)
  execute_command (Command.rpush key values) =
      let (result, s) = Lists.rpush key values h.store in
      reply_logged (is_ok result) line (integer_reply result) (with_store s h)
  execute_command (Command.rpop key) =
      let (result, s) = Lists.rpop key h.store in
      reply_logged (popped result) line (value_reply result) (with_store s h)
  execute_command (Command.llen key) =
      let (result, s) = Lists.llen key h.store in (some (integer_reply result), with_store s h)
  execute_command (Command.hdel key fields) =
      let (result, s) = Hashes.hdel key fields h.store in
      reply_logged (positive result) line (integer_reply result) (with_store s h)
  execute_command (Command.hgetall key) =
      let (result, s) = Hashes.hgetall key h.store in (some (array_reply result), with_store s h)
  execute_command (Command.hlen key) =
      let (result, s) = Hashes.hlen key h.store in (some (integer_reply result), with_store s h)
  execute_command Command.bgsave = start_save h.persistence h
  execute_command Command.bgrewriteaof = start_rewrite h.aof h
  execute_command (Command.subscribe channels) =
      on_pub_sub (λ p. joined (PubSub.subscribe connection channels p)) h.pub_sub h
  execute_command (Command.unsubscribe channels) =
      on_pub_sub (λ p. joined (PubSub.unsubscribe connection channels p)) h.pub_sub h
  execute_command (Command.publish channel message) =
      on_pub_sub (λ p. counted (PubSub.publish channel message p)) h.pub_sub h
  execute_command (Command.auth password) = (some (ok_reply (codes "OK")), h)
  execute_command Command.multi = (some (error (codes "unhandled command")), h)
  execute_command Command.exec = (some (error (codes "unhandled command")), h)
  execute_command Command.discard = (some (error (codes "unhandled command")), h)
