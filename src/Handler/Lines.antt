-- ===== src/Handler/Lines.antt =====
-- About `CommandHandler.handleLine` (store-engine/src/server/CommandHandler.ts) up to the execution of a
-- command: the password, the disabled commands, the listening connections and the transactions.
use mini_store.Prelude.{
  Bool, true, false, not, ◌&&◌, Option, none, some, List, [], ◌∷◌, ◌++◌, if◌then◌else◌, Text,
  Text-discrete, text_keyed, ref_keyed, contains,
}
use mini_store.JsMap
use mini_store.JsMap.{JsMap, add}
use mini_store.PubSub
use mini_store.PubSub.{Connection, PubSubManager}
use mini_store.Protocol.Command.{codes, Command, ParseResult, ok, err}
use mini_store.Protocol.Parser.{parse_command}
use mini_store.Protocol.Rendering.{label, name_of}
use mini_store.Protocol.Replies.{ok_reply, raw_array, error}
use mini_store.Handler.{CommandHandler, execute_command}

-- The loop of EXEC, which a command that throws ends.
unfoldable pub execute_queue :
    List (Text × Command)
    → Connection
    → List Text
    → CommandHandler
    → Option (List Text) × CommandHandler
unfolding execute_command
execute_queue [] connection results h = (some results, h)
execute_queue ((line, command) ∷ queue) connection results h =
    let (reply, h') = execute_command line connection h command in
    elim reply [
      | none ↦ (none, h')
      | some r ↦ execute_queue queue connection (results ++ r ∷ []) h'
    ]

abbrev pub join_results : Option (List Text) → Option Text
join_results none = none
join_results (some results) = some (raw_array results)

unfoldable pub exec_queue :
    Option (List (Text × Command)) → Connection → CommandHandler → Option Text × CommandHandler
unfolding execute_queue
exec_queue none connection h = (some (error (codes "EXEC without MULTI")), h)
exec_queue (some queue) connection h =
    let (results, h') =
      execute_queue queue connection []
        (record h { transactions = JsMap.delete h.transactions connection }) in
    (join_results results, h')

abbrev pub begin : Bool → Connection → CommandHandler → Option Text × CommandHandler
begin true connection h = (some (error (codes "MULTI calls can not be nested")), h)
begin false connection h = (
  some (ok_reply (codes "OK")),
  record h { transactions = JsMap.set h.transactions connection [] },
)

abbrev pub discard_queue : Bool → Connection → CommandHandler → Option Text × CommandHandler
discard_queue false connection h = (some (error (codes "DISCARD without MULTI")), h)
discard_queue true connection h = (
  some (ok_reply (codes "OK")),
  record h { transactions = JsMap.delete h.transactions connection },
)

-- A command that is none of MULTI, EXEC and DISCARD: queued in a transaction, and executed outside.
unfoldable pub queue_or_execute :
    Option (List (Text × Command))
    → Command
    → Text
    → Connection
    → CommandHandler
    → Option Text × CommandHandler
unfolding execute_command
queue_or_execute (some queue) command line connection h = (
  some (ok_reply (codes "QUEUED")),
  record h { transactions = JsMap.set h.transactions connection (queue ++ (line, command) ∷ []) },
)
queue_or_execute none command line connection h = execute_command line connection h command

unfoldable pub transact :
    Command → Text → Connection → CommandHandler → Option Text × CommandHandler
unfolding exec_queue queue_or_execute
transact Command.multi line connection h = begin (JsMap.has h.transactions connection) connection h
transact Command.exec line connection h =
    exec_queue (JsMap.get h.transactions connection) connection h
transact Command.discard line connection h =
    discard_queue (JsMap.has h.transactions connection) connection h
transact command line connection h =
    queue_or_execute (JsMap.get h.transactions connection) command line connection h

-- `command.name !== 'SUBSCRIBE' && command.name !== 'UNSUBSCRIBE'`, negated
abbrev pub is_subscription : Command → Bool
is_subscription (Command.subscribe channels) = true
is_subscription (Command.unsubscribe channels) = true
is_subscription _ = false

abbrev pub is_listening : Option PubSubManager → Connection → Bool
is_listening none connection = false
is_listening (some p) connection = PubSub.is_subscribed p connection

unfoldable pub admit : Command → Text → Connection → CommandHandler → Option Text × CommandHandler
unfolding transact
admit command line connection h =
    if contains (label (name_of command)) h.disabled_commands
    then (some (error (codes "command disabled")), h)
    else if is_listening h.pub_sub connection && not (is_subscription command)
    then (
      some (
          error (codes "only (P)SUBSCRIBE / (P)UNSUBSCRIBE / PING / QUIT allowed in this context")),
      h,
    )
    else transact command line connection h

-- The password of an AUTH.
abbrev pub password_of : Command → Option Text
password_of (Command.auth password) = some password
password_of _ = none

-- Whether the password is the right one has been decided.
abbrev pub answer_password :
    {P : Type 0} → Dec P → Connection → CommandHandler → Option Text × CommandHandler
answer_password (yes p) connection h =
    (some (ok_reply (codes "OK")), record h { authenticated = add h.authenticated connection })
answer_password (no p) connection h = (some (error (codes "invalid password")), h)

abbrev pub log_in : Text → Option Text → Connection → CommandHandler → Option Text × CommandHandler
log_in pass (some password) connection h =
    answer_password (Text-discrete password pass) connection h
log_in pass none connection h = (some (error (codes "NOAUTH Authentication required.")), h)

unfoldable pub check_auth :
    Option Text → Command → Text → Connection → CommandHandler → Option Text × CommandHandler
unfolding admit
check_auth none command line connection h = admit command line connection h
check_auth (some pass) command line connection h =
    if not (contains connection h.authenticated)
    then log_in pass (password_of command) connection h
    else admit command line connection h

unfoldable pub handle_parsed :
    ParseResult → Text → Connection → CommandHandler → Option Text × CommandHandler
unfolding check_auth
handle_parsed (err message) line connection h = (some (error message), h)
handle_parsed (ok command) line connection h = check_auth h.requirepass command line connection h

unfoldable pub handle_line : Text → Connection → CommandHandler → Option Text × CommandHandler
unfolding handle_parsed
handle_line line connection h = handle_parsed (parse_command line) line connection h
