-- ===== src/Handler/Soundness.antt =====
-- About `handle_line`: the store behind it and the list of recent lines.
use mini_store.Prelude.{
  Bool, true, false, not, ◌&&◌, Option, none, some, List, [], ◌∷◌, if◌then◌else◌, Text,
  Text-discrete, text_keyed, ref_keyed, contains, ◌++◌,
}
use mini_store.JsMap
use mini_store.PubSub.{Connection}
use mini_store.Protocol.Command.{Command, ParseResult, ok, err}
use mini_store.Protocol.Parser.{parse_command}
use mini_store.Protocol.Rendering.{label, name_of}
use mini_store.Handler.{CommandHandler, execute_command}
use mini_store.Handler.Lines.{
  execute_queue, exec_queue, begin, discard_queue, queue_or_execute, transact, is_subscription,
  is_listening, admit, log_in, answer_password, password_of, check_auth, handle_parsed, handle_line,
}
use mini_store.Handler.Executing.{Sound, execute-Sound}

-- What comes after the reply of one command.
rest-Sound :
    (queue : List (Text × Command)) (c : Connection) (results : List Text) (reply : Option Text)
    (h : CommandHandler)
    → ((results : List Text) (h : CommandHandler)
        → Sound h
        → Sound (execute_queue queue c results h).1)
    → Sound h
    → (let end : Option (List Text) × CommandHandler = elim reply [
      | none ↦ (none, h)
      | some r ↦ execute_queue queue c (results ++ r ∷ []) h
    ] in
        Sound end.1)
rest-Sound queue c results none h all w = w
rest-Sound queue c results (some r) h all w = all (results ++ r ∷ []) h w

queue-Sound :
    (queue : List (Text × Command)) (c : Connection) (results : List Text) (h : CommandHandler)
    → Sound h
    → Sound (execute_queue queue c results h).1
unfolding execute_queue
queue-Sound [] c results h w = w
queue-Sound ((line, command) ∷ queue) c results h w =
    let (reply, h') = execute_command line c h command in
    rest-Sound queue c results reply h' (queue-Sound queue c) (execute-Sound line c h w command)

Sound-if :
    (b : Bool) (x y : Option Text × CommandHandler)
    → Sound x.1
    → Sound y.1
    → Sound (if b then x else y).1
Sound-if true x y wx wy = wx
Sound-if false x y wx wy = wy

module _ (line : Text) (connection : Connection) (h : CommandHandler) (w : Sound h) where
  exec-Sound : (o : Option (List (Text × Command))) → Sound (exec_queue o connection h).1
  unfolding exec_queue
  exec-Sound none = w
  exec-Sound (some queue) =
      queue-Sound queue connection [] _ (record { store_valid = w.store_valid; short = w.short })

  begin-Sound : (b : Bool) → Sound (begin b connection h).1
  begin-Sound true = w
  begin-Sound false = record { store_valid = w.store_valid; short = w.short }

  discard-Sound : (b : Bool) → Sound (discard_queue b connection h).1
  discard-Sound true = record { store_valid = w.store_valid; short = w.short }
  discard-Sound false = w

  queue_or_execute-Sound :
      (o : Option (List (Text × Command))) (c : Command)
      → Sound (queue_or_execute o c line connection h).1
  unfolding queue_or_execute
  queue_or_execute-Sound (some queue) c = record { store_valid = w.store_valid; short = w.short }
  queue_or_execute-Sound none c = execute-Sound line connection h w c

  transact-Sound : (c : Command) → Sound (transact c line connection h).1
  unfolding transact
  transact-Sound Command.multi = begin-Sound (JsMap.has h.transactions connection)
  transact-Sound Command.exec = exec-Sound (JsMap.get h.transactions connection)
  transact-Sound Command.discard = discard-Sound (JsMap.has h.transactions connection)
  transact-Sound (Command.set key v ttl) =
      queue_or_execute-Sound (JsMap.get h.transactions connection) (Command.set key v ttl)
  transact-Sound (Command.get key) =
      queue_or_execute-Sound (JsMap.get h.transactions connection) (Command.get key)
  transact-Sound (Command.del key) =
      queue_or_execute-Sound (JsMap.get h.transactions connection) (Command.del key)
  transact-Sound (Command.expire key seconds) =
      queue_or_execute-Sound (JsMap.get h.transactions connection) (Command.expire key seconds)
  transact-Sound (Command.lpush key values) =
      queue_or_execute-Sound (JsMap.get h.transactions connection) (Command.lpush key values)
  transact-Sound (Command.rpush key values) =
      queue_or_execute-Sound (JsMap.get h.transactions connection) (Command.rpush key values)
  transact-Sound (Command.lpop key) =
      queue_or_execute-Sound (JsMap.get h.transactions connection) (Command.lpop key)
  transact-Sound (Command.rpop key) =
      queue_or_execute-Sound (JsMap.get h.transactions connection) (Command.rpop key)
  transact-Sound (Command.hset key pairs) =
      queue_or_execute-Sound (JsMap.get h.transactions connection) (Command.hset key pairs)
  transact-Sound (Command.hdel key fields) =
      queue_or_execute-Sound (JsMap.get h.transactions connection) (Command.hdel key fields)
  transact-Sound (Command.persist key) =
      queue_or_execute-Sound (JsMap.get h.transactions connection) (Command.persist key)
  transact-Sound (Command.lrange key start stop) =
      queue_or_execute-Sound (JsMap.get h.transactions connection) (Command.lrange key start stop)
  transact-Sound (Command.hget key field) =
      queue_or_execute-Sound (JsMap.get h.transactions connection) (Command.hget key field)
  transact-Sound (Command.exists key) =
      queue_or_execute-Sound (JsMap.get h.transactions connection) (Command.exists key)
  transact-Sound (Command.ttl key) =
      queue_or_execute-Sound (JsMap.get h.transactions connection) (Command.ttl key)
  transact-Sound (Command.keys pattern) =
      queue_or_execute-Sound (JsMap.get h.transactions connection) (Command.keys pattern)
  transact-Sound (Command.llen key) =
      queue_or_execute-Sound (JsMap.get h.transactions connection) (Command.llen key)
  transact-Sound (Command.hgetall key) =
      queue_or_execute-Sound (JsMap.get h.transactions connection) (Command.hgetall key)
  transact-Sound (Command.hlen key) =
      queue_or_execute-Sound (JsMap.get h.transactions connection) (Command.hlen key)
  transact-Sound (Command.subscribe channels) =
      queue_or_execute-Sound (JsMap.get h.transactions connection) (Command.subscribe channels)
  transact-Sound (Command.unsubscribe channels) =
      queue_or_execute-Sound (JsMap.get h.transactions connection) (Command.unsubscribe channels)
  transact-Sound (Command.publish channel message) =
      queue_or_execute-Sound (JsMap.get h.transactions connection) (Command.publish channel message)
  transact-Sound (Command.auth password) =
      queue_or_execute-Sound (JsMap.get h.transactions connection) (Command.auth password)
  transact-Sound Command.bgsave =
      queue_or_execute-Sound (JsMap.get h.transactions connection) Command.bgsave
  transact-Sound Command.bgrewriteaof =
      queue_or_execute-Sound (JsMap.get h.transactions connection) Command.bgrewriteaof

  admit-Sound : (c : Command) → Sound (admit c line connection h).1
  unfolding admit
  admit-Sound c = Sound-if (contains (label (name_of c)) h.disabled_commands) _ _ w (
      Sound-if (is_listening h.pub_sub connection && not (is_subscription c)) _ _ w
        (transact-Sound c))

  answer-Sound : {P : Type 0} (d : Dec P) → Sound (answer_password d connection h).1
  answer-Sound (yes p) = record { store_valid = w.store_valid; short = w.short }
  answer-Sound (no p) = w

  log_in-Sound : (pass : Text) (o : Option Text) → Sound (log_in pass o connection h).1
  log_in-Sound pass none = w
  log_in-Sound pass (some password) = answer-Sound (Text-discrete password pass)

  check-Sound : (o : Option Text) (c : Command) → Sound (check_auth o c line connection h).1
  unfolding check_auth
  check-Sound none c = admit-Sound c
  check-Sound (some pass) c =
      Sound-if (not (contains connection h.authenticated)) _ _ (log_in-Sound pass (password_of c))
        (admit-Sound c)

  parsed-Sound : (r : ParseResult) → Sound (handle_parsed r line connection h).1
  unfolding handle_parsed
  parsed-Sound (err message) = w
  parsed-Sound (ok c) = check-Sound h.requirepass c

  -- Every line of every connection, one on which writing the log throws and one that starts a
  -- save or a rewrite included, keeps the store valid and the list of recent lines at 15 or
  -- fewer.
  pub handle_line-Sound : Sound (handle_line line connection h).1
  unfolding handle_line
  handle_line-Sound = parsed-Sound (parse_command line)
