-- ===== src/Handler/Guards.antt =====
-- What keeps a line from having an effect: authentication, and an open transaction.
use mini_store.Prelude.{
  ◌≡◌, ◌≢◌, ◌∙◌, refl, ap, Bool, true, false, not, ◌&&◌, Option, none, some, List, arith,
  if◌then◌else◌, Text, Text-discrete, text_keyed, ref_keyed, contains,
}
use mini_store.JsMap
use mini_store.PubSub.{Connection}
use mini_store.Protocol.Command.{Command, ParseResult, ok, err}
use mini_store.Protocol.Parser.{parse_command}
use mini_store.Protocol.Rendering.{label, name_of}
use mini_store.Handler.{CommandHandler}
use mini_store.Handler.Lines.{
  begin, discard_queue, queue_or_execute, transact, is_subscription, is_listening, admit, log_in,
  answer_password, password_of, check_auth, handle_parsed, handle_line,
}

-- The password that a line gives, if it is an AUTH.
abbrev pub credentials : ParseResult → Option Text
credentials (ok c) = password_of c
credentials (err message) = none

abbrev pub is_exec : ParseResult → Bool
is_exec (ok Command.exec) = true
is_exec _ = false

answer-refuses :
    {P : Type 0} (d : Dec P) (c : Connection) (h : CommandHandler)
    → ¬ P
    → (answer_password d c h).1 ≡ h
answer-refuses (yes p) c h wrong = absurd (wrong p)
answer-refuses (no p) c h wrong = refl

log_in-refuses :
    (pass : Text) (o : Option Text) (c : Connection) (h : CommandHandler)
    → o ≢ some pass
    → (log_in pass o c h).1 ≡ h
log_in-refuses pass none c h wrong = refl
log_in-refuses pass (some password) c h wrong =
    answer-refuses (Text-discrete password pass) c h (λ same. wrong (ap some same))

parsed-refuses :
    (r : ParseResult) (line : Text) (c : Connection) (h : CommandHandler) (pass : Text)
    → h.requirepass ≡ some pass
    → contains c h.authenticated ≡ false
    → credentials r ≢ some pass
    → (handle_parsed r line c h).1 ≡ h
unfolding handle_parsed check_auth
parsed-refuses (err message) line c h pass required unknown wrong = refl
parsed-refuses (ok command) line c h pass required unknown wrong =
    ap (λ (o : Option Text). (check_auth o command line c h).1) required
    ∙ ap
        (λ (b : Bool).
          (if not b then log_in pass (password_of command) c h else admit command line c h).1)
        unknown
    ∙ log_in-refuses pass (password_of command) c h wrong

-- Where a password is required and the connection has not given it, a line that is not an AUTH
-- with that password changes nothing: not the store, not the log, not the subscriptions or
-- transactions.
pub handle_line-unauthenticated :
    (line : Text) (c : Connection) (h : CommandHandler) (pass : Text)
    → h.requirepass ≡ some pass
    → contains c h.authenticated ≡ false
    → credentials (parse_command line) ≢ some pass
    → (handle_line line c h).1 ≡ h
unfolding handle_line
handle_line-unauthenticated line c h pass required unknown wrong =
    parsed-refuses (parse_command line) line c h pass required unknown wrong

store-if :
    (b : Bool) (x y : Option Text × CommandHandler) (h : CommandHandler)
    → x.1.store ≡ h.store
    → y.1.store ≡ h.store
    → (if b then x else y).1.store ≡ h.store
store-if true x y h ex ey = ex
store-if false x y h ex ey = ey

module _ (line : Text) (c : Connection) (h : CommandHandler) (queue : List (Text × Command))
    (open_queue : JsMap.get h.transactions c ≡ some queue) where
  begin-store : (b : Bool) → (begin b c h).1.store ≡ h.store
  begin-store true = refl
  begin-store false = refl

  discard-store : (b : Bool) → (discard_queue b c h).1.store ≡ h.store
  discard-store true = refl
  discard-store false = refl

  queue-store :
      (command : Command)
      → (queue_or_execute (JsMap.get h.transactions c) command line c h).1.store ≡ h.store
  unfolding queue_or_execute
  queue-store command =
      ap (λ (o : Option (List (Text × Command))). (queue_or_execute o command line c h).1.store)
        open_queue

  transact-store :
      (command : Command)
      → is_exec (ok command) ≡ false
      → (transact command line c h).1.store ≡ h.store
  unfolding transact
  transact-store Command.exec e = absurd (ground arith)
  transact-store (Command.set key v ttl) e = queue-store (Command.set key v ttl)
  transact-store (Command.get key) e = queue-store (Command.get key)
  transact-store (Command.del key) e = queue-store (Command.del key)
  transact-store (Command.expire key seconds) e = queue-store (Command.expire key seconds)
  transact-store (Command.lpush key values) e = queue-store (Command.lpush key values)
  transact-store (Command.rpush key values) e = queue-store (Command.rpush key values)
  transact-store (Command.lpop key) e = queue-store (Command.lpop key)
  transact-store (Command.rpop key) e = queue-store (Command.rpop key)
  transact-store (Command.hset key pairs) e = queue-store (Command.hset key pairs)
  transact-store (Command.hdel key fields) e = queue-store (Command.hdel key fields)
  transact-store (Command.persist key) e = queue-store (Command.persist key)
  transact-store (Command.lrange key start stop) e = queue-store (Command.lrange key start stop)
  transact-store (Command.hget key field) e = queue-store (Command.hget key field)
  transact-store (Command.exists key) e = queue-store (Command.exists key)
  transact-store (Command.ttl key) e = queue-store (Command.ttl key)
  transact-store (Command.keys pattern) e = queue-store (Command.keys pattern)
  transact-store (Command.llen key) e = queue-store (Command.llen key)
  transact-store (Command.hgetall key) e = queue-store (Command.hgetall key)
  transact-store (Command.hlen key) e = queue-store (Command.hlen key)
  transact-store (Command.subscribe channels) e = queue-store (Command.subscribe channels)
  transact-store (Command.unsubscribe channels) e = queue-store (Command.unsubscribe channels)
  transact-store (Command.publish channel message) e = queue-store (Command.publish channel message)
  transact-store (Command.auth password) e = queue-store (Command.auth password)
  transact-store Command.bgsave e = queue-store Command.bgsave
  transact-store Command.bgrewriteaof e = queue-store Command.bgrewriteaof
  transact-store Command.multi e = begin-store (JsMap.has h.transactions c)
  transact-store Command.discard e = discard-store (JsMap.has h.transactions c)

  admit-store :
      (command : Command)
      → is_exec (ok command) ≡ false
      → (admit command line c h).1.store ≡ h.store
  unfolding admit
  admit-store command e =
      store-if (contains (label (name_of command)) h.disabled_commands) _ _ h refl (
        store-if (is_listening h.pub_sub c && not (is_subscription command)) _ _ h refl
          (transact-store command e))

  answer-store : {P : Type 0} (d : Dec P) → (answer_password d c h).1.store ≡ h.store
  answer-store (yes p) = refl
  answer-store (no p) = refl

  log_in-store : (pass : Text) (o : Option Text) → (log_in pass o c h).1.store ≡ h.store
  log_in-store pass none = refl
  log_in-store pass (some password) = answer-store (Text-discrete password pass)

  check-store :
      (o : Option Text) (command : Command)
      → is_exec (ok command) ≡ false
      → (check_auth o command line c h).1.store ≡ h.store
  unfolding check_auth
  check-store none command e = admit-store command e
  check-store (some pass) command e =
      store-if (not (contains c h.authenticated)) _ _ h (log_in-store pass (password_of command))
        (admit-store command e)

  parsed-store :
      (r : ParseResult) → is_exec r ≡ false → (handle_parsed r line c h).1.store ≡ h.store
  unfolding handle_parsed
  parsed-store (err message) e = refl
  parsed-store (ok command) e = check-store h.requirepass command e

  -- While a connection has an open transaction, no line of it changes the store, but for EXEC.
  pub handle_line-queued :
      is_exec (parse_command line) ≡ false → (handle_line line c h).1.store ≡ h.store
  unfolding handle_line
  handle_line-queued e = parsed-store (parse_command line) e
