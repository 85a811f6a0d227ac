-- ===== src/Protocol/Parser.antt =====
-- `parseCommand` (protocol/src/CommandParser.ts): one line to a command or an error message.
use mini_store.Prelude.{ℕ, ite, Option, none, some, List, [], ◌∷◌, ◌++◌, ℤ, Text, Text-discrete}
use mini_store.Protocol.Command.{codes, Command, ParseResult, ok, err}
use mini_store.Protocol.Tokens.{tokens, to_upper_case}
use mini_store.Protocol.Numbers.{parse_positive_int, parse_signed_int}

pub data Name : Type 0 where
  set get del expire lpush lpop lrange hset hget exists ttl persist keys rpush rpop llen hdel
        hgetall hlen :
      Name
  bgsave bgrewriteaof subscribe unsubscribe publish multi exec discard auth : Name

-- The labels of the switch, in its order.
abbrev pub labels : List (Text × Name)
labels =
    (codes "SET", set)
    ∷ (codes "GET", get)
    ∷ (codes "DEL", del)
    ∷ (codes "EXPIRE", expire)
    ∷ (codes "LPUSH", lpush)
    ∷ (codes "LPOP", lpop)
    ∷ (codes "LRANGE", lrange)
    ∷ (codes "HSET", hset)
    ∷ (codes "HGET", hget)
    ∷ (codes "EXISTS", exists)
    ∷ (codes "TTL", ttl)
    ∷ (codes "PERSIST", persist)
    ∷ (codes "KEYS", keys)
    ∷ (codes "RPUSH", rpush)
    ∷ (codes "RPOP", rpop)
    ∷ (codes "LLEN", llen)
    ∷ (codes "HDEL", hdel)
    ∷ (codes "HGETALL", hgetall)
    ∷ (codes "HLEN", hlen)
    ∷ (codes "BGSAVE", bgsave)
    ∷ (codes "BGREWRITEAOF", bgrewriteaof)
    ∷ (codes "SUBSCRIBE", subscribe)
    ∷ (codes "UNSUBSCRIBE", unsubscribe)
    ∷ (codes "PUBLISH", publish)
    ∷ (codes "MULTI", multi)
    ∷ (codes "EXEC", exec)
    ∷ (codes "DISCARD", discard)
    ∷ (codes "AUTH", auth)
    ∷ []

unfoldable pub switch : List (Text × Name) → Text → Option Name
switch [] word = none
switch ((label, name) ∷ rest) word = ite (Text-discrete label word) (some name) (switch rest word)

abbrev pub arity_error : Text → ParseResult
arity_error command = err (codes "wrong number of arguments for '" ++ command ++ codes "' command")

-- The commands that take a key and nothing else, or nothing at all.
abbrev pub one_key : Text → (Text → Command) → List Text → ParseResult
one_key name make (key ∷ []) = ok (make key)
one_key name make _ = arity_error name

abbrev pub alone : Text → Command → List Text → ParseResult
alone name command [] = ok command
alone name command _ = arity_error name

-- A key and one or more values.
abbrev pub many : Text → (Text → List Text → Command) → List Text → ParseResult
many name make (key ∷ value ∷ values) = ok (make key (value ∷ values))
many name make _ = arity_error name

abbrev pub with_ttl : Text → Text → Option ℕ → ParseResult
with_ttl key value none = err (codes "EX seconds must be a positive integer")
with_ttl key value (some seconds) = ok (Command.set key value (some seconds))

unfoldable pub parse_set : List Text → ParseResult
parse_set (key ∷ value ∷ []) = ok (Command.set key value none)
parse_set (key ∷ value ∷ ex ∷ seconds ∷ []) =
    ite (Text-discrete (to_upper_case ex) (codes "EX"))
      (with_ttl key value (parse_positive_int seconds))
      (err (codes "syntax error near '" ++ ex ++ codes "' (expected EX)"))
parse_set _ = arity_error (codes "set")

abbrev pub with_seconds : Text → Option ℕ → ParseResult
with_seconds key none = err (codes "seconds must be a positive integer")
with_seconds key (some seconds) = ok (Command.expire key seconds)

unfoldable pub parse_expire : List Text → ParseResult
parse_expire (key ∷ seconds ∷ []) = with_seconds key (parse_positive_int seconds)
parse_expire _ = arity_error (codes "expire")

abbrev pub with_bounds : Text → Option ℤ → Option ℤ → ParseResult
with_bounds key (some start) (some stop) = ok (Command.lrange key start stop)
with_bounds key _ _ = err (codes "start and stop must be integers")

unfoldable pub parse_lrange : List Text → ParseResult
parse_lrange (key ∷ start ∷ stop ∷ []) =
    with_bounds key (parse_signed_int start) (parse_signed_int stop)
parse_lrange _ = arity_error (codes "lrange")

-- The loop of `parseHset` over an even number of words, `none` for an odd one.
unfoldable pub pair_up : List Text → Option (List (Text × Text))
pair_up [] = some []
pair_up (field ∷ []) = none
pair_up (field ∷ value ∷ rest) = elim (pair_up rest) [
  | none ↦ none
  | some pairs ↦ some ((field, value) ∷ pairs)
]

abbrev pub with_pairs : Text → Option (List (Text × Text)) → ParseResult
with_pairs key none = arity_error (codes "hset")
with_pairs key (some []) = arity_error (codes "hset")
with_pairs key (some (p ∷ pairs)) = ok (Command.hset key (p ∷ pairs))

unfoldable pub parse_hset : List Text → ParseResult
unfolding pair_up
parse_hset [] = arity_error (codes "hset")
parse_hset (key ∷ rest) = with_pairs key (pair_up rest)

unfoldable pub parse_hget : List Text → ParseResult
parse_hget (key ∷ field ∷ []) = ok (Command.hget key field)
parse_hget _ = arity_error (codes "hget")

unfoldable pub parse_subscribe : List Text → ParseResult
parse_subscribe [] = arity_error (codes "subscribe")
parse_subscribe (channel ∷ channels) = ok (Command.subscribe (channel ∷ channels))

unfoldable pub parse_publish : List Text → ParseResult
parse_publish (channel ∷ message ∷ []) = ok (Command.publish channel message)
parse_publish _ = arity_error (codes "publish")

-- The branch of the switch for a label, on the words behind the name.
unfoldable pub parse_args : Name → List Text → ParseResult
unfolding parse_set parse_expire parse_lrange parse_hset parse_hget parse_subscribe parse_publish
parse_args set args = parse_set args
parse_args get args = one_key (codes "get") Command.get args
parse_args del args = one_key (codes "del") Command.del args
parse_args expire args = parse_expire args
parse_args lpush args = many (codes "lpush") Command.lpush args
parse_args lpop args = one_key (codes "lpop") Command.lpop args
parse_args lrange args = parse_lrange args
parse_args hset args = parse_hset args
parse_args hget args = parse_hget args
parse_args exists args = one_key (codes "exists") Command.exists args
parse_args ttl args = one_key (codes "ttl") Command.ttl args
parse_args persist args = one_key (codes "persist") Command.persist args
parse_args keys args = one_key (codes "keys") Command.keys args
parse_args rpush args = many (codes "rpush") Command.rpush args
parse_args rpop args = one_key (codes "rpop") Command.rpop args
parse_args llen args = one_key (codes "llen") Command.llen args
parse_args hdel args = many (codes "hdel") Command.hdel args
parse_args hgetall args = one_key (codes "hgetall") Command.hgetall args
parse_args hlen args = one_key (codes "hlen") Command.hlen args
parse_args bgsave args = alone (codes "bgsave") Command.bgsave args
parse_args bgrewriteaof args = alone (codes "bgrewriteaof") Command.bgrewriteaof args
parse_args subscribe args = parse_subscribe args
parse_args unsubscribe args = ok (Command.unsubscribe args)
parse_args publish args = parse_publish args
parse_args multi args = alone (codes "multi") Command.multi args
parse_args exec args = alone (codes "exec") Command.exec args
parse_args discard args = alone (codes "discard") Command.discard args
parse_args auth args = one_key (codes "auth") Command.auth args

abbrev pub dispatch : Text → Option Name → List Text → ParseResult
dispatch word none args = err (codes "unknown command '" ++ word ++ codes "'")
dispatch word (some name) args = parse_args name args

unfoldable pub parse_tokens : List Text → ParseResult
unfolding switch parse_args
parse_tokens [] = err (codes "empty command")
parse_tokens (word ∷ args) = dispatch word (switch labels (to_upper_case word)) args

unfoldable pub parse_command : Text → ParseResult
unfolding parse_tokens
parse_command line = parse_tokens (tokens line)
