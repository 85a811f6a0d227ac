-- ===== src/Protocol/Command.antt =====
-- Protocol commands (protocol/src/Command.ts). The field `name` of a command is its constructor.
use Prim.Native.Char.{code}
use Prim.Native.String.{String}
use mini_store.Prelude.{ℕ, Option, List, [], ◌∷◌, ℤ, Text}

-- The code units of an ASCII text.
abbrev pub codes : String → Text
codes String.[] = []
codes (String.◌∷◌ c s) = code c ∷ codes s

pub data Command : Type 0 where
  set : (key value : Text) → (ttl_seconds : Option ℕ) → Command
  get del lpop exists ttl persist keys rpop llen hgetall hlen : Text → Command
  expire : (key : Text) → (seconds : ℕ) → Command
  lpush rpush : (key : Text) → (values : List Text) → Command
  lrange : (key : Text) → (start stop : ℤ) → Command
  hset : (key : Text) → (pairs : List (Text × Text)) → Command
  hget : (key field : Text) → Command
  hdel : (key : Text) → (fields : List Text) → Command
  bgsave bgrewriteaof multi exec discard : Command
  subscribe unsubscribe : (channels : List Text) → Command
  publish : (channel message : Text) → Command
  auth : (password : Text) → Command

pub data ParseResult : Type 0 where
  ok : Command → ParseResult
  err : (message : Text) → ParseResult
