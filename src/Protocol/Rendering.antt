-- ===== src/Protocol/Rendering.antt =====
-- The canonical words and the canonical line of a command, against which the parser is judged.
use mini_store.Prelude.{
  ℕ, ◌<◌, ◌≤◌, ◌≡◌, Bool, true, false, Option, none, some, List, [], ◌∷◌, Text,
}
use mini_store.Protocol.Command.{codes, Command}
use mini_store.Protocol.Words.{join}
use mini_store.Protocol.Numbers.{max_ttl_seconds, max_safe_integer}
use mini_store.Protocol.Decimal.{decimal, decimal_ℤ, magnitude}
use mini_store.Protocol.Parser.{Name}

-- Fields and values in turn.
unfoldable pub flatten : List (Text × Text) → List Text
flatten [] = []
flatten ((field, value) ∷ pairs) = field ∷ value ∷ flatten pairs

abbrev pub ttl_words : Option ℕ → List Text
ttl_words none = []
ttl_words (some seconds) = codes "EX" ∷ decimal seconds ∷ []

abbrev pub name_of : Command → Name
name_of (Command.set key value ttl) = Name.set
name_of (Command.get key) = Name.get
name_of (Command.del key) = Name.del
name_of (Command.lpop key) = Name.lpop
name_of (Command.exists key) = Name.exists
name_of (Command.ttl key) = Name.ttl
name_of (Command.persist key) = Name.persist
name_of (Command.keys pattern) = Name.keys
name_of (Command.rpop key) = Name.rpop
name_of (Command.llen key) = Name.llen
name_of (Command.hgetall key) = Name.hgetall
name_of (Command.hlen key) = Name.hlen
name_of (Command.expire key seconds) = Name.expire
name_of (Command.lpush key values) = Name.lpush
name_of (Command.rpush key values) = Name.rpush
name_of (Command.lrange key start stop) = Name.lrange
name_of (Command.hset key pairs) = Name.hset
name_of (Command.hget key field) = Name.hget
name_of (Command.hdel key fields) = Name.hdel
name_of Command.bgsave = Name.bgsave
name_of Command.bgrewriteaof = Name.bgrewriteaof
name_of Command.multi = Name.multi
name_of Command.exec = Name.exec
name_of Command.discard = Name.discard
name_of (Command.subscribe channels) = Name.subscribe
name_of (Command.unsubscribe channels) = Name.unsubscribe
name_of (Command.publish channel message) = Name.publish
name_of (Command.auth password) = Name.auth

-- The first label of the switch for a name.
abbrev pub label : Name → Text
label Name.set = codes "SET"
label Name.get = codes "GET"
label Name.del = codes "DEL"
label Name.expire = codes "EXPIRE"
label Name.lpush = codes "LPUSH"
label Name.lpop = codes "LPOP"
label Name.lrange = codes "LRANGE"
label Name.hset = codes "HSET"
label Name.hget = codes "HGET"
label Name.exists = codes "EXISTS"
label Name.ttl = codes "TTL"
label Name.persist = codes "PERSIST"
label Name.keys = codes "KEYS"
label Name.rpush = codes "RPUSH"
label Name.rpop = codes "RPOP"
label Name.llen = codes "LLEN"
label Name.hdel = codes "HDEL"
label Name.hgetall = codes "HGETALL"
label Name.hlen = codes "HLEN"
label Name.bgsave = codes "BGSAVE"
label Name.bgrewriteaof = codes "BGREWRITEAOF"
label Name.subscribe = codes "SUBSCRIBE"
label Name.unsubscribe = codes "UNSUBSCRIBE"
label Name.publish = codes "PUBLISH"
label Name.multi = codes "MULTI"
label Name.exec = codes "EXEC"
label Name.discard = codes "DISCARD"
label Name.auth = codes "AUTH"

unfoldable pub args_of : Command → List Text
unfolding flatten
args_of (Command.set key value ttl) = key ∷ value ∷ ttl_words ttl
args_of (Command.get key) = key ∷ []
args_of (Command.del key) = key ∷ []
args_of (Command.lpop key) = key ∷ []
args_of (Command.exists key) = key ∷ []
args_of (Command.ttl key) = key ∷ []
args_of (Command.persist key) = key ∷ []
args_of (Command.keys pattern) = pattern ∷ []
args_of (Command.rpop key) = key ∷ []
args_of (Command.llen key) = key ∷ []
args_of (Command.hgetall key) = key ∷ []
args_of (Command.hlen key) = key ∷ []
args_of (Command.expire key seconds) = key ∷ decimal seconds ∷ []
args_of (Command.lpush key values) = key ∷ values
args_of (Command.rpush key values) = key ∷ values
args_of (Command.lrange key start stop) = key ∷ decimal_ℤ start ∷ decimal_ℤ stop ∷ []
args_of (Command.hset key pairs) = key ∷ flatten pairs
args_of (Command.hget key field) = key ∷ field ∷ []
args_of (Command.hdel key fields) = key ∷ fields
args_of Command.bgsave = []
args_of Command.bgrewriteaof = []
args_of Command.multi = []
args_of Command.exec = []
args_of Command.discard = []
args_of (Command.subscribe channels) = channels
args_of (Command.unsubscribe channels) = channels
args_of (Command.publish channel message) = channel ∷ message ∷ []
args_of (Command.auth password) = password ∷ []

unfoldable pub render : Command → Text
unfolding args_of
render c = join (label (name_of c) ∷ args_of c)

abbrev pub some_words : List Text → Bool
some_words [] = false
some_words (w ∷ ws) = true

abbrev pub some_pairs : List (Text × Text) → Bool
some_pairs [] = false
some_pairs (p ∷ ps) = true

abbrev pub TtlInRange : Option ℕ → Type 0
TtlInRange none = Unit
TtlInRange (some seconds) = (0 < seconds) × (seconds ≤ max_ttl_seconds)

-- The numbers of a command are in range, and where the protocol asks for one word or more, it has one.
abbrev pub InRange : Command → Type 0
InRange (Command.set key value ttl) = TtlInRange ttl
InRange (Command.expire key seconds) = (0 < seconds) × (seconds ≤ max_ttl_seconds)
InRange (Command.lrange key start stop) =
    (magnitude start ≤ max_safe_integer) × (magnitude stop ≤ max_safe_integer)
InRange (Command.lpush key values) = some_words values ≡ true
InRange (Command.rpush key values) = some_words values ≡ true
InRange (Command.hdel key fields) = some_words fields ≡ true
InRange (Command.hset key pairs) = some_pairs pairs ≡ true
InRange (Command.subscribe channels) = some_words channels ≡ true
InRange _ = Unit
