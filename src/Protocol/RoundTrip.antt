-- ===== src/Protocol/RoundTrip.antt =====
-- About `parse_command`: the canonical line of a command.
use mini_store.Protocol.Tokens.{is_space, to_upper_case}
use mini_store.Protocol.Words.{unbroken, is_word, all_words, tokens-join}
use mini_store.Prelude.{
  ◌≡◌, ◌∙◌, refl, ap, true, Option, none, some, List, [], ◌∷◌, arith, Text, Text-discrete,
  ℕ_discrete,
}
use mini_store.Protocol.Decimal.{parse_positive_int-decimal, parse_signed_int-decimal}
use mini_store.Protocol.Numbers.{parse_positive_int}
use mini_store.Protocol.Command.{Command, ok}
use mini_store.Protocol.Parser.{
  Name, switch, labels, parse_args, parse_tokens, parse_command, dispatch, parse_set, parse_expire,
  parse_lrange, parse_hset, pair_up, parse_hget, parse_subscribe, parse_publish, with_pairs,
  with_ttl, with_seconds,
}
use mini_store.Protocol.Rendering.{flatten, name_of, label, args_of, render, InRange}

recognised : (n : Name) → switch labels (to_upper_case (label n)) ≡ some n
unfolding switch to_upper_case Text-discrete ℕ_discrete
recognised Name.set = refl
recognised Name.get = refl
recognised Name.del = refl
recognised Name.expire = refl
recognised Name.lpush = refl
recognised Name.lpop = refl
recognised Name.lrange = refl
recognised Name.hset = refl
recognised Name.hget = refl
recognised Name.exists = refl
recognised Name.ttl = refl
recognised Name.persist = refl
recognised Name.keys = refl
recognised Name.rpush = refl
recognised Name.rpop = refl
recognised Name.llen = refl
recognised Name.hdel = refl
recognised Name.hgetall = refl
recognised Name.hlen = refl
recognised Name.bgsave = refl
recognised Name.bgrewriteaof = refl
recognised Name.subscribe = refl
recognised Name.unsubscribe = refl
recognised Name.publish = refl
recognised Name.multi = refl
recognised Name.exec = refl
recognised Name.discard = refl
recognised Name.auth = refl

pair_up-flatten : (pairs : List (Text × Text)) → pair_up (flatten pairs) ≡ some pairs
unfolding pair_up flatten
pair_up-flatten [] = refl
pair_up-flatten ((field, value) ∷ pairs) = rw (pair_up-flatten pairs) refl

-- What the switch does with the arguments of a command.
parse_args-args_of : (c : Command) → InRange c → parse_args (name_of c) (args_of c) ≡ ok c
unfolding parse_args args_of parse_set parse_expire parse_lrange parse_hset parse_hget
    parse_subscribe parse_publish to_upper_case Text-discrete ℕ_discrete parse_positive_int
parse_args-args_of (Command.set key value none) h = refl
parse_args-args_of (Command.set key value (some seconds)) h =
    ap (with_ttl key value) (parse_positive_int-decimal seconds h.0 h.1)
parse_args-args_of (Command.expire key seconds) h =
    ap (with_seconds key) (parse_positive_int-decimal seconds h.0 h.1)
parse_args-args_of (Command.lrange key start stop) h =
    rw (parse_signed_int-decimal start h.0, parse_signed_int-decimal stop h.1) refl
parse_args-args_of (Command.hset key []) h = absurd (ground arith)
parse_args-args_of (Command.hset key (p ∷ pairs)) h =
    ap (with_pairs key) (pair_up-flatten (p ∷ pairs))
parse_args-args_of (Command.lpush key []) h = absurd (ground arith)
parse_args-args_of (Command.lpush key (v ∷ values)) h = refl
parse_args-args_of (Command.rpush key []) h = absurd (ground arith)
parse_args-args_of (Command.rpush key (v ∷ values)) h = refl
parse_args-args_of (Command.hdel key []) h = absurd (ground arith)
parse_args-args_of (Command.hdel key (f ∷ fields)) h = refl
parse_args-args_of (Command.subscribe []) h = absurd (ground arith)
parse_args-args_of (Command.subscribe (c ∷ channels)) h = refl
parse_args-args_of (Command.unsubscribe channels) h = refl
parse_args-args_of (Command.hget key field) h = refl
parse_args-args_of (Command.publish channel message) h = refl
parse_args-args_of (Command.get key) h = refl
parse_args-args_of (Command.del key) h = refl
parse_args-args_of (Command.lpop key) h = refl
parse_args-args_of (Command.exists key) h = refl
parse_args-args_of (Command.ttl key) h = refl
parse_args-args_of (Command.persist key) h = refl
parse_args-args_of (Command.keys key) h = refl
parse_args-args_of (Command.rpop key) h = refl
parse_args-args_of (Command.llen key) h = refl
parse_args-args_of (Command.hgetall key) h = refl
parse_args-args_of (Command.hlen key) h = refl
parse_args-args_of (Command.auth key) h = refl
parse_args-args_of Command.bgsave h = refl
parse_args-args_of Command.bgrewriteaof h = refl
parse_args-args_of Command.multi h = refl
parse_args-args_of Command.exec h = refl
parse_args-args_of Command.discard h = refl

label-word : (n : Name) → is_word (label n) ≡ true
unfolding is_word unbroken is_space
label-word Name.set = refl
label-word Name.get = refl
label-word Name.del = refl
label-word Name.expire = refl
label-word Name.lpush = refl
label-word Name.lpop = refl
label-word Name.lrange = refl
label-word Name.hset = refl
label-word Name.hget = refl
label-word Name.exists = refl
label-word Name.ttl = refl
label-word Name.persist = refl
label-word Name.keys = refl
label-word Name.rpush = refl
label-word Name.rpop = refl
label-word Name.llen = refl
label-word Name.hdel = refl
label-word Name.hgetall = refl
label-word Name.hlen = refl
label-word Name.bgsave = refl
label-word Name.bgrewriteaof = refl
label-word Name.subscribe = refl
label-word Name.unsubscribe = refl
label-word Name.publish = refl
label-word Name.multi = refl
label-word Name.exec = refl
label-word Name.discard = refl
label-word Name.auth = refl

-- The line made of the canonical words of a command parses back to that command, for each of the
-- 28 commands, if its keys and values are words (characters, none of them white space) and its
-- numbers and counts are in the range the protocol asks for.
pub parse_command-render :
    (c : Command) → InRange c → all_words (args_of c) ≡ true → parse_command (render c) ≡ ok c
unfolding parse_command parse_tokens render all_words
parse_command-render c h w =
    ap parse_tokens
      (tokens-join (label (name_of c)) (args_of c) (ground (arith, label-word (name_of c))))
    ∙ ap (λ (n : Option Name). dispatch (label (name_of c)) n (args_of c)) (recognised (name_of c))
    ∙ parse_args-args_of c h
