-- ===== src/Protocol/Accepted.antt =====
-- About `parse_command`: the commands that come out of it.
use mini_store.Prelude.{
  ◌≡◌, subst, inl, inr, refl, ite, Option, none, some, List, [], ◌∷◌, Text, Text-discrete,
  Option-cases,
}
use mini_store.Protocol.Command.{codes, Command, ParseResult, ok, err}
use mini_store.Protocol.Tokens.{to_upper_case, tokens}
use mini_store.Protocol.Numbers.{parse_positive_int, parse_signed_int}
use mini_store.Protocol.Decimal.{parse_positive_int-bounds, parse_signed_int-bounds}
use mini_store.Protocol.Parser
use mini_store.Protocol.Parser.{
  Name, switch, labels, parse_args, parse_tokens, parse_command, dispatch,
}
use mini_store.Protocol.Rendering.{InRange}

-- The range of what was parsed, where a command was.
abbrev pub Accepts : ParseResult → Type 0
Accepts (ok c) = InRange c
Accepts (err message) = Unit

one_key-Accepts :
    (name : Text) (make : Text → Command)
    → ((key : Text) → InRange (make key))
    → (args : List Text) → Accepts (Parser.one_key name make args)
one_key-Accepts name make h [] = tt
one_key-Accepts name make h (key ∷ []) = h key
one_key-Accepts name make h (key ∷ x ∷ args) = tt

alone-Accepts :
    (name : Text) (c : Command)
    → InRange c
    → (args : List Text) → Accepts (Parser.alone name c args)
alone-Accepts name c h [] = h
alone-Accepts name c h (x ∷ args) = tt

many-Accepts :
    (name : Text) (make : Text → List Text → Command)
    → ((key v : Text) (vs : List Text) → InRange (make key (v ∷ vs)))
    → (args : List Text) → Accepts (Parser.many name make args)
many-Accepts name make h [] = tt
many-Accepts name make h (key ∷ []) = tt
many-Accepts name make h (key ∷ v ∷ vs) = h key v vs

ite-Accepts :
    {P : Type 0} (d : Dec P) (x y : ParseResult) → Accepts x → Accepts y → Accepts (ite d x y)
ite-Accepts (yes p) x y hx hy = hx
ite-Accepts (no p) x y hx hy = hy

with_ttl-Accepts :
    (key value seconds : Text) → Accepts (Parser.with_ttl key value (parse_positive_int seconds))
with_ttl-Accepts key value seconds = elim (Option-cases (parse_positive_int seconds)) [
  | inl refused ↦ rw refused tt
  | inr (n, e) ↦ rw e (parse_positive_int-bounds seconds n e)
]

set-Accepts : (args : List Text) → Accepts (Parser.parse_set args)
unfolding Parser.parse_set
set-Accepts [] = tt
set-Accepts (key ∷ []) = tt
set-Accepts (key ∷ value ∷ []) = tt
set-Accepts (key ∷ value ∷ ex ∷ []) = tt
set-Accepts (key ∷ value ∷ ex ∷ seconds ∷ x ∷ args) = tt
set-Accepts (key ∷ value ∷ ex ∷ seconds ∷ []) =
    ite-Accepts (Text-discrete (to_upper_case ex) (codes "EX")) _ _
      (with_ttl-Accepts key value seconds) tt

expire-Accepts : (args : List Text) → Accepts (Parser.parse_expire args)
unfolding Parser.parse_expire
expire-Accepts [] = tt
expire-Accepts (key ∷ []) = tt
expire-Accepts (key ∷ seconds ∷ x ∷ args) = tt
expire-Accepts (key ∷ seconds ∷ []) = elim (Option-cases (parse_positive_int seconds)) [
  | inl refused ↦ rw refused tt
  | inr (n, e) ↦ rw e (parse_positive_int-bounds seconds n e)
]

lrange-Accepts : (args : List Text) → Accepts (Parser.parse_lrange args)
unfolding Parser.parse_lrange
lrange-Accepts [] = tt
lrange-Accepts (key ∷ []) = tt
lrange-Accepts (key ∷ start ∷ []) = tt
lrange-Accepts (key ∷ start ∷ stop ∷ x ∷ args) = tt
lrange-Accepts (key ∷ start ∷ stop ∷ []) = elim (Option-cases (parse_signed_int start)) [
  | inl refused ↦ rw refused tt
  | inr (i, e) ↦ elim (Option-cases (parse_signed_int stop)) [
    | inl refused ↦ rw (e, refused) tt
    | inr (j, f) ↦ rw (e, f) (parse_signed_int-bounds start i e, parse_signed_int-bounds stop j f)
  ]
]

with_pairs-Accepts :
    (key : Text) (o : Option (List (Text × Text))) → Accepts (Parser.with_pairs key o)
with_pairs-Accepts key none = tt
with_pairs-Accepts key (some []) = tt
with_pairs-Accepts key (some (p ∷ ps)) = refl

hset-Accepts : (args : List Text) → Accepts (Parser.parse_hset args)
unfolding Parser.parse_hset
hset-Accepts [] = tt
hset-Accepts (key ∷ args) = with_pairs-Accepts key (Parser.pair_up args)

hget-Accepts : (args : List Text) → Accepts (Parser.parse_hget args)
unfolding Parser.parse_hget
hget-Accepts [] = tt
hget-Accepts (key ∷ []) = tt
hget-Accepts (key ∷ field ∷ []) = tt
hget-Accepts (key ∷ field ∷ x ∷ args) = tt

publish-Accepts : (args : List Text) → Accepts (Parser.parse_publish args)
unfolding Parser.parse_publish
publish-Accepts [] = tt
publish-Accepts (key ∷ []) = tt
publish-Accepts (key ∷ field ∷ []) = tt
publish-Accepts (key ∷ field ∷ x ∷ args) = tt

subscribe-Accepts : (args : List Text) → Accepts (Parser.parse_subscribe args)
unfolding Parser.parse_subscribe
subscribe-Accepts [] = tt
subscribe-Accepts (c ∷ cs) = refl

args-Accepts : (n : Name) (args : List Text) → Accepts (parse_args n args)
unfolding parse_args
args-Accepts Name.get args = one_key-Accepts (codes "get") Command.get (λ key. tt) args
args-Accepts Name.del args = one_key-Accepts (codes "del") Command.del (λ key. tt) args
args-Accepts Name.lpop args = one_key-Accepts (codes "lpop") Command.lpop (λ key. tt) args
args-Accepts Name.exists args = one_key-Accepts (codes "exists") Command.exists (λ key. tt) args
args-Accepts Name.ttl args = one_key-Accepts (codes "ttl") Command.ttl (λ key. tt) args
args-Accepts Name.persist args = one_key-Accepts (codes "persist") Command.persist (λ key. tt) args
args-Accepts Name.keys args = one_key-Accepts (codes "keys") Command.keys (λ key. tt) args
args-Accepts Name.rpop args = one_key-Accepts (codes "rpop") Command.rpop (λ key. tt) args
args-Accepts Name.llen args = one_key-Accepts (codes "llen") Command.llen (λ key. tt) args
args-Accepts Name.hgetall args = one_key-Accepts (codes "hgetall") Command.hgetall (λ key. tt) args
args-Accepts Name.hlen args = one_key-Accepts (codes "hlen") Command.hlen (λ key. tt) args
args-Accepts Name.auth args = one_key-Accepts (codes "auth") Command.auth (λ key. tt) args
args-Accepts Name.bgsave args = alone-Accepts (codes "bgsave") Command.bgsave tt args
args-Accepts Name.bgrewriteaof args =
    alone-Accepts (codes "bgrewriteaof") Command.bgrewriteaof tt args
args-Accepts Name.multi args = alone-Accepts (codes "multi") Command.multi tt args
args-Accepts Name.exec args = alone-Accepts (codes "exec") Command.exec tt args
args-Accepts Name.discard args = alone-Accepts (codes "discard") Command.discard tt args
args-Accepts Name.lpush args = many-Accepts (codes "lpush") Command.lpush (λ key v vs. refl) args
args-Accepts Name.rpush args = many-Accepts (codes "rpush") Command.rpush (λ key v vs. refl) args
args-Accepts Name.hdel args = many-Accepts (codes "hdel") Command.hdel (λ key v vs. refl) args
args-Accepts Name.set args = set-Accepts args
args-Accepts Name.expire args = expire-Accepts args
args-Accepts Name.lrange args = lrange-Accepts args
args-Accepts Name.hset args = hset-Accepts args
args-Accepts Name.hget args = hget-Accepts args
args-Accepts Name.publish args = publish-Accepts args
args-Accepts Name.subscribe args = subscribe-Accepts args
args-Accepts Name.unsubscribe args = tt

dispatch-Accepts :
    (word : Text) (n : Option Name) (args : List Text) → Accepts (dispatch word n args)
dispatch-Accepts word none args = tt
dispatch-Accepts word (some n) args = args-Accepts n args

tokens-Accepts : (ws : List Text) → Accepts (parse_tokens ws)
unfolding parse_tokens
tokens-Accepts [] = tt
tokens-Accepts (word ∷ args) = dispatch-Accepts word (switch labels (to_upper_case word)) args

-- A command that the parser accepts is in range: a TTL lies between 1 and 9999999999 seconds, an
-- index is a safe integer, and pushes, HSET, HDEL and SUBSCRIBE have something to work on.
pub parse_command-InRange : (line : Text) (c : Command) → parse_command line ≡ ok c → InRange c
unfolding parse_command
parse_command-InRange line c h = subst Accepts h (tokens-Accepts (tokens line))
