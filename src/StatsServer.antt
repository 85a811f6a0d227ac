-- ===== src/StatsServer.antt =====
-- `StatsServer` (store-engine/src/server/StatsServer.ts): who may connect, the playground's rate limit,
-- the snapshot of the store and its broadcast. The parameters are the handler of lines, which the
-- source injects, and `parse_url`, the class `URL` of the platform: path and token, `none` if it throws.
pub mod RateLimit
use mini_store.Prelude.{
  ℕ, zero, suc, ◌+◌, Bool, true, false, Option, none, some, is_some, List, [], ◌∷◌, ◌++◌, map,
  length, ltb, if◌then◌else◌, ite, ℤ, Text, Text-discrete, text_keyed,
}
use mini_store.JsMap
use mini_store.Lru.{Ref}
use mini_store.Protocol.Command.{codes}
use mini_store.Protocol.Tokens.{trim}
use mini_store.TcpServer.{Outcome, reply, silent, thrown}
use mini_store.Store.{InMemoryStore, ValueType, expire_if_needed}
use mini_store.Store.Strings

pub data Upgrade : Type 0 where
  unauthorized to_playground to_stats : Upgrade

-- The path and the token of a request.
unfoldable pub target : (Text → Option (Text × Text)) → Option Text → Option Text × Text
target parse_url none = (none, [])
target parse_url (some url) = from (parse_url url)
  where
    from : Option (Text × Text) → Option Text × Text
    from none = (some url, [])
    from (some (pathname, token)) = (some pathname, token)

abbrev pub route : Option Text → Upgrade
route none = to_stats
route (some pathname) = ite (Text-discrete pathname (codes "/playground")) to_playground to_stats

abbrev pub admits : Option Text → Text → Bool
admits none token = true
admits (some password) token = ite (Text-discrete token password) true false

-- The `upgrade` handler.
unfoldable pub upgrade :
    (Text → Option (Text × Text)) → (dashboard_password url : Option Text) → Upgrade
unfolding target
upgrade parse_url dashboard_password url =
    let (pathname, token) = target parse_url url in
    if admits dashboard_password token then route pathname else unauthorized

-- The closure of one playground connection; `crashed` is an error thrown out of the listener.
pub record Playground (S : Type 0) : Type 0 where
  pub command_count : ℕ
  pub last_time : ℕ
  pub sent : List Text
  pub crashed : Bool
  pub handler : S

abbrev pub max_commands : ℕ
max_commands = 20

module _ {S : Type 0} where
  abbrev pub connect : (now : ℕ) → S → Playground S
  connect now h = record {
    command_count = 0;
    last_time = now;
    sent = [];
    crashed = false;
    handler = h;
  }

  abbrev pub send : Text → Playground S → Playground S
  send t p = record p { sent = p.sent ++ t ∷ [] }

  abbrev pub answer : Outcome × S → Playground S → Playground S
  answer (reply t, h) p = send t (record p { handler = h })
  answer (silent, h) p = record p { handler = h }
  answer (thrown, h) p = record p { handler = h; crashed = true }

  -- A new second is begun, or not, and the command is counted.
  unfoldable pub count : (now : ℕ) → Playground S → Playground S
  count now p =
      if ltb (p.last_time + 1000) now
      then record p { command_count = 1; last_time = now }
      else record p { command_count = p.command_count + 1 }

module _ {S : Type 0} (handle_line : Text → S → Outcome × S) where
  abbrev pub handle_if_any : Text → Playground S → Playground S
  handle_if_any [] p = p
  handle_if_any (c ∷ line) p = answer (handle_line (c ∷ line) p.handler) p

  unfoldable pub admitted : Text → Playground S → Playground S
  admitted message p =
      let line = trim message in
      if ltb max_commands p.command_count
      then send (codes "-ERR rate limit exceeded\r\n") p
      else if ltb 1024 (length line)
      then send (codes "-ERR command too long\r\n") p
      else handle_if_any line p

  -- The `message` handler; `configured` is whether there is a command handler.
  unfoldable pub on_message : (configured : Bool) → (now : ℕ) → Text → Playground S → Playground S
  unfolding count admitted
  on_message configured now message p =
      if configured
      then admitted message (count now p)
      else send (codes "-ERR playground not configured\r\n") p

  -- Messages, each at its time.
  unfoldable pub on_messages : List (ℕ × Text) → Playground S → Playground S
  unfolding on_message
  on_messages [] p = p
  on_messages ((now, message) ∷ messages) p = on_messages messages (on_message true now message p)

pub record KeyInfo : Type 0 where
  pub name : Text
  pub type : ValueType
  pub ttl : ℤ

pub record Snapshot : Type 0 where
  pub size : ℕ
  pub max_keys : ℕ
  pub evictions : ℕ
  pub keys : List KeyInfo
  pub recent_activity : List Text

abbrev pub push_if_typed : Text → Option ValueType → ℤ → List KeyInfo → List KeyInfo
push_if_typed key none ttl infos = infos
push_if_typed key (some type) ttl infos =
    infos ++ record { name = key; type = type; ttl = ttl } ∷ []

-- The body of the loop over `keysMRU`, which probes the key where the generator stands.
unfoldable pub describe : Text → List KeyInfo → InMemoryStore → List KeyInfo × InMemoryStore
describe key infos s =
    let (type, s1) = Strings.key_type key s in
    let (ttl, s2) = Strings.ttl key s1 in (push_if_typed key type ttl infos, s2)

-- The generator's steps with the consumer's in between.
unfoldable pub describe_loop :
    ℕ → Option Ref → List KeyInfo → InMemoryStore → Option (List KeyInfo × InMemoryStore)
unfolding describe
describe_loop fuel none infos s = some (infos, s)
describe_loop zero (some r) infos s = none
describe_loop (suc fuel) (some r) infos s =
    let key = (s.lru.heap r).key in
    let (gone, s') = expire_if_needed key s in
    let (infos', s'') = if gone then (infos, s') else describe key infos s' in
    describe_loop fuel (s''.lru.heap r).next infos' s''

abbrev pub complete :
    List Text → Option (List KeyInfo × InMemoryStore) → Option (Snapshot × InMemoryStore)
complete recent_activity none = none
complete recent_activity (some (infos, s)) = some (
  record {
    size = JsMap.size s.values;
    max_keys = s.max_keys;
    evictions = s.eviction_count;
    keys = infos;
    recent_activity = recent_activity;
  },
  s,
)

unfoldable pub build_snapshot :
    (recent_activity : List Text) → InMemoryStore → Option (Snapshot × InMemoryStore)
unfolding describe_loop
build_snapshot recent_activity s =
    complete recent_activity (describe_loop (JsMap.size s.lru.nodes) s.lru.head [] s)

-- A client of the statistics: whether it is open, and what it was sent.
pub record Watcher : Type 0 where
  pub is_open : Bool
  pub received : List Snapshot

unfoldable pub send_all : Snapshot → List Watcher → List Watcher
send_all snap [] = []
send_all snap (w ∷ clients) =
    (if w.is_open then record w { received = w.received ++ snap ∷ [] } else w)
    ∷ send_all snap clients

abbrev pub send_if_built :
    Option (Snapshot × InMemoryStore) → List Watcher → Option (List Watcher × InMemoryStore)
send_if_built none clients = none
send_if_built (some (snap, s)) clients = some (send_all snap clients, s)

-- Nothing is built where nobody watches.
unfoldable pub broadcast :
    (recent_activity : List Text)
    → List Watcher
    → InMemoryStore
    → Option (List Watcher × InMemoryStore)
unfolding build_snapshot send_all
broadcast recent_activity [] s = some ([], s)
broadcast recent_activity (w ∷ clients) s =
    send_if_built (build_snapshot recent_activity s) (w ∷ clients)
