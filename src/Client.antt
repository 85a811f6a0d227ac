-- ===== src/Client.antt =====
-- The command line client (cli/src/Client.ts and cli/src/index.ts): the queue of requests that wait for
-- their reply, the arguments, and what is printed. A request is named by a number, which stands for
-- the function that resolves its promise. The terminal and the socket are input and output.
pub mod Queue
use mini_store.Prelude.{
  ℕ, ◌+◌, Bool, true, false, ◌&&◌, ◌||◌, Option, none, some, List, [], ◌∷◌, ◌++◌, leb,
  if◌then◌else◌, ite, ℤ, pos, Text, Text-discrete,
}
use mini_store.Protocol.Command.{codes}
use mini_store.Protocol.Tokens.{trim}
use mini_store.Protocol.Words.{join}
use mini_store.Protocol.Decimal.{decimal, decimal_ℤ}
use mini_store.Protocol.ReplyParser
use mini_store.Protocol.ReplyParser.{Reply, Emitted, parse_int, buffer_of}

-- `crashed` is the error that the parser emits and nobody listens to: it is thrown, and the process
-- ends with it.
pub record Client : Type 0 where
  pub parser : ReplyParser.ReplyParser
  pub pending_resolvers : List ℕ
  pub resolved : List (ℕ × Reply)
  pub pushes : List Reply
  pub written : List Text
  pub crashed : Bool

abbrev pub empty : Client
empty = record {
  parser = ReplyParser.empty;
  pending_resolvers = [];
  resolved = [];
  pushes = [];
  written = [];
  crashed = false;
}

-- Nothing more happens in a process that has ended.
abbrev pub unless_crashed : (Client → Client) → Client → Client
unless_crashed step c = if c.crashed then c else step c

abbrev pub push_request : ℕ → Text → Client → Client
push_request id command_line c = record c {
  pending_resolvers = c.pending_resolvers ++ id ∷ [];
  written = c.written ++ (command_line ++ codes "\r\n") ∷ [];
}

unfoldable pub send : ℕ → Text → Client → Client
send id command_line c = unless_crashed (push_request id command_line) c

-- The first that waits gets the reply; one that nobody waits for is dropped.
abbrev pub resolve_first : Reply → List ℕ → Client → Client
resolve_first reply [] c = c
resolve_first reply (id ∷ others) c = record c {
  pending_resolvers = others;
  resolved = c.resolved ++ (id, reply) ∷ [];
}

-- What the parser emits, in order, up to an error.
unfoldable pub dispatch : List Emitted → Client → Client
dispatch [] c = c
dispatch (Emitted.reply r ∷ events) c = dispatch events (resolve_first r c.pending_resolvers c)
dispatch (Emitted.push r ∷ events) c = dispatch events (record c { pushes = c.pushes ++ r ∷ [] })
dispatch (Emitted.unknown_prefix prefix ∷ events) c = record c { crashed = true }

-- The `data` listener; `decode` is the parser's.
unfoldable pub parse : (decode : List ℕ → Text) → List ℕ → Client → Client
unfolding dispatch
parse decode bytes c =
    let parser = ReplyParser.append decode (buffer_of bytes) (record c.parser { emitted = [] }) in
    dispatch parser.emitted (record c { parser = parser })

unfoldable pub on_data : (decode : List ℕ → Text) → List ℕ → Client → Client
unfolding parse
on_data decode bytes c = unless_crashed (parse decode bytes) c

unfoldable pub resolve_all : Reply → List ℕ → List (ℕ × Reply)
resolve_all reply [] = []
resolve_all reply (id ∷ ids) = (id, reply) ∷ resolve_all reply ids

-- The `close` listener.
unfoldable pub resolve_pending : Client → Client
unfolding resolve_all
resolve_pending c = record c {
  resolved =
      c.resolved ++ resolve_all (Reply.error (codes "Connection closed")) c.pending_resolvers;
  pending_resolvers = [];
}

unfoldable pub on_close : Client → Client
unfolding resolve_pending
on_close c = unless_crashed resolve_pending c

-- The arguments; `none` as the port is NaN.
pub record Args : Type 0 where
  pub host : Text
  pub port : Option ℤ
  pub command_args : List Text

abbrev pub defaults : Args
defaults = record { host = codes "127.0.0.1"; port = some (pos 6380); command_args = [] }

unfoldable pub parse_args : List Text → Args → Args
parse_args [] a = a
parse_args (arg ∷ []) a = record a { command_args = a.command_args ++ arg ∷ [] }
parse_args (arg ∷ next ∷ rest) a =
    let as_host = parse_args rest (record a { host = next }) in
    let as_port = parse_args rest (record a { port = parse_int next }) in
    let as_word =
      parse_args (next ∷ rest) (record a { command_args = a.command_args ++ arg ∷ [] }) in
    ite (Text-discrete arg (codes "--host")) as_host
      (ite (Text-discrete arg (codes "--port")) as_port as_word)

-- A line on the console, or on the error stream.
pub data Printed : Type 0 where
  log error : Text → Printed

abbrev pub quoted : Option Text → Text
quoted none = codes "(nil)"
quoted (some t) = b'"' ∷ t ++ b'"' ∷ []

unfoldable pub number_items : ℕ → List (Option Text) → List Printed
number_items n [] = []
number_items n (item ∷ items) =
    log (decimal n ++ codes ") " ++ quoted item) ∷ number_items (n + 1) items

abbrev pub show_integer : Option ℤ → Text
show_integer none = codes "NaN"
show_integer (some n) = decimal_ℤ n

unfoldable pub print_reply : Reply → List Printed
unfolding number_items
print_reply (Reply.success value) = log (codes "OK: " ++ value) ∷ []
print_reply (Reply.bulk value) = log (quoted value) ∷ []
print_reply (Reply.integer value) = log (codes "(integer) " ++ show_integer value) ∷ []
print_reply (Reply.error message) = error (codes "(error) " ++ message) ∷ []
print_reply (Reply.array []) = log (codes "(empty array)") ∷ []
print_reply (Reply.array (item ∷ items)) = number_items 1 (item ∷ items)

-- What the interactive loop does with a line. `toLowerCase` matters for the letters of two words only.
pub data Input : Type 0 where
  blank quit : Input
  request : Text → Input

unfoldable pub to_lower_case : Text → Text
to_lower_case [] = []
to_lower_case (c ∷ t) = (if leb b'A' c && leb c b'Z' then c + 32 else c) ∷ to_lower_case t

abbrev pub unless_quit : Text → Input
unless_quit [] = blank
unless_quit (c ∷ t) =
    let lower = to_lower_case (c ∷ t) in
    ite (Text-discrete lower (codes "exit")) quit
      (ite (Text-discrete lower (codes "quit")) quit (request (c ∷ t)))

unfoldable pub read_line : Text → Input
unfolding to_lower_case
read_line line = unless_quit (trim line)

-- The line that the arguments make, where there are any.
abbrev pub command_line : Args → Text
command_line a = join a.command_args
