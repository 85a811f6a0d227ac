-- ===== src/TcpServer.antt =====
-- `TcpServer` (store-engine/src/server/TcpServer.ts): from the chunks of a socket to lines, and what is
-- written back. The handler of lines is the parameter `handle_line`, which the source injects: it
-- works on a state, and replies, stays silent or throws. A socket's id stands for the socket.
pub mod Scanning
pub mod Framing
pub mod Limits
pub mod Handled
use mini_store.Prelude.{
  ℕ, zero, suc, Bool, true, false, Option, none, some, List, [], ◌∷◌, ◌++◌, length, ltb, ◌==◌,
  if◌then◌else◌, Text, ref_keyed, contains, remove, init, last?,
}
use mini_store.Protocol.Command.{codes}

-- What a `LineHandler` does with a line: `silent` is `undefined` or `null`.
pub data Outcome : Type 0 where
  reply : Text → Outcome
  silent thrown : Outcome

-- One socket: the closure's `buffer`, what has been written, and `socket.destroyed`.
pub record Socket (S : Type 0) : Type 0 where
  pub buffer : Text
  pub written : List Text
  pub destroyed : Bool
  pub handler : S

-- `buffer.indexOf('\n')` with the two slices around it.
unfoldable pub cut : Text → Option (Text × Text)
cut [] = none
cut (c ∷ t) = let rest = cut t in if c == b'\n' then some ([], t) else prepend c rest
  where
    prepend : ℕ → Option (Text × Text) → Option (Text × Text)
    prepend c none = none
    prepend c (some (line, rest)) = some (c ∷ line, rest)

-- `if (line.endsWith('\r')) line = line.slice(0, -1)`
unfoldable pub strip_cr : Text → Text
strip_cr line = strip (last? line)
  where
    strip : Option ℕ → Text
    strip none = line
    strip (some c) = if c == b'\r' then init line else line

module _ {S : Type 0} where
  abbrev pub write : Text → Socket S → Socket S
  write t s = record s { written = s.written ++ t ∷ [] }

  abbrev pub destroy : Socket S → Socket S
  destroy s = record s { destroyed = true }

  -- What happens with the handler's outcome, a thrown error included.
  abbrev pub answer : Outcome × S → Socket S → Socket S
  answer (reply t, h) s = write t (record s { handler = h })
  answer (silent, h) s = record s { handler = h }
  answer (thrown, h) s = write (codes "-ERR internal server error\r\n") (record s { handler = h })

abbrev pub and_then : {A B : Type 0} → Option A → (A → Option B) → Option B
and_then none next = none
and_then (some a) next = next a

module _ {S : Type 0} (handle_line : Text → S → Outcome × S) where
  -- The body of the loop for one stripped line; a blank one is ignored.
  abbrev pub deliver_line : Text → Socket S → Socket S
  deliver_line [] s = s
  deliver_line (c ∷ line) s = answer (handle_line (c ∷ line) s.handler) s

  unfoldable pub deliver : Text → Socket S → Socket S
  unfolding strip_cr
  deliver line s = deliver_line (strip_cr line) s

  -- The `while` loop, for at most `fuel` lines.
  unfoldable pub drain : ℕ → Option (Text × Text) → Socket S → Option (Socket S)
  unfolding cut deliver
  drain fuel none s = some s
  drain zero (some found) s = none
  drain (suc fuel) (some (line, rest)) s =
      drain fuel (cut rest) (deliver line (record s { buffer = rest }))

  -- The `data` handler; every round of the loop takes at least one character.
  unfoldable pub on_data : (max_line_bytes : ℕ) → Text → Socket S → Option (Socket S)
  unfolding drain
  on_data max_line_bytes chunk s =
      let grown = record s { buffer = s.buffer ++ chunk } in
      if ltb max_line_bytes (length grown.buffer)
      then some (destroy (write (codes "-ERR line too long\r\n") grown))
      else drain (length grown.buffer) (cut grown.buffer) grown

  -- Node hands a destroyed socket's handler no more data.
  unfoldable pub receive : (max_line_bytes : ℕ) → Text → Socket S → Option (Socket S)
  unfolding on_data
  receive max_line_bytes chunk s = if s.destroyed then some s else on_data max_line_bytes chunk s

  -- The chunks in the order of their arrival.
  unfoldable pub feed : (max_line_bytes : ℕ) → List Text → Socket S → Option (Socket S)
  unfolding receive
  feed max_line_bytes [] s = some s
  feed max_line_bytes (chunk ∷ chunks) s =
      and_then (receive max_line_bytes chunk s) (feed max_line_bytes chunks)

-- `#sockets`, and the connections whose closing was reported to `onConnectionClose`.
pub record TcpServer : Type 0 where
  pub sockets : List ℕ
  pub reported : List ℕ

unfoldable pub on_connection : ℕ → TcpServer → TcpServer
on_connection id server = record server {
  sockets = if contains id server.sockets then server.sockets else server.sockets ++ id ∷ [];
}

-- The `close` handler, with `onConnectionClose` given or not.
unfoldable pub on_close : (reports : Bool) → ℕ → TcpServer → TcpServer
on_close reports id server = record server {
  sockets = remove id server.sockets;
  reported = if reports then server.reported ++ id ∷ [] else server.reported;
}
