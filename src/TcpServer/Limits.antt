-- ===== src/TcpServer/Limits.antt =====
-- About the limit on the buffer of a socket.
use mini_store.Prelude.{◌⊎◌, ℕ, ◌≤◌, ◌≡◌, true, length, Text}
use mini_store.TcpServer.{Socket, Outcome}

module _ {S : Type 0} (handle_line : Text → S → Outcome × S) (max_line_bytes : ℕ) where
  abbrev pub InLimits : Socket S → Type 0
  InLimits s = (s.destroyed ≡ true) ⊎ (length s.buffer ≤ max_line_bytes)
