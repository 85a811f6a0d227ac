-- ===== src/TcpServer/Handled.antt =====
-- About the `data` handler of a socket: the texts that reach the line handler, and what is written back.
use mini_store.Prelude.{
  last?-cons, Option-cases, false, ℕ, ◌≡◌, ◌∙◌, refl, sym, ap, some, List, [], ◌∷◌, ◌++◌, last?,
  arith, ◌==◌, if◌then◌else◌, Text, Bool-cases, inl, inr,
}
use mathlib.Core.List.{append-nil, append_assoc}
use mini_store.Protocol.Command.{codes}
use mini_store.TcpServer.{feed, Socket, Outcome, deliver, deliver_line, strip_cr, answer}
use mini_store.TcpServer.Outcome.{reply, silent, thrown}
use mini_store.TcpServer.Scanning.{scan, concat}
use mini_store.TcpServer.Framing.{deliver_all, Fits, feed_lem}

-- A line without the carriage return at its end.
unfoldable pub bare : Text → Text
bare [] = []
bare (c ∷ []) = if c == b'\r' then [] else c ∷ []
bare (c ∷ d ∷ t) = c ∷ bare (d ∷ t)

strip_cr-bare : (t : Text) → strip_cr t ≡ bare t
unfolding strip_cr bare
strip_cr-bare [] = refl
strip_cr-bare (c ∷ []) = ground arith
strip_cr-bare (c ∷ d ∷ t) = elim (Option-cases (last? (d ∷ t))) [
  | inl nothing ↦ absurd (last?-cons d t nothing)
  | inr (e, ends) ↦ elim (Bool-cases (e == b'\r')) [
    | inl cr ↦ ground (arith, strip_cr-bare (d ∷ t))
    | inr other ↦ ground (arith, strip_cr-bare (d ∷ t))
  ]
]

abbrev pub unless_empty : Text → List Text → List Text
unless_empty [] rest = rest
unless_empty (c ∷ t) rest = (c ∷ t) ∷ rest

-- The lines without their carriage returns, but for those that are empty then.
unfoldable pub texts_of : List Text → List Text
unfolding bare
texts_of [] = []
texts_of (line ∷ lines) = unless_empty (bare line) (texts_of lines)

module _ {S : Type 0} (handle_line : Text → S → Outcome × S) where
  -- What one outcome writes back.
  abbrev pub reply_of : Outcome → List Text
  reply_of (reply t) = t ∷ []
  reply_of silent = []
  reply_of thrown = codes "-ERR internal server error\r\n" ∷ []

  -- The texts handled in turn: the handler afterwards, and everything that is written back.
  unfoldable pub handle_all : List Text → S → S × List Text
  handle_all [] h = (h, [])
  handle_all (text ∷ texts) h =
      let (outcome, h1) = handle_line text h in
      let (h2, written) = handle_all texts h1 in (h2, reply_of outcome ++ written)

  abbrev pub handled : List Text → Socket S → Socket S
  handled texts s =
      let (h, written) = handle_all texts s.handler in
      record s { handler = h; written = s.written ++ written }

  answer_lem :
      (o : Outcome) (h : S) (s : Socket S)
      → answer (o, h) s ≡ record s { handler = h; written = s.written ++ reply_of o }
  answer_lem (reply t) h s = refl
  answer_lem silent h s =
      ap (λ (ws : List Text). record s { handler = h; written = ws }) (sym (append-nil s.written))
  answer_lem thrown h s = refl

  handled-cons :
      (text : Text) (texts : List Text) (s : Socket S)
      → handled texts (answer (handle_line text s.handler) s) ≡ handled (text ∷ texts) s
  unfolding handle_all
  handled-cons text texts s =
      let (o, h) = handle_line text s.handler in
      ap (handled texts) (answer_lem o h s)
      ∙ ap (λ (ws : List Text). record s { handler = (handle_all texts h).0; written = ws })
          (append_assoc s.written (reply_of o) (handle_all texts h).1)

  deliver_one :
      (lines rest : List Text)
      → ((s : Socket S) → deliver_all handle_line lines s ≡ handled rest s)
      → (text : Text) (s : Socket S)
      → deliver_all handle_line lines (deliver_line handle_line text s)
        ≡ handled (unless_empty text rest) s
  deliver_one lines rest all [] s = all s
  deliver_one lines rest all (c ∷ t) s =
      all (answer (handle_line (c ∷ t) s.handler) s) ∙ handled-cons (c ∷ t) rest s

  deliver_all-handled :
      (lines : List Text) (s : Socket S)
      → deliver_all handle_line lines s ≡ handled (texts_of lines) s
  unfolding deliver_all deliver texts_of handle_all
  deliver_all-handled [] s =
      ap (λ (ws : List Text). record s { written = ws }) (sym (append-nil s.written))
  deliver_all-handled (line ∷ lines) s =
      rw (strip_cr-bare line)
        (deliver_one lines (texts_of lines) (deliver_all-handled lines) (bare line) s)

  -- Where a socket is open, no newline waits in its buffer and every chunk finds room, its data
  -- handler gives the line handler exactly the lines of the concatenated chunks, in order,
  -- without a trailing CR and without the blank ones, writes back the replies of those that have
  -- one and an error for those that threw, and keeps what follows the last newline; where the
  -- chunks are cut does not matter.
  pub feed-handled :
      (max_line_bytes : ℕ) (chunks : List Text) (s : Socket S)
      → s.destroyed ≡ false
      → scan [] s.buffer ≡ ([], s.buffer)
      → Fits handle_line max_line_bytes chunks s.buffer
      → feed handle_line max_line_bytes chunks s
        ≡ some (record (handled (texts_of (scan s.buffer (concat chunks)).0) s) {
          buffer = (scan s.buffer (concat chunks)).1;
        })
  feed-handled max_line_bytes chunks s fresh pending fits =
      let (lines, rest) = scan s.buffer (concat chunks) in
      feed_lem handle_line max_line_bytes chunks s fresh pending fits
      ∙ ap (λ (t : Socket S). some (record t { buffer = rest })) (deliver_all-handled lines s)
