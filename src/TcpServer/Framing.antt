-- ===== src/TcpServer/Framing.antt =====
-- About the `data` handler of a socket: which lines reach the handler, however the bytes are cut.
use mini_store.Prelude.{
  Bool, false, ℕ, zero, suc, ◌≤◌, ◌≡◌, ◌∙◌, refl, ap, inl, inr, Option, some, List, [], ◌∷◌, ◌++◌,
  length, arith, if◌then◌else◌, Text, Option-cases,
}
use mini_store.TcpServer.{
  and_then, receive, feed, Socket, Outcome, cut, deliver, deliver_line, drain, on_data, strip_cr,
  answer,
}
use mini_store.TcpServer.Scanning.{
  scan, scan-none, scan-some, cut-length, scan-append, scan_rest, concat,
}

module _ {S : Type 0} (handle_line : Text → S → Outcome × S) where
  -- Every line in turn.
  unfoldable pub deliver_all : List Text → Socket S → Socket S
  deliver_all [] s = s
  deliver_all (line ∷ lines) s = deliver_all lines (deliver handle_line line s)

  deliver_all-append :
      (l r : List Text) (s : Socket S) → deliver_all (l ++ r) s ≡ deliver_all r (deliver_all l s)
  unfolding deliver_all
  deliver_all-append [] r s = refl
  deliver_all-append (line ∷ l) r s = deliver_all-append l r (deliver handle_line line s)

  answer-buffer :
      (o : Outcome × S) (t : Text) (s : Socket S)
      → answer o (record s { buffer = t }) ≡ record (answer o s) { buffer = t }
  answer-buffer (Outcome.reply w, h) t s = refl
  answer-buffer (Outcome.silent, h) t s = refl
  answer-buffer (Outcome.thrown, h) t s = refl

  deliver_line-buffer :
      (line t : Text) (s : Socket S)
      → deliver_line handle_line line (record s { buffer = t })
        ≡ record (deliver_line handle_line line s) { buffer = t }
  deliver_line-buffer [] t s = refl
  deliver_line-buffer (c ∷ line) t s = answer-buffer (handle_line (c ∷ line) s.handler) t s

  deliver-buffer :
      (line t : Text) (s : Socket S)
      → deliver handle_line line (record s { buffer = t })
        ≡ record (deliver handle_line line s) { buffer = t }
  unfolding deliver
  deliver-buffer line t s = deliver_line-buffer (strip_cr line) t s

  answer-destroyed : (o : Outcome × S) (s : Socket S) → (answer o s).destroyed ≡ s.destroyed
  answer-destroyed (Outcome.reply w, h) s = refl
  answer-destroyed (Outcome.silent, h) s = refl
  answer-destroyed (Outcome.thrown, h) s = refl

  deliver_line-destroyed :
      (line : Text) (s : Socket S) → (deliver_line handle_line line s).destroyed ≡ s.destroyed
  deliver_line-destroyed [] s = refl
  deliver_line-destroyed (c ∷ line) s = answer-destroyed (handle_line (c ∷ line) s.handler) s

  deliver-destroyed :
      (line : Text) (s : Socket S) → (deliver handle_line line s).destroyed ≡ s.destroyed
  unfolding deliver
  deliver-destroyed line s = deliver_line-destroyed (strip_cr line) s

  deliver_all-buffer :
      (lines : List Text) (t : Text) (s : Socket S)
      → deliver_all lines (record s { buffer = t }) ≡ record (deliver_all lines s) { buffer = t }
  unfolding deliver_all
  deliver_all-buffer [] t s = refl
  deliver_all-buffer (line ∷ lines) t s =
      ap (deliver_all lines) (deliver-buffer line t s)
      ∙ deliver_all-buffer lines t (deliver handle_line line s)

  -- What the socket is after the lines of `x`, which were in the buffer.
  abbrev pub after : Text → Socket S → Socket S
  after x s = record (deliver_all (scan [] x).0 s) { buffer = (scan [] x).1 }

  after_line :
      (x line rest : Text) (s : Socket S)
      → cut x ≡ some (line, rest)
      → after rest (deliver handle_line line s) ≡ after x s
  unfolding deliver_all
  after_line x line rest s e = rw (scan-some x [] line rest e) refl

  drain_lem :
      (fuel : ℕ) (x : Text) (s : Socket S)
      → length x ≤ fuel
      → drain handle_line fuel (cut x) (record s { buffer = x }) ≡ some (after x s)
  unfolding drain deliver_all
  drain_lem zero x s enough = elim (Option-cases (cut x)) [
    | inl stuck ↦ rw (stuck, scan-none x [] stuck) refl
    | inr ((line, rest), e) ↦ absurd (omega (arith, cut-length x line rest e))
  ]
  drain_lem (suc fuel) x s enough = elim (Option-cases (cut x)) [
    | inl stuck ↦ rw (stuck, scan-none x [] stuck) refl
    | inr ((line, rest), e) ↦
        ap
          (λ (found : Option (Text × Text)).
            drain handle_line (suc fuel) found (record s { buffer = x }))
          e
        ∙ ap (drain handle_line fuel (cut rest)) (deliver-buffer line rest s)
        ∙ drain_lem fuel rest (deliver handle_line line s) (omega (arith, cut-length x line rest e))
        ∙ ap some (after_line x line rest s e)
  ]

  module _ (max_line_bytes : ℕ) where
    pub on_data_lem :
        (chunk : Text) (s : Socket S)
        → length (s.buffer ++ chunk) ≤ max_line_bytes
        → on_data handle_line max_line_bytes chunk s ≡ some (after (s.buffer ++ chunk) s)
    unfolding on_data
    on_data_lem chunk s fits =
        ground (arith, drain_lem (length (s.buffer ++ chunk)) (s.buffer ++ chunk) s (omega arith))

    -- Every chunk finds room in the buffer.
    abbrev pub Fits : List Text → (pending : Text) → Type 0
    Fits [] pending = Unit
    Fits (chunk ∷ chunks) pending =
        (length (pending ++ chunk) ≤ max_line_bytes) × Fits chunks (scan pending chunk).1

    deliver_all-destroyed :
        (lines : List Text) (s : Socket S) → (deliver_all lines s).destroyed ≡ s.destroyed
    unfolding deliver_all
    deliver_all-destroyed [] s = refl
    deliver_all-destroyed (line ∷ lines) s =
        deliver_all-destroyed lines (deliver handle_line line s) ∙ deliver-destroyed line s

    after_pending :
        (chunk : Text) (s : Socket S)
        → scan [] s.buffer ≡ ([], s.buffer)
        → after (s.buffer ++ chunk) s
          ≡ record (deliver_all (scan s.buffer chunk).0 s) { buffer = (scan s.buffer chunk).1 }
    after_pending chunk s h = rw (scan-append s.buffer chunk [], h) refl

    pub receive_live :
        (chunk : Text) (s : Socket S)
        → s.destroyed ≡ false
        → receive handle_line max_line_bytes chunk s ≡ on_data handle_line max_line_bytes chunk s
    unfolding receive
    receive_live chunk s fresh =
        ap (λ (gone : Bool). if gone then some s else on_data handle_line max_line_bytes chunk s)
          fresh

    joined :
        (a b : Text) (s : Socket S)
        → record (deliver_all (scan (scan s.buffer a).1 b).0 (deliver_all (scan s.buffer a).0 s)) {
          buffer = (scan (scan s.buffer a).1 b).1;
        }
          ≡ record (deliver_all (scan s.buffer (a ++ b)).0 s) {
            buffer = (scan s.buffer (a ++ b)).1;
          }
    joined a b s =
        rw
          (
            scan-append a b s.buffer,
            deliver_all-append (scan s.buffer a).0 (scan (scan s.buffer a).1 b).0 s,
          )
          refl

    -- Where a socket is open, no newline waits in its buffer and every chunk finds room, its
    -- data handler gives the line handler exactly the lines of the concatenated chunks, in
    -- order, without a trailing CR and without the blank ones, and keeps what follows the last
    -- newline; where the chunks are cut does not matter.
    pub feed_lem :
        (chunks : List Text) (s : Socket S)
        → s.destroyed ≡ false
        → scan [] s.buffer ≡ ([], s.buffer)
        → Fits chunks s.buffer
        → feed handle_line max_line_bytes chunks s
          ≡ some (record (deliver_all (scan s.buffer (concat chunks)).0 s) {
            buffer = (scan s.buffer (concat chunks)).1;
          })
    unfolding feed receive scan deliver_all
    feed_lem [] s fresh pending fits = refl
    feed_lem (chunk ∷ chunks) s fresh pending (room, fits) =
        let (lines, rest) = scan s.buffer chunk in
        let t : Socket S = record (deliver_all lines s) { buffer = rest } in
        let arrives : receive handle_line max_line_bytes chunk s ≡ some t =
          receive_live chunk s fresh
          ∙ on_data_lem chunk s room
          ∙ ap some (after_pending chunk s pending) in
        ap (λ (o : Option (Socket S)). and_then o (feed handle_line max_line_bytes chunks)) arrives
        ∙ feed_lem chunks t (deliver_all-destroyed lines s ∙ fresh)
            (scan_rest chunk s.buffer pending) fits
        ∙ ap some (
            ap (λ (u : Socket S). record u { buffer = (scan rest (concat chunks)).1 })
              (deliver_all-buffer (scan rest (concat chunks)).0 rest (deliver_all lines s))
            ∙ joined chunk (concat chunks) s)
