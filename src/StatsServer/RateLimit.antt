-- ===== src/StatsServer/RateLimit.antt =====
-- About the rate limit of a playground connection.
use mini_store.Prelude.{
  sym, subst, ℕ, ◌+◌, ◌*◌, ◌-◌, ◌/◌, ◌≤◌, ◌<◌, ◌≡◌, refl, inl, inr, List, [], ◌∷◌, arith, ltb,
  length, if◌then◌else◌, Text, Bool-cases,
}
use mini_store.Protocol.Tokens.{trim}
use mini_store.TcpServer.{Outcome}
use mini_store.StatsServer.{
  connect, Playground, max_commands, answer, count, handle_if_any, admitted, on_message,
  on_messages,
}

-- How many of the window's commands are still admitted.
abbrev left : ℕ → ℕ
left count = max_commands - count

abbrev pub Until : ℕ → List (ℕ × Text) → Type 0
Until end [] = Unit
Until end ((now, message) ∷ messages) = (now ≤ end) × Until end messages

window : (last begin end : ℕ) → last ≤ end → (last - begin) / 1001 ≤ (end - begin) / 1001
window last begin end till = omega arith

module _ {S : Type 0} (handle_line : Text → S → Outcome × S) (handled : S → ℕ)
    (one_each : (line : Text) (h : S) → handled (handle_line line h).1 ≤ handled h + 1) where
  answer-handled : (o : Outcome × S) (p : Playground S) → (answer o p).handler ≡ o.1
  answer-handled (Outcome.reply t, h) p = refl
  answer-handled (Outcome.silent, h) p = refl
  answer-handled (Outcome.thrown, h) p = refl

  answer-command_count :
      (o : Outcome × S) (p : Playground S)
      → ((answer o p).command_count ≡ p.command_count) × ((answer o p).last_time ≡ p.last_time)
  answer-command_count (Outcome.reply t, h) p = (refl, refl)
  answer-command_count (Outcome.silent, h) p = (refl, refl)
  answer-command_count (Outcome.thrown, h) p = (refl, refl)

  abbrev Counts : (k : ℕ) → (p q : Playground S) → Type 0
  Counts k p q =
      (q.command_count ≡ p.command_count)
      × (q.last_time ≡ p.last_time)
      × (handled q.handler ≤ handled p.handler + k)

  handle_if_any-Counts :
      (line : Text) (p : Playground S) → Counts 1 p (handle_if_any handle_line line p)
  handle_if_any-Counts [] p = (refl, refl, omega arith)
  handle_if_any-Counts (c ∷ line) p =
      let o = handle_line (c ∷ line) p.handler in
      let (counted, timed) = answer-command_count o p in
      (
        counted,
        timed,
        subst (λ (h : S). handled h ≤ handled p.handler + 1) (sym (answer-handled o p))
            (one_each (c ∷ line) p.handler),
      )

  admitted-Counts :
      (message : Text) (p : Playground S)
      → Counts
          (if ltb max_commands p.command_count then 0 else 1)
          p
          (admitted handle_line message p)
  unfolding admitted
  admitted-Counts message p = elim (Bool-cases (ltb max_commands p.command_count)) [
    | inl over ↦ ground arith
    | inr under ↦ elim (Bool-cases (ltb 1024 (length (trim message)))) [
      | inl long ↦ ground arith
      | inr short ↦ ground (arith, handle_if_any-Counts (trim message) p)
    ]
  ]

  -- Every window of a bit more than a second pays for its commands.
  abbrev Paid : (begin end handled_before : ℕ) → Playground S → Type 0
  Paid begin end handled_before p =
      (begin ≤ p.last_time)
      × (p.last_time ≤ end)
      × (handled p.handler + left p.command_count
          ≤ handled_before + max_commands * (1 + (p.last_time - begin) / 1001))

  -- The counter has been set for the message, and the message is not yet dealt with.
  abbrev Due : (begin end handled_before : ℕ) → Playground S → Type 0
  Due begin end handled_before p =
      (begin ≤ p.last_time)
      × (p.last_time ≤ end)
      × (handled p.handler
            + (if ltb max_commands p.command_count then 0 else 1)
            + left p.command_count
          ≤ handled_before + max_commands * (1 + (p.last_time - begin) / 1001))

  next_window :
      (begin last now : ℕ)
      → begin ≤ last
      → last + 1000 < now
      → (last - begin) / 1001 + 1 ≤ (now - begin) / 1001
  next_window begin last now from later = omega arith

  count-Due :
      (begin end handled_before now : ℕ) (p : Playground S)
      → now ≤ end
      → Paid begin end handled_before p
      → Due begin end handled_before (count now p)
  unfolding count
  count-Due begin end handled_before now p in_time (from, till, paid) =
      elim (Bool-cases (ltb (p.last_time + 1000) now)) [
        | inl late ↦ ground (arith, next_window begin p.last_time now from (ground arith))
        | inr soon ↦ ground arith
      ]

  admitted-Paid :
      (begin end handled_before : ℕ) (message : Text) (p : Playground S)
      → Due begin end handled_before p
      → Paid begin end handled_before (admitted handle_line message p)
  admitted-Paid begin end handled_before message p (from, till, due) =
      let (counted, timed, more) = admitted-Counts message p in ground arith

  on_messages-Paid :
      (begin end handled_before : ℕ) (messages : List (ℕ × Text)) (p : Playground S)
      → Until end messages
      → Paid begin end handled_before p
      → Paid begin end handled_before (on_messages handle_line messages p)
  unfolding on_messages on_message
  on_messages-Paid begin end handled_before [] p in_time paid = paid
  on_messages-Paid begin end handled_before ((now, message) ∷ messages) p (first, others) paid =
      on_messages-Paid begin end handled_before messages
        (admitted handle_line message (count now p)) others
        (admitted-Paid begin end handled_before message (count now p)
          (count-Due begin end handled_before now p first paid))

  -- Of all messages of a playground connection up to a time, whatever the clock does before, at
  -- most 20 are handled for every 1001 milliseconds begun since it connected; handled counts
  -- them, one at most for each line.
  pub on_messages_bound :
      (begin end : ℕ) (h : S) (messages : List (ℕ × Text))
      → begin ≤ end
      → Until end messages
      → handled (on_messages handle_line messages (connect begin h)).handler
        ≤ handled h + max_commands * (1 + (end - begin) / 1001)
  on_messages_bound begin end h messages order in_time =
      let (from, till, paid) =
        on_messages-Paid begin end (handled h) messages (connect begin h) in_time (ground arith) in
      omega (
        arith,
        window (on_messages handle_line messages (connect begin h)).last_time begin end till,
      )
