-- ===== src/PubSub/Publishing.antt =====
-- Who gets a message.
use mini_store.Protocol.Decimal.{decimal}
use mini_store.Protocol.Replies.{array, items_of, push_message}
use mini_store.Prelude.{
  ℕ, subst, sym, ◌≡◌, ◌∙◌, refl, ap, List, [], ◌∷◌, ◌++◌, length, Text, text_keyed, ref_keyed,
  contains, arith,
}
use mini_store.Protocol.Command.{codes}
use mini_store.PubSub.{Connection, PubSubManager, members, deliver, publish}
use mini_store.PubSub.Mirror.{IsMirror, subscribed}

-- The connections that a list of writes goes to.
unfoldable pub receivers : List (Connection × Text) → List Connection
receivers [] = []
receivers ((c, message) ∷ ws) = c ∷ receivers ws

receivers-deliver : (message : Text) (cs : List Connection) → receivers (deliver message cs) ≡ cs
unfolding receivers deliver
receivers-deliver message [] = refl
receivers-deliver message (c ∷ cs) =
    ap (λ (l : List Connection). c ∷ l) (receivers-deliver message cs)

-- Every write of the list is this text.
abbrev pub Carry : Text → List (Connection × Text) → Type 0
Carry message [] = Unit
Carry message ((c, text) ∷ ws) = (text ≡ message) × Carry message ws

deliver-Carry : (message : Text) (cs : List Connection) → Carry message (deliver message cs)
unfolding deliver
deliver-Carry message [] = tt
deliver-Carry message (c ∷ cs) = (refl, deliver-Carry message cs)

length-receivers : (ws : List (Connection × Text)) → length (receivers ws) ≡ length ws
unfolding receivers
length-receivers [] = refl
length-receivers ((c, text) ∷ ws) = ground (arith, length-receivers ws)

push_message_lem :
    (channel message : Text)
    → push_message channel message
      ≡ (codes "*3\r\n$message\r\n" ++ b'$' ∷ (channel ++ codes "\r\n"))
        ++ b'$' ∷ (message ++ codes "\r\n")
unfolding push_message array items_of decimal
push_message_lem channel message = refl

abbrev pub Publishes : (channel message : Text) → PubSubManager → ℕ × PubSubManager → Type 0
Publishes channel message s (answer, t) =
    (ws : List (Connection × Text)) × (t.written ≡ s.written ++ ws)
    × Carry
        ((codes "*3\r\n$message\r\n" ++ b'$' ∷ (channel ++ codes "\r\n"))
          ++ b'$' ∷ (message ++ codes "\r\n"))
        ws
    × ((c : Connection) → contains c (receivers ws) ≡ subscribed s c channel)
    × (answer ≡ length ws)
    × (t.channels ≡ s.channels)
    × (t.connections ≡ s.connections)

-- Where the two maps mirror each other, publishing appends writes that all are the three items
-- of the message as one array, to the connections subscribed to the channel and to no other,
-- answers with the number of these writes, and leaves the subscriptions as they are.
pub publish_lem :
    (channel message : Text) (s : PubSubManager)
    → IsMirror s
    → Publishes channel message s (publish channel message s)
unfolding publish IsMirror
publish_lem channel message s m =
    let text = push_message channel message in
    let conns = members s channel in
    (
      deliver text conns,
      refl,
      subst (λ (t : Text). Carry t (deliver text conns)) (push_message_lem channel message)
          (deliver-Carry text conns),
      (λ c. ap (contains c) (receivers-deliver text conns) ∙ m c channel),
      ap length (sym (receivers-deliver text conns)) ∙ length-receivers (deliver text conns),
      refl,
      refl,
    )
