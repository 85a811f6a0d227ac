-- ===== src/PubSub.antt =====
-- `PubSubManager` (store-engine/src/server/PubSubManager.ts): who is subscribed to which channel, in two
-- maps that mirror each other. A connection is the reference of its object; what is written to
-- connections is a list of pairs.
pub mod Mirror
pub mod Leaving
pub mod Publishing
use mini_store.Prelude.{
  ℕ, Bool, true, false, not, ◌&&◌, Option, none, some, List, [], ◌∷◌, ◌++◌, length, ltb, ◌==◌,
  if◌then◌else◌, Text, text_keyed, ref_keyed, contains, remove,
}
use mini_store.JsMap
use mini_store.JsMap.{JsMap, add}
use mini_store.Protocol.Replies.{subscribe_reply, unsubscribe_reply, push_message}

abbrev pub Connection : Type 0
Connection = ℕ

pub record PubSubManager : Type 0 where
  pub channels : JsMap Text (List Connection)
  pub connections : JsMap Connection (List Text)
  pub written : List (Connection × Text)

abbrev pub empty : PubSubManager
empty = record { channels = []; connections = []; written = [] }

abbrev pub or_empty : {A : Type 0} → Option (List A) → List A
or_empty none = []
or_empty (some xs) = xs

-- The sets behind the two maps, empty where there is none.
unfoldable pub members : PubSubManager → Text → List Connection
members s channel = or_empty (JsMap.get s.channels channel)

unfoldable pub channels_of : PubSubManager → Connection → List Text
channels_of s connection = or_empty (JsMap.get s.connections connection)

-- One turn of the loop of `subscribe`.
unfoldable pub join_channel : Connection → Text → PubSubManager → PubSubManager
unfolding members channels_of
join_channel connection channel s = record s {
  channels = JsMap.set s.channels channel (add (members s channel) connection);
  connections = JsMap.set s.connections connection (add (channels_of s connection) channel);
}

unfoldable pub subscribe_loop :
    Connection → List Text → List Text → PubSubManager → List Text × PubSubManager
unfolding join_channel
subscribe_loop connection [] replies s = (replies, s)
subscribe_loop connection (channel ∷ channels) replies s =
    let s' = join_channel connection channel s in
    subscribe_loop connection channels
      (replies ++ subscribe_reply channel (length (channels_of s' connection)) ∷ []) s'

unfoldable pub open_set : Connection → PubSubManager → PubSubManager
open_set connection s =
    if JsMap.has s.connections connection
    then s
    else record s { connections = JsMap.set s.connections connection [] }

unfoldable pub subscribe : Connection → List Text → PubSubManager → List Text × PubSubManager
unfolding subscribe_loop open_set
subscribe connection channels s = subscribe_loop connection channels [] (open_set connection s)

-- `channelConns.delete(connection)`, and the channel with it where it was the last one.
unfoldable pub drop_member :
    Option (List Connection)
    → Connection
    → Text
    → JsMap Text (List Connection)
    → JsMap Text (List Connection)
drop_member none connection channel m = m
drop_member (some conns) connection channel m =
    if length (remove connection conns) == 0
    then JsMap.delete m channel
    else JsMap.set m channel (remove connection conns)

unfoldable pub leave_channel : Connection → Text → PubSubManager → PubSubManager
unfolding drop_member channels_of
leave_channel connection channel s = record s {
  connections = JsMap.set s.connections connection (remove channel (channels_of s connection));
  channels = drop_member (JsMap.get s.channels channel) connection channel s.channels;
}

unfoldable pub unsubscribe_loop :
    Connection → List Text → List Text → PubSubManager → List Text × PubSubManager
unfolding leave_channel
unsubscribe_loop connection [] replies s = (replies, s)
unsubscribe_loop connection (channel ∷ channels) replies s =
    let s' = leave_channel connection channel s in
    unsubscribe_loop connection channels
      (replies ++ unsubscribe_reply channel (length (channels_of s' connection)) ∷ []) s'

unfoldable pub close_set : Connection → PubSubManager → PubSubManager
close_set connection s =
    if length (channels_of s connection) == 0
    then record s { connections = JsMap.delete s.connections connection }
    else s

abbrev pub all_replies : List Text → List Text
all_replies [] = []
all_replies (channel ∷ channels) = unsubscribe_reply channel 0 ∷ all_replies channels

abbrev pub chosen : List Text → List Text → List Text
chosen [] all = all
chosen (channel ∷ channels) all = channel ∷ channels

unfoldable pub unsubscribe_from :
    Option (List Text) → Connection → List Text → PubSubManager → List Text × PubSubManager
unfolding unsubscribe_loop close_set
unsubscribe_from none connection channels s = (all_replies channels, s)
unsubscribe_from (some subscribed) connection channels s =
    let (replies, s') = unsubscribe_loop connection (chosen channels subscribed) [] s in
    (replies, close_set connection s')

unfoldable pub unsubscribe : Connection → List Text → PubSubManager → List Text × PubSubManager
unfolding unsubscribe_from
unsubscribe connection channels s =
    unsubscribe_from (JsMap.get s.connections connection) connection channels s

unfoldable pub deliver : Text → List Connection → List (Connection × Text)
deliver message [] = []
deliver message (conn ∷ conns) = (conn, message) ∷ deliver message conns

unfoldable pub publish : Text → Text → PubSubManager → ℕ × PubSubManager
unfolding deliver members
publish channel message s =
    let conns = members s channel in
    (length conns, record s { written = s.written ++ deliver (push_message channel message) conns })

unfoldable pub remove_loop : Connection → List Text → PubSubManager → PubSubManager
unfolding drop_member
remove_loop connection [] s = s
remove_loop connection (channel ∷ channels) s = remove_loop connection channels (record s {
  channels = drop_member (JsMap.get s.channels channel) connection channel s.channels;
})

unfoldable pub remove_from : Option (List Text) → Connection → PubSubManager → PubSubManager
unfolding remove_loop
remove_from none connection s = s
remove_from (some subscribed) connection s =
    let s' = remove_loop connection subscribed s in
    record s' { connections = JsMap.delete s'.connections connection }

unfoldable pub remove_connection : Connection → PubSubManager → PubSubManager
unfolding remove_from
remove_connection connection s = remove_from (JsMap.get s.connections connection) connection s

unfoldable pub is_subscribed : PubSubManager → Connection → Bool
unfolding channels_of
is_subscribed s connection = ltb 0 (length (channels_of s connection))
