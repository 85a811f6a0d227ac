-- ===== src/PubSub/Mirror.antt =====
-- About `subscribe`: the two maps of `PubSubManager` as mirrors of each other.
use mini_store.Prelude.{
  inr, inl, Keyed, ◌≡◌, ◌∙◌, refl, sym, ap, ite, Bool, true, false, ◌||◌, Option, none, some, List,
  [], ◌∷◌, arith, length, ◌==◌, Text, Text-discrete, ℕ_discrete, text_keyed, ref_keyed, contains,
  remove, contains-remove, contains-append, Bool-cases,
}
use mini_store.JsMap
use mini_store.JsMap.{JsMap, add}
use mini_store.PubSub.{
  Connection, PubSubManager, or_empty, members, channels_of, join_channel, subscribe_loop, open_set,
  subscribe, drop_member, leave_channel,
}

unfoldable pub IsMirror : PubSubManager → Type 0
IsMirror s =
    (c : Connection) (ch : Text) → contains c (members s ch) ≡ contains ch (channels_of s c)

module _ {K : Type 0} ⦃d : Keyed K⦄ where
  pub contains_none : (xs : List K) (y : K) → length xs ≡ 0 → contains y xs ≡ false
  unfolding contains
  contains_none [] y h = refl
  contains_none (x ∷ xs) y h = absurd (omega arith)

  contains-add :
      (xs : List K) (x y : K) → contains y (add xs x) ≡ ite (d.dec x y) true (contains y xs)
  unfolding add contains
  contains-add xs x y = ground (arith, contains-append y xs (x ∷ []))

members-join :
    (c : Connection) (ch : Text) (s : PubSubManager) (c' : Connection) (ch' : Text)
    → contains c' (members (join_channel c ch s) ch')
      ≡ ite
          (Text-discrete ch ch')
          (ite (ℕ_discrete c c') true (contains c' (members s ch)))
          (contains c' (members s ch'))
unfolding members join_channel
members-join c ch s c' ch' = ground (
  arith,
  JsMap.get-set s.channels ch (add (members s ch) c) ch',
  contains-add (members s ch) c c',
)

channels_of-join :
    (c : Connection) (ch : Text) (s : PubSubManager) (c' : Connection) (ch' : Text)
    → contains ch' (channels_of (join_channel c ch s) c')
      ≡ ite
          (ℕ_discrete c c')
          (ite (Text-discrete ch ch') true (contains ch' (channels_of s c)))
          (contains ch' (channels_of s c'))
unfolding channels_of join_channel
channels_of-join c ch s c' ch' = ground (
  arith,
  JsMap.get-set s.connections c (add (channels_of s c) ch) c',
  contains-add (channels_of s c) ch ch',
)

pub drop_member-members :
    (m : JsMap Text (List Connection)) (c : Connection) (ch : Text) (o : Option (List Connection))
    → JsMap.get m ch ≡ o
    → (c' : Connection) (ch' : Text)
    → contains c' (or_empty (JsMap.get (drop_member o c ch m) ch'))
      ≡ ite
          (Text-discrete ch ch')
          (ite (ℕ_discrete c c') false (contains c' (or_empty (JsMap.get m ch))))
          (contains c' (or_empty (JsMap.get m ch')))
unfolding drop_member contains
drop_member-members m c ch none e c' ch' = ground arith
drop_member-members m c ch (some conns) e c' ch' =
    elim (Bool-cases (length (remove c conns) == 0)) [
      | inl last ↦ ground (
        arith,
        JsMap.get-delete m ch ch',
        contains-remove c c' conns,
        contains_none (remove c conns) c',
      )
      | inr others ↦
          ground (arith, JsMap.get-set m ch (remove c conns) ch', contains-remove c c' conns)
    ]

pub members-leave :
    (c : Connection) (ch : Text) (s : PubSubManager) (c' : Connection) (ch' : Text)
    → contains c' (members (leave_channel c ch s) ch')
      ≡ ite
          (Text-discrete ch ch')
          (ite (ℕ_discrete c c') false (contains c' (members s ch)))
          (contains c' (members s ch'))
unfolding members leave_channel
members-leave c ch s c' ch' =
    drop_member-members s.channels c ch (JsMap.get s.channels ch) refl c' ch'

pub channels_of-leave :
    (c : Connection) (ch : Text) (s : PubSubManager) (c' : Connection) (ch' : Text)
    → contains ch' (channels_of (leave_channel c ch s) c')
      ≡ ite
          (ℕ_discrete c c')
          (ite (Text-discrete ch ch') false (contains ch' (channels_of s c)))
          (contains ch' (channels_of s c'))
unfolding channels_of leave_channel
channels_of-leave c ch s c' ch' = ground (
  arith,
  JsMap.get-set s.connections c (remove ch (channels_of s c)) c',
  contains-remove ch ch' (channels_of s c),
)

join-IsMirror :
    (c : Connection) (ch : Text) (s : PubSubManager) → IsMirror s → IsMirror (join_channel c ch s)
unfolding IsMirror
join-IsMirror c ch s m c' ch' = ground (
  arith,
  members-join c ch s c' ch',
  channels_of-join c ch s c' ch',
  m c' ch',
  m c ch',
  m c' ch,
  m c ch,
)

pub leave-IsMirror :
    (c : Connection) (ch : Text) (s : PubSubManager) → IsMirror s → IsMirror (leave_channel c ch s)
unfolding IsMirror
leave-IsMirror c ch s m c' ch' = ground (
  arith,
  members-leave c ch s c' ch',
  channels_of-leave c ch s c' ch',
  m c' ch',
  m c ch',
  m c' ch,
  m c ch,
)

-- Whether a connection is subscribed to a channel.
abbrev pub subscribed : PubSubManager → Connection → Text → Bool
subscribed s c ch = contains ch (channels_of s c)

subscribe_loop_lem :
    (c : Connection) (chs replies : List Text) (s : PubSubManager) (c' : Connection) (ch' : Text)
    → subscribed (subscribe_loop c chs replies s).1 c' ch'
      ≡ ite (ℕ_discrete c c') (contains ch' chs || subscribed s c ch') (subscribed s c' ch')
unfolding subscribe_loop contains
subscribe_loop_lem c [] replies s c' ch' = ground arith
subscribe_loop_lem c (ch ∷ chs) replies s c' ch' =
    subscribe_loop_lem c chs _ (join_channel c ch s) c' ch'
    ∙ ground (arith, channels_of-join c ch s c' ch', channels_of-join c ch s c ch')

subscribe_loop-IsMirror :
    (c : Connection) (chs replies : List Text) (s : PubSubManager)
    → IsMirror s
    → IsMirror (subscribe_loop c chs replies s).1
unfolding subscribe_loop
subscribe_loop-IsMirror c [] replies s m = m
subscribe_loop-IsMirror c (ch ∷ chs) replies s m =
    subscribe_loop-IsMirror c chs _ (join_channel c ch s) (join-IsMirror c ch s m)

open_set_lem :
    (c : Connection) (s : PubSubManager) (c' : Connection) (ch' : Text)
    → subscribed (open_set c s) c' ch' ≡ subscribed s c' ch'
unfolding open_set channels_of contains
open_set_lem c s c' ch' =
    ground (arith, JsMap.get-set s.connections c [] c', JsMap.has-get s.connections c)

open_set-members :
    (c : Connection) (s : PubSubManager) (ch : Text) → members (open_set c s) ch ≡ members s ch
unfolding open_set members
open_set-members c s ch = ground arith

open_set-IsMirror : (c : Connection) (s : PubSubManager) → IsMirror s → IsMirror (open_set c s)
unfolding IsMirror
open_set-IsMirror c s m c' ch' =
    ap (contains c') (open_set-members c s ch') ∙ m c' ch' ∙ sym (open_set_lem c s c' ch')

-- Subscribing keeps the two maps mirrors of each other: a connection is in the set of a channel
-- exactly if the channel is in the set of the connection.
pub subscribe-IsMirror :
    (c : Connection) (chs : List Text) (s : PubSubManager)
    → IsMirror s
    → IsMirror (subscribe c chs s).1
unfolding subscribe
subscribe-IsMirror c chs s m =
    subscribe_loop-IsMirror c chs [] (open_set c s) (open_set-IsMirror c s m)

-- Subscribing a connection to channels adds those subscriptions to its own and changes no other.
pub subscribe_lem :
    (c : Connection) (chs : List Text) (s : PubSubManager) (c' : Connection) (ch' : Text)
    → subscribed (subscribe c chs s).1 c' ch'
      ≡ ite (ℕ_discrete c c') (contains ch' chs || subscribed s c ch') (subscribed s c' ch')
unfolding subscribe
subscribe_lem c chs s c' ch' =
    subscribe_loop_lem c chs [] (open_set c s) c' ch'
    ∙ ground (arith, open_set_lem c s c' ch', open_set_lem c s c ch')
