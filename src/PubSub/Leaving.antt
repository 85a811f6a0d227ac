-- ===== src/PubSub/Leaving.antt =====
-- Unsubscribing and disconnecting.
use mini_store.Prelude.{
  inr, inl, ◌≡◌, ◌∙◌, refl, sym, ap, ite, Bool, true, false, not, ◌&&◌, Option, none, some, List,
  [], ◌∷◌, arith, length, ◌==◌, Text, ℕ_discrete, text_keyed, ref_keyed, contains, Bool-cases,
  Option-cases,
}
use mini_store.JsMap
use mini_store.JsMap.{JsMap}
use mini_store.PubSub.{
  Connection, PubSubManager, or_empty, chosen, members, channels_of, leave_channel,
  unsubscribe_loop, close_set, unsubscribe_from, unsubscribe, remove_loop, remove_from,
  remove_connection,
}
use mini_store.PubSub.Mirror.{
  IsMirror, subscribed, contains_none, drop_member-members, channels_of-leave, leave-IsMirror,
}

unsubscribe_loop_lem :
    (c : Connection) (chs replies : List Text) (s : PubSubManager) (c' : Connection) (ch' : Text)
    → subscribed (unsubscribe_loop c chs replies s).1 c' ch'
      ≡ ite (ℕ_discrete c c') (not (contains ch' chs) && subscribed s c ch') (subscribed s c' ch')
unfolding unsubscribe_loop contains
unsubscribe_loop_lem c [] replies s c' ch' = ground arith
unsubscribe_loop_lem c (ch ∷ chs) replies s c' ch' =
    unsubscribe_loop_lem c chs _ (leave_channel c ch s) c' ch'
    ∙ ground (arith, channels_of-leave c ch s c' ch', channels_of-leave c ch s c ch')

unsubscribe_loop-IsMirror :
    (c : Connection) (chs replies : List Text) (s : PubSubManager)
    → IsMirror s
    → IsMirror (unsubscribe_loop c chs replies s).1
unfolding unsubscribe_loop
unsubscribe_loop-IsMirror c [] replies s m = m
unsubscribe_loop-IsMirror c (ch ∷ chs) replies s m =
    unsubscribe_loop-IsMirror c chs _ (leave_channel c ch s) (leave-IsMirror c ch s m)

close_set_lem :
    (c : Connection) (s : PubSubManager) (c' : Connection) (ch' : Text)
    → subscribed (close_set c s) c' ch' ≡ subscribed s c' ch'
unfolding close_set channels_of contains
close_set_lem c s c' ch' = elim (Bool-cases (length (or_empty (JsMap.get s.connections c)) == 0)) [
  | inl done ↦ ground (
    arith,
    JsMap.get-delete s.connections c c',
    contains_none (or_empty (JsMap.get s.connections c)) ch',
  )
  | inr others ↦ ground arith
]

close_set-members :
    (c : Connection) (s : PubSubManager) (ch : Text) → members (close_set c s) ch ≡ members s ch
unfolding close_set members
close_set-members c s ch = ground arith

close_set-IsMirror : (c : Connection) (s : PubSubManager) → IsMirror s → IsMirror (close_set c s)
unfolding IsMirror
close_set-IsMirror c s m c' ch' =
    ap (contains c') (close_set-members c s ch') ∙ m c' ch' ∙ sym (close_set_lem c s c' ch')

-- UNSUBSCRIBE without channels is for all of them.
abbrev pub leaves : List Text → Text → Bool
leaves [] ch = true
leaves (x ∷ chs) ch = contains ch (x ∷ chs)

-- Unsubscribing keeps the two maps mirrors of each other.
pub unsubscribe-IsMirror :
    (c : Connection) (chs : List Text) (s : PubSubManager)
    → IsMirror s
    → IsMirror (unsubscribe c chs s).1
unfolding unsubscribe unsubscribe_from
unsubscribe-IsMirror c chs s m = elim (Option-cases (JsMap.get s.connections c)) [
  | inl never ↦ rw never m
  | inr (subs, e) ↦
      rw e (close_set-IsMirror c _ (unsubscribe_loop-IsMirror c (chosen chs subs) [] s m))
]

picks :
    (chs subs : List Text) (c : Connection) (s : PubSubManager) (ch : Text)
    → JsMap.get s.connections c ≡ some subs
    → (not (contains ch (chosen chs subs)) && subscribed s c ch)
      ≡ (not (leaves chs ch) && subscribed s c ch)
unfolding channels_of
picks [] subs c s ch e = ground arith
picks (x ∷ chs) subs c s ch e = refl

nothing :
    (c : Connection) (s : PubSubManager) (ch : Text)
    → JsMap.get s.connections c ≡ none
    → subscribed s c ch ≡ false
unfolding channels_of contains
nothing c s ch never = ground arith

unsubscribe_from_lem :
    (o : Option (List Text)) (c : Connection) (chs : List Text) (s : PubSubManager)
    (c' : Connection) (ch' : Text)
    → JsMap.get s.connections c ≡ o
    → subscribed (unsubscribe_from o c chs s).1 c' ch'
      ≡ ite (ℕ_discrete c c') (not (leaves chs ch') && subscribed s c ch') (subscribed s c' ch')
unfolding unsubscribe_from
unsubscribe_from_lem none c chs s c' ch' e = ground (arith, nothing c s ch')
unsubscribe_from_lem (some subs) c chs s c' ch' e =
    close_set_lem c (unsubscribe_loop c (chosen chs subs) [] s).1 c' ch'
    ∙ unsubscribe_loop_lem c (chosen chs subs) [] s c' ch'
    ∙ ground (arith, picks chs subs c s ch' e)

-- Unsubscribing a connection takes away the subscriptions that are named, or all of its own
-- where none is named, and no other.
pub unsubscribe_lem :
    (c : Connection) (chs : List Text) (s : PubSubManager) (c' : Connection) (ch' : Text)
    → subscribed (unsubscribe c chs s).1 c' ch'
      ≡ ite (ℕ_discrete c c') (not (leaves chs ch') && subscribed s c ch') (subscribed s c' ch')
unfolding unsubscribe
unsubscribe_lem c chs s c' ch' =
    unsubscribe_from_lem (JsMap.get s.connections c) c chs s c' ch' refl

remove_loop-members :
    (c : Connection) (chs : List Text) (s : PubSubManager) (c' : Connection) (ch' : Text)
    → contains c' (members (remove_loop c chs s) ch')
      ≡ ite
          (ℕ_discrete c c')
          (not (contains ch' chs) && contains c (members s ch'))
          (contains c' (members s ch'))
unfolding remove_loop contains members
remove_loop-members c [] s c' ch' = ground arith
remove_loop-members c (ch ∷ chs) s c' ch' =
    remove_loop-members c chs _ c' ch'
    ∙ ground (
      arith,
      drop_member-members s.channels c ch (JsMap.get s.channels ch) refl c' ch',
      drop_member-members s.channels c ch (JsMap.get s.channels ch) refl c ch',
    )

remove_loop-connections :
    (c : Connection) (chs : List Text) (s : PubSubManager)
    → (remove_loop c chs s).connections ≡ s.connections
unfolding remove_loop
remove_loop-connections c [] s = refl
remove_loop-connections c (ch ∷ chs) s = remove_loop-connections c chs _

members_left :
    (c : Connection) (s : PubSubManager)
    → IsMirror s
    → (c' : Connection) (ch' : Text)
    → contains c' (members (remove_connection c s) ch')
      ≡ ite (ℕ_discrete c c') false (subscribed s c' ch')
unfolding IsMirror remove_connection remove_from channels_of contains members ℕ_discrete
members_left c s m c' ch' = elim (Option-cases (JsMap.get s.connections c)) [
  | inl never ↦ rw never (ground (arith, m c' ch', m c ch'))
  | inr (subs, e) ↦ rw e (remove_loop-members c subs s c' ch' ∙ ground (arith, m c' ch', m c ch'))
]

-- Removing a connection takes away all its subscriptions and no other.
pub remove_connection_lem :
    (c : Connection) (s : PubSubManager) (c' : Connection) (ch' : Text)
    → subscribed (remove_connection c s) c' ch' ≡ ite (ℕ_discrete c c') false (subscribed s c' ch')
unfolding remove_connection remove_from channels_of contains
remove_connection_lem c s c' ch' = elim (Option-cases (JsMap.get s.connections c)) [
  | inl never ↦ rw never (ground arith)
  | inr (subs, e) ↦ rw e (
      ap
        (λ (m : JsMap Connection (List Text)).
          contains ch' (or_empty (JsMap.get (JsMap.delete m c) c')))
        (remove_loop-connections c subs s)
      ∙ ground (arith, JsMap.get-delete s.connections c c'))
]

-- Removing a connection keeps the two maps mirrors of each other.
pub remove_connection-IsMirror :
    (c : Connection) (s : PubSubManager) → IsMirror s → IsMirror (remove_connection c s)
unfolding IsMirror
remove_connection-IsMirror c s m c' ch' =
    members_left c s m c' ch' ∙ sym (remove_connection_lem c s c' ch')
