-- ===== src/Tests/Channels.antt =====
-- Two connections, 1 and 2, on the channels `news` and `work`.
use mini_store.Prelude.{
  refl, [], ◌∷◌, Text, Text-discrete, ℕ_discrete, text_keyed, ref_keyed, contains,
}
use mini_store.Protocol.Command.{codes}
use mini_store.JsMap
use mini_store.PubSub
use mini_store.PubSub.{PubSubManager, members, channels_of, deliver}
use mini_store.PubSub.Mirror.{IsMirror, subscribe-IsMirror}
use mini_store.PubSub.Leaving.{unsubscribe-IsMirror, remove_connection-IsMirror}
use mini_store.PubSub.Publishing.{Publishes, publish_lem}

abbrev news : Text
news = codes "news"

abbrev work : Text
work = codes "work"

abbrev one : PubSubManager
one = (PubSub.subscribe 1 (news ∷ work ∷ []) PubSub.empty).1

abbrev both : PubSubManager
both = (PubSub.subscribe 2 (news ∷ []) one).1

empty-IsMirror : IsMirror PubSub.empty
unfolding IsMirror members channels_of contains Text-discrete ℕ_discrete JsMap.get
empty-IsMirror c ch = refl

both-IsMirror : IsMirror both
both-IsMirror =
    subscribe-IsMirror 2 (news ∷ []) one
      (subscribe-IsMirror 1 (news ∷ work ∷ []) PubSub.empty empty-IsMirror)

subscribe-IsMirror_example : IsMirror (PubSub.subscribe 2 (work ∷ []) both).1
subscribe-IsMirror_example = subscribe-IsMirror 2 (work ∷ []) both both-IsMirror

unsubscribe-IsMirror_example : IsMirror (PubSub.unsubscribe 1 [] both).1
unsubscribe-IsMirror_example = unsubscribe-IsMirror 1 [] both both-IsMirror

remove_connection-IsMirror_example : IsMirror (PubSub.remove_connection 1 both)
remove_connection-IsMirror_example = remove_connection-IsMirror 1 both both-IsMirror

publish_lem_example : Publishes news work both (PubSub.publish news work both)
publish_lem_example = publish_lem news work both both-IsMirror
