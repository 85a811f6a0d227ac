-- ===== src/Tests/Trackers.antt =====
-- `LRUTracker` and `ExpiryManager` on small examples.
use mini_store.Prelude.{◌≡◌, ◌&&◌, some, [], ◌∷◌, Text, text_keyed, contains, remove}
use mini_store.Expiry
use mini_store.Expiry.{ExpiryManager}
use mini_store.Expiry.Validity
use mini_store.Expiry.Sweep
use mini_store.Lru
use mini_store.Lru.{LruTracker}
use mini_store.Lru.Order.{Tracks}
use mini_store.Lru.Recency

abbrev a : Text
a = b'a' ∷ []

abbrev b : Text
b = b'b' ∷ []

abbrev one : LruTracker
one = Lru.touch Lru.empty a

abbrev two : LruTracker
two = Lru.touch one b

one-Tracks : Tracks one (a ∷ remove a [])
one-Tracks = Recency.touch-Tracks Lru.empty [] Recency.Tracks-empty a

two-Tracks : Tracks two (b ∷ remove b (a ∷ remove a []))
two-Tracks = Recency.touch-Tracks one (a ∷ remove a []) one-Tracks b

touch-Tracks_example : Tracks (Lru.touch two a) (a ∷ remove a (b ∷ remove b (a ∷ remove a [])))
touch-Tracks_example = Recency.touch-Tracks two (b ∷ remove b (a ∷ remove a [])) two-Tracks a

keys_mru-some_example : Lru.keys_mru two ≡ some (b ∷ remove b (a ∷ remove a []))
keys_mru-some_example = Recency.keys_mru-some two (b ∷ remove b (a ∷ remove a [])) two-Tracks

-- `a` with a deadline at 10, `b` with one at 20.
abbrev timed : ExpiryManager
timed = Expiry.set (Expiry.set Expiry.empty a 10) b 20

timed-IsValid : Validity.IsValid timed
timed-IsValid =
    Validity.set-IsValid (Expiry.set Expiry.empty a 10) b 20
      (Validity.set-IsValid Expiry.empty a 10 Validity.empty-IsValid)

set-IsValid_example : Validity.IsValid (Expiry.set timed a 30)
set-IsValid_example = Validity.set-IsValid timed a 30 timed-IsValid

contains-collect_expired_example :
    contains a (Expiry.collect_expired timed 15 1).0
    ≡ (Sweep.in_reach timed a 1 && Expiry.is_expired timed a 15)
contains-collect_expired_example = Sweep.contains-collect_expired timed 15 1 timed-IsValid a
