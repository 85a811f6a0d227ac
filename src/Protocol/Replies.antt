-- ===== src/Protocol/Replies.antt =====
-- The reply builders (protocol/src/replies.ts).
use mini_store.Prelude.{ℕ, List, [], ◌∷◌, ◌++◌, length, ℤ, Text}
use mini_store.Protocol.Command.{codes}
use mini_store.Protocol.Decimal.{decimal, decimal_ℤ}

abbrev pub crlf : Text
crlf = b'\r' ∷ b'\n' ∷ []

abbrev pub ok_reply : Text → Text
ok_reply message = b'+' ∷ message ++ crlf

abbrev pub value : Text → Text
value v = b'$' ∷ v ++ crlf

abbrev pub nil : Text
nil = codes "$(nil)" ++ crlf

unfoldable pub integer : ℤ → Text
unfolding decimal_ℤ
integer n = b':' ∷ decimal_ℤ n ++ crlf

-- The loops append their lines to the header.
unfoldable pub items_of : List Text → Text → Text
items_of [] out = out
items_of (item ∷ items) out = items_of items (out ++ value item)

unfoldable pub array : List Text → Text
unfolding items_of
array items = items_of items (b'*' ∷ decimal (length items) ++ crlf)

unfoldable pub append_all : List Text → Text → Text
append_all [] out = out
append_all (rep ∷ replies) out = append_all replies (out ++ rep)

unfoldable pub raw_array : List Text → Text
unfolding append_all
raw_array replies = append_all replies (b'*' ∷ decimal (length replies) ++ crlf)

abbrev pub error : Text → Text
error message = codes "-ERR " ++ message ++ crlf

abbrev pub wrong_type_reply : Text
wrong_type_reply =
    codes "-WRONGTYPE Operation against a key holding the wrong kind of value" ++ crlf

unfoldable pub subscribe_reply : Text → ℕ → Text
unfolding array
subscribe_reply channel count = array (codes "subscribe" ∷ channel ∷ decimal count ∷ [])

unfoldable pub unsubscribe_reply : Text → ℕ → Text
unfolding array
unsubscribe_reply channel count = array (codes "unsubscribe" ∷ channel ∷ decimal count ∷ [])

unfoldable pub push_message : Text → Text → Text
unfolding array
push_message channel message = array (codes "message" ∷ channel ∷ message ∷ [])
