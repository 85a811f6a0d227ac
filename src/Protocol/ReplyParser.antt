-- ===== src/Protocol/ReplyParser.antt =====
-- `ReplyParser` (protocol/src/ReplyParser.ts): the client's side. What it emits is a list of events.
use mini_store.Prelude.{
  ℕ, zero, suc, ite, Bool, true, false, ◌&&◌, Option, none, some, List, [], ◌∷◌, ◌++◌, length, ◌==◌,
  if◌then◌else◌, ℤ, pos, Text, Text-discrete,
}
use mini_store.Protocol.Command.{codes}
use mini_store.Protocol.Numbers.{is_digit, value_from, negative}
use mini_store.Protocol.Tokens.{trim_start}

-- `none` as an item or a bulk value is `null`; `none` as an integer is NaN.
pub data Reply : Type 0 where
  success : Text → Reply
  bulk : Option Text → Reply
  integer : Option ℤ → Reply
  array : List (Option Text) → Reply
  error : Text → Reply

pub data Emitted : Type 0 where
  reply push : Reply → Emitted
  unknown_prefix : ℕ → Emitted

pub record ReplyParser : Type 0 where
  pub buffer : Text
  pub parsing_array : Bool
  -- the length that the header gave, `none` for NaN
  pub array_length : Option ℤ
  pub array_items : List (Option Text)
  pub emitted : List Emitted

abbrev pub empty : ReplyParser
empty = record {
  buffer = [];
  parsing_array = false;
  array_length = some (pos 0);
  array_items = [];
  emitted = [];
}

-- `parseInt(text, 10)`: blanks, a sign, and the digits up to the first other character.
unfoldable pub leading_digits : Text → Text
unfolding is_digit
leading_digits [] = []
leading_digits (c ∷ t) = if is_digit c then c ∷ leading_digits t else []

unfoldable pub parse_digits : (ℕ → ℤ) → Text → Option ℤ
parse_digits make [] = none
parse_digits make (c ∷ t) = some (make (value_from 0 (c ∷ t)))

unfoldable pub parse_sign : Text → Option ℤ
unfolding parse_digits leading_digits value_from
parse_sign [] = none
parse_sign (c ∷ t) =
    if c == b'-'
    then parse_digits negative (leading_digits t)
    else if c == b'+'
    then parse_digits pos (leading_digits t)
    else parse_digits pos (leading_digits (c ∷ t))

unfoldable pub parse_int : Text → Option ℤ
unfolding parse_sign
parse_int text = parse_sign (trim_start text)

abbrev pub tail_of : Text → Text
tail_of [] = []
tail_of (c ∷ t) = t

unfoldable pub parse_bulk_line : Text → Option Text
parse_bulk_line line = ite (Text-discrete line (codes "$(nil)")) none (some (tail_of line))

-- `reply.items[0]` is one of the three words.
abbrev pub is_push_word : Text → Bool
is_push_word w = ite (Text-discrete w (codes "message")) true (
    ite (Text-discrete w (codes "subscribe")) true
      (ite (Text-discrete w (codes "unsubscribe")) true false))

unfoldable pub is_push : List (Option Text) → Bool
is_push [] = false
is_push (none ∷ items) = false
is_push (some w ∷ items) = is_push_word w

abbrev pub emit : Emitted → ReplyParser → ReplyParser
emit e p = record p { emitted = p.emitted ++ e ∷ [] }

abbrev pub same_length : ℕ → Option ℤ → Bool
same_length n (some (pos m)) = n == m
same_length n _ = false

unfoldable pub end_item : List (Option Text) → ReplyParser → ReplyParser
unfolding is_push
end_item items p =
    if same_length (length items) p.array_length
    then emit (if is_push items then push (Reply.array items) else reply (Reply.array items))
        (record p { parsing_array = false; array_items = []; array_length = some (pos 0) })
    else record p { array_items = items }

unfoldable pub is_zero : Option ℤ → Bool
is_zero (some (pos zero)) = true
is_zero _ = false

abbrev pub start_array : Option ℤ → ReplyParser → ReplyParser
start_array n p =
    if is_zero n
    then emit (reply (Reply.array [])) p
    else record p { parsing_array = true; array_length = n; array_items = [] }

-- The switch on the prefix.
unfoldable pub process_prefix : ℕ → Text → ReplyParser → ReplyParser
unfolding parse_int parse_bulk_line is_zero
process_prefix prefix rest p =
    if prefix == b'+'
    then emit (reply (Reply.success rest)) p
    else if prefix == b'-'
    then emit (reply (Reply.error rest)) p
    else if prefix == b':'
    then emit (reply (Reply.integer (parse_int rest))) p
    else if prefix == b'$'
    then emit (reply (Reply.bulk (parse_bulk_line (prefix ∷ rest)))) p
    else if prefix == b'*'
    then start_array (parse_int rest) p
    else emit (unknown_prefix prefix) p

unfoldable pub process_line : Text → ReplyParser → ReplyParser
unfolding process_prefix end_item parse_bulk_line
process_line line p =
    if p.parsing_array
    then end_item (p.array_items ++ parse_bulk_line line ∷ []) p
    else outside line
  where
    outside : Text → ReplyParser
    outside [] = p
    outside (prefix ∷ rest) = process_prefix prefix rest p

-- `indexOf('\r\n')` with the two slices: the text before the first CRLF and the text behind it.
unfoldable pub cut_line : Text → Option (Text × Text)
cut_line [] = none
cut_line (c ∷ []) = none
cut_line (c ∷ d ∷ t) =
    let rest = cut_line (d ∷ t) in
    if (c == b'\r') && (d == b'\n')
    then some ([], t)
    else elim rest [ none ↦ none | some (line, behind) ↦ some (c ∷ line, behind) ]

-- The loop of `#pump`, on as much fuel as the buffer has code units: each turn takes two or more.
unfoldable pub pump : ℕ → ReplyParser → ReplyParser
unfolding cut_line process_line
pump zero p = p
pump (suc fuel) p = elim (cut_line p.buffer) [
  | none ↦ p
  | some (line, behind) ↦ pump fuel (process_line line (record p { buffer = behind }))
]

unfoldable pub append_text : Text → ReplyParser → ReplyParser
unfolding pump
append_text chunk p =
    let buffer = p.buffer ++ chunk in pump (length buffer) (record p { buffer = buffer })

-- `string | Buffer`
pub data Chunk : Type 0 where
  string : Text → Chunk
  buffer_of : (bytes : List ℕ) → Chunk

-- `decode` is what `toString` makes of the bytes of a Buffer, by themselves.
abbrev pub to_string : (decode : List ℕ → Text) → Chunk → Text
to_string decode (string text) = text
to_string decode (buffer_of bytes) = decode bytes

unfoldable pub append : (decode : List ℕ → Text) → Chunk → ReplyParser → ReplyParser
unfolding append_text
append decode chunk p = append_text (to_string decode chunk) p
