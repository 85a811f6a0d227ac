-- ===== src/Protocol/Tokens.antt =====
-- The words of a line: `line.trim().split(/\s+/).filter((t) => t.length > 0)` of CommandParser.ts, and
-- `toUpperCase` as far as it matters there.
use mini_store.Prelude.{
  ℕ, ◌-◌, Bool, false, ◌&&◌, ◌||◌, List, [], ◌∷◌, ◌++◌, leb, ◌==◌, if◌then◌else◌, Text,
}

-- What `\s` matches and `trim` removes: the white space and line terminators of the language.
unfoldable pub is_space : ℕ → Bool
is_space c =
    (leb 9 c && leb c 13)
    || c == 32
    || c == 0xA0
    || c == 0x1680
    || (leb 0x2000 c && leb c 0x200A)
    || c == 0x2028
    || c == 0x2029
    || c == 0x202F
    || c == 0x205F
    || c == 0x3000
    || c == 0xFEFF

unfoldable pub trim_start : Text → Text
trim_start [] = []
trim_start (c ∷ t) = if is_space c then trim_start t else c ∷ t

abbrev pub unless_blank : ℕ → Text → Text
unless_blank c [] = if is_space c then [] else c ∷ []
unless_blank c (d ∷ t) = c ∷ d ∷ t

unfoldable pub trim_end : Text → Text
trim_end [] = []
trim_end (c ∷ t) = unless_blank c (trim_end t)

unfoldable pub trim : Text → Text
unfolding trim_start trim_end
trim t = trim_end (trim_start t)

abbrev pub starts_blank : Text → Bool
starts_blank [] = false
starts_blank (c ∷ t) = is_space c

-- The pieces between the runs of white space: the first one, and the others.
unfoldable pub pieces : Text → Text × List Text
pieces [] = ([], [])
pieces (c ∷ t) =
    let (piece, rest) = pieces t in
    if is_space c
    then (if starts_blank t then (piece, rest) else ([], piece ∷ rest))
    else (c ∷ piece, rest)

unfoldable pub split : Text → List Text
unfolding pieces
split t = let (piece, rest) = pieces t in piece ∷ rest

unfoldable pub non_empty : List Text → List Text
non_empty [] = []
non_empty ([] ∷ ts) = non_empty ts
non_empty ((c ∷ t) ∷ ts) = (c ∷ t) ∷ non_empty ts

unfoldable pub tokens : Text → List Text
unfolding trim split non_empty
tokens line = non_empty (split (trim line))

-- `toUpperCase` on one code unit. It is exact where the upper case is made of ASCII characters: for
-- the small letters, dotless i, long s, sharp s and the Latin ligatures. Any other is kept, which
-- comes to the same where the result is compared with words of ASCII letters.
unfoldable pub upper_unit : ℕ → Text
upper_unit c =
    if leb b'a' c && leb c b'z'
    then (c - 32) ∷ []
    else if c == 0x131
    then b'I' ∷ []
    else if c == 0x17F
    then b'S' ∷ []
    else if c == 0xDF
    then b'S' ∷ b'S' ∷ []
    else if c == 0xFB00
    then b'F' ∷ b'F' ∷ []
    else if c == 0xFB01
    then b'F' ∷ b'I' ∷ []
    else if c == 0xFB02
    then b'F' ∷ b'L' ∷ []
    else if c == 0xFB03
    then b'F' ∷ b'F' ∷ b'I' ∷ []
    else if c == 0xFB04
    then b'F' ∷ b'F' ∷ b'L' ∷ []
    else if c == 0xFB05 || c == 0xFB06
    then b'S' ∷ b'T' ∷ []
    else c ∷ []

unfoldable pub to_upper_case : Text → Text
unfolding upper_unit
to_upper_case [] = []
to_upper_case (c ∷ t) = upper_unit c ++ to_upper_case t
