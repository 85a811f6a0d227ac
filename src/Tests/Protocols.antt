-- ===== src/Tests/Protocols.antt =====
-- The protocol on a few lines.
use mini_store.Prelude.{◌≡◌, refl, some, [], ◌∷◌, ◌++◌, arith, List, ℕ, Text}
use mini_store.Protocol.Command.{codes, Command, ok}
use mini_store.Protocol.Tokens.{is_space}
use mini_store.Protocol.Words.{all_words, is_word, unbroken}
use mini_store.Protocol.Decimal.{decimal}
use mini_store.Protocol.Parser.{parse_command}
use mini_store.Protocol.Rendering.{render, InRange, args_of, flatten}
use mini_store.Protocol.RoundTrip.{parse_command-render}
use mini_store.Protocol.Accepted.{parse_command-InRange}
use mini_store.Protocol.ReplyParser
use mini_store.Protocol.ReplyParser.{buffer_of}
use mini_store.Protocol.Chunks.{append-append}

-- HSET k f v
abbrev sample : Command
sample = Command.hset (codes "k") ((codes "f", codes "v") ∷ [])

parse_command-render_example : parse_command (render sample) ≡ ok sample
unfolding all_words args_of flatten is_word unbroken is_space
parse_command-render_example = parse_command-render sample refl refl

abbrev in_range : Command
in_range = Command.set (codes "k") (codes "v") (some 60)

accepted : parse_command (render in_range) ≡ ok in_range
unfolding all_words args_of decimal is_word unbroken is_space
accepted = parse_command-render in_range (omega arith, omega arith) refl

parse_command-InRange_example : InRange in_range
parse_command-InRange_example = parse_command-InRange (render in_range) in_range accepted

-- Bytes below 128, each of which is a character.
abbrev ascii : List ℕ → Text
ascii bytes = bytes

append-append_example :
    ReplyParser.append ascii
      (buffer_of (codes "K" ++ b'\r' ∷ b'\n' ∷ []))
      (ReplyParser.append ascii (buffer_of (codes "+O")) ReplyParser.empty)
    ≡ ReplyParser.append ascii
        (buffer_of (codes "+O" ++ (codes "K" ++ b'\r' ∷ b'\n' ∷ [])))
        ReplyParser.empty
append-append_example =
    append-append ascii (codes "+O") (codes "K" ++ b'\r' ∷ b'\n' ∷ []) ReplyParser.empty refl
