-- ===== src/Store/Glob.antt =====
-- The patterns of KEYS. `keys` of InMemoryStore.ts escapes every character that a regular expression
-- reads, puts `.*` for each `*`, and anchors the result at both ends; without the `u` flag the
-- expression walks code units, and `.` takes any but a line terminator.
use mini_store.Prelude.{
  ℕ, Bool, true, false, not, ◌&&◌, ◌||◌, List, [], ◌∷◌, ◌==◌, if◌then◌else◌, Text,
}

pub data Atom : Type 0 where
  literal : ℕ → Atom
  any_run : Atom

-- The atoms of the expression: an escaped character stands for itself.
unfoldable pub compile : Text → List Atom
compile [] = []
compile (c ∷ pattern) = (if c == b'*' then any_run else literal c) ∷ compile pattern

-- \n, \r, U+2028 and U+2029, which `.` does not match
unfoldable pub line_terminator : ℕ → Bool
line_terminator c = c == 10 || c == 13 || c == 0x2028 || c == 0x2029

-- Whether some split of `text` makes `.*` and then `rest` match it.
unfoldable pub after_run : (Text → Bool) → Text → Bool
after_run rest [] = rest []
after_run rest (c ∷ text) = rest (c ∷ text) || (not (line_terminator c) && after_run rest text)

-- `regex.test(text)`, for the anchored expression
unfoldable pub test : List Atom → Text → Bool
unfolding after_run line_terminator
test [] [] = true
test [] (c ∷ text) = false
test (literal a ∷ atoms) [] = false
test (literal a ∷ atoms) (c ∷ text) = (a == c) && test atoms text
test (any_run ∷ atoms) text = after_run (test atoms) text
