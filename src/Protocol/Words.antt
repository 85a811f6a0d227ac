-- ===== src/Protocol/Words.antt =====
-- About `tokens`: the words of a line, and words joined by spaces.
use mini_store.Prelude.{
  ◌≡◌, ◌∙◌, refl, ap, Bool, true, false, not, ◌&&◌, List, [], ◌∷◌, ◌++◌, arith, Text,
}
use mini_store.Protocol.Tokens.{
  is_space, trim, trim_start, trim_end, unless_blank, starts_blank, pieces, split, non_empty,
  tokens,
}

-- No white space in it.
unfoldable pub unbroken : Text → Bool
unbroken [] = true
unbroken (c ∷ t) = not (is_space c) && unbroken t

unfoldable pub is_word : Text → Bool
unfolding unbroken
is_word [] = false
is_word (c ∷ t) = unbroken (c ∷ t)

unfoldable pub all_words : List Text → Bool
unfolding is_word
all_words [] = true
all_words (w ∷ ws) = is_word w && all_words ws

unfoldable pub join : List Text → Text
join [] = []
join (w ∷ []) = w
join (w ∷ v ∷ ws) = w ++ b' ' ∷ join (v ∷ ws)

pieces-append :
    (w t : Text) → unbroken w ≡ true → pieces (w ++ t) ≡ (w ++ (pieces t).0, (pieces t).1)
unfolding unbroken pieces
pieces-append [] t h = refl
pieces-append (c ∷ w) t h = ground (arith, pieces-append w t)

starts_blank-join :
    (w : Text) (ws : List Text) → is_word w ≡ true → starts_blank (join (w ∷ ws)) ≡ false
unfolding is_word unbroken join
starts_blank-join [] ws h = absurd (ground arith)
starts_blank-join (c ∷ w) [] h = ground arith
starts_blank-join (c ∷ w) (v ∷ ws) h = ground arith

trim_start-join :
    (w : Text) (ws : List Text) → is_word w ≡ true → trim_start (join (w ∷ ws)) ≡ join (w ∷ ws)
unfolding is_word unbroken join trim_start
trim_start-join [] ws h = absurd (ground arith)
trim_start-join (c ∷ w) [] h = ground arith
trim_start-join (c ∷ w) (v ∷ ws) h = ground arith

trim_end-unbroken : (w t : Text) → unbroken w ≡ true → trim_end t ≡ t → trim_end (w ++ t) ≡ w ++ t
unfolding unbroken trim_end
trim_end-unbroken [] t h e = e
trim_end-unbroken (c ∷ w) t h e = ground (arith, trim_end-unbroken w t)

trim_end-word : (w : Text) → unbroken w ≡ true → trim_end w ≡ w
unfolding unbroken trim_end
trim_end-word [] h = refl
trim_end-word (c ∷ []) h = ground arith
trim_end-word (c ∷ d ∷ w) h = ground (arith, trim_end-word (d ∷ w))

word-unbroken : (w : Text) → is_word w ≡ true → unbroken w ≡ true
unfolding is_word
word-unbroken [] h = absurd (ground arith)
word-unbroken (c ∷ w) h = h

unless_blank-join :
    (w : Text) (ws : List Text)
    → is_word w ≡ true
    → unless_blank b' ' (join (w ∷ ws)) ≡ b' ' ∷ join (w ∷ ws)
unfolding is_word join
unless_blank-join [] ws h = absurd (ground arith)
unless_blank-join (c ∷ w) [] h = refl
unless_blank-join (c ∷ w) (v ∷ ws) h = refl

trim_end-join :
    (w : Text) (ws : List Text)
    → all_words (w ∷ ws) ≡ true
    → trim_end (join (w ∷ ws)) ≡ join (w ∷ ws)
unfolding all_words is_word join trim_end
trim_end-join w [] h = trim_end-word w (word-unbroken w (ground arith))
trim_end-join w (v ∷ ws) h =
    trim_end-unbroken w (b' ' ∷ join (v ∷ ws)) (word-unbroken w (ground arith)) (
      ap (unless_blank b' ') (trim_end-join v ws (ground arith))
      ∙ unless_blank-join v ws (ground arith))

pieces-word : (w : Text) → unbroken w ≡ true → pieces w ≡ (w, [])
unfolding unbroken pieces
pieces-word [] h = refl
pieces-word (c ∷ w) h = ground (arith, pieces-word w)

append-nil : (w : Text) → w ++ [] ≡ w
append-nil [] = refl
append-nil (c ∷ w) = ap (λ (t : Text). c ∷ t) (append-nil w)

is_space-space : is_space b' ' ≡ true
unfolding is_space
is_space-space = refl

pieces-join :
    (w : Text) (ws : List Text) → all_words (w ∷ ws) ≡ true → pieces (join (w ∷ ws)) ≡ (w, ws)
unfolding all_words join pieces
pieces-join w [] h = pieces-word w (word-unbroken w (ground arith))
pieces-join w (v ∷ ws) h =
    pieces-append w (b' ' ∷ join (v ∷ ws)) (word-unbroken w (ground arith))
    ∙ ground (arith, pieces-join v ws, starts_blank-join v ws, append-nil w, is_space-space)

non_empty-words : (ws : List Text) → all_words ws ≡ true → non_empty ws ≡ ws
unfolding all_words is_word non_empty
non_empty-words [] h = refl
non_empty-words ([] ∷ ws) h = absurd (ground arith)
non_empty-words ((c ∷ w) ∷ ws) h = ground (arith, non_empty-words ws)

-- Words joined by single spaces are split into the same words, if there is at least one and each
-- has characters, none of them white space.
pub tokens-join :
    (w : Text) (ws : List Text) → all_words (w ∷ ws) ≡ true → tokens (join (w ∷ ws)) ≡ w ∷ ws
unfolding tokens trim split all_words
tokens-join w ws h =
    ap (λ (t : Text). non_empty (split (trim_end t))) (trim_start-join w ws (ground arith))
    ∙ ap (λ (t : Text). non_empty (split t)) (trim_end-join w ws h)
    ∙ ap (λ (p : Text × List Text). non_empty (p.0 ∷ p.1)) (pieces-join w ws h)
    ∙ non_empty-words (w ∷ ws) h

non_empty-piece :
    (p : Text) (ps : List Text)
    → unbroken p ≡ true
    → all_words (non_empty ps) ≡ true
    → all_words (non_empty (p ∷ ps)) ≡ true
unfolding unbroken is_word non_empty all_words
non_empty-piece [] ps h hs = hs
non_empty-piece (c ∷ p) ps h hs = ground arith

pieces-words :
    (t : Text) → (unbroken (pieces t).0 ≡ true) × (all_words (non_empty (pieces t).1) ≡ true)
unfolding unbroken pieces non_empty all_words
pieces-words [] = (refl, refl)
pieces-words (c ∷ t) =
    let (first, others) = pieces-words t in
    (ground arith, ground (arith, non_empty-piece (pieces t).0 (pieces t).1))

-- Each token of any line has characters, and none of them is white space.
pub tokens-words : (line : Text) → all_words (tokens line) ≡ true
unfolding tokens split
tokens-words line =
    let (first, others) = pieces-words (trim line) in
    non_empty-piece (pieces (trim line)).0 (pieces (trim line)).1 first others
