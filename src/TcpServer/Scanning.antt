-- ===== src/TcpServer/Scanning.antt =====
-- About texts: their lines, and what `indexOf` finds of them.
use mini_store.Prelude.{
  ◌<◌, ◌≡◌, refl, sym, ap, inl, inr, none, some, List, [], ◌∷◌, ◌++◌, length, arith, ◌==◌,
  if◌then◌else◌, Text, Option-cases, Bool-cases,
}
use mathlib.Core.List.{append-nil, append_assoc}
use mini_store.TcpServer.{cut}

-- The lines of a text, and what stands behind the last newline; `pending` is the line so far.
unfoldable pub scan : (pending : Text) → Text → List Text × Text
scan pending [] = ([], pending)
scan pending (c ∷ t) =
    let (lines, rest) = scan [] t in
    let more = scan (pending ++ c ∷ []) t in if c == b'\n' then (pending ∷ lines, rest) else more

pub scan-none : (x pending : Text) → cut x ≡ none → scan pending x ≡ ([], pending ++ x)
unfolding cut scan
scan-none [] pending h = ap (λ (t : Text). ([], t)) (sym (append-nil pending))
scan-none (c ∷ x) pending h = elim (Bool-cases (c == b'\n')) [
  | inl ends ↦ absurd (ground arith)
  | inr goes_on ↦ elim (Option-cases (cut x)) [
    | inl stuck ↦
        ground (arith, scan-none x (pending ++ c ∷ []) stuck, append_assoc pending (c ∷ []) x)
    | inr ((line, rest), e) ↦ absurd (ground arith)
  ]
]

pub scan-some :
    (x pending line rest : Text)
    → cut x ≡ some (line, rest)
    → scan pending x ≡ ((pending ++ line) ∷ (scan [] rest).0, (scan [] rest).1)
unfolding cut scan
scan-some [] pending line rest h = absurd (ground arith)
scan-some (c ∷ x) pending line rest h = elim (Bool-cases (c == b'\n')) [
  | inl ends ↦ ground (arith, append-nil pending)
  | inr goes_on ↦ elim (Option-cases (cut x)) [
    | inl stuck ↦ absurd (ground arith)
    | inr ((l, r), e) ↦
        ground (arith, scan-some x (pending ++ c ∷ []) l r e, append_assoc pending (c ∷ []) l)
  ]
]

pub cut-length : (x line rest : Text) → cut x ≡ some (line, rest) → length rest < length x
unfolding cut
cut-length [] line rest h = absurd (ground arith)
cut-length (c ∷ x) line rest h = elim (Bool-cases (c == b'\n')) [
  | inl ends ↦ ground arith
  | inr goes_on ↦ elim (Option-cases (cut x)) [
    | inl stuck ↦ absurd (ground arith)
    | inr ((l, r), e) ↦ ground (arith, cut-length x l r e)
  ]
]

pub scan-append :
    (a b pending : Text)
    → scan pending (a ++ b)
      ≡ ((scan pending a).0 ++ (scan (scan pending a).1 b).0, (scan (scan pending a).1 b).1)
unfolding scan
scan-append [] b pending = refl
scan-append (c ∷ a) b pending = elim (Bool-cases (c == b'\n')) [
  | inl ends ↦ ground (arith, scan-append a b [])
  | inr goes_on ↦ ground (arith, scan-append a b (pending ++ c ∷ []))
]

pub scan_rest :
    (x pending : Text)
    → scan [] pending ≡ ([], pending)
    → scan [] (scan pending x).1 ≡ ([], (scan pending x).1)
unfolding scan
scan_rest [] pending h = h
scan_rest (c ∷ x) pending h = elim (Bool-cases (c == b'\n')) [
  | inl ends ↦ ground (arith, scan_rest x [] refl)
  | inr goes_on ↦
      ground
        (arith, scan_rest x (pending ++ c ∷ []) (ground (arith, scan-append pending (c ∷ []) [])))
]

abbrev pub concat : List Text → Text
concat [] = []
concat (chunk ∷ chunks) = chunk ++ concat chunks
