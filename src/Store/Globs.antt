-- ===== src/Store/Globs.antt =====
-- About the patterns of KEYS: what it is for a text to match one, without the regular expression.
use mini_store.Prelude.{
  ℕ, ◌≡◌, ◌↔◌, ◌⊎◌, inl, inr, refl, subst, Bool, true, false, not, ◌&&◌, ◌||◌, [], ◌∷◌, ◌==◌, Text,
  Bool-cases, arith,
}
use mini_store.Store.Glob.{compile, test, after_run, line_terminator}

-- A star stands for any run of characters without line terminators, every other character for
-- itself.
pub data Matches : (pattern text : Text) → Type 0 where
  done : Matches [] []
  same :
      (c : ℕ) (pattern text : Text)
      → (c == b'*') ≡ false
      → Matches pattern text
      → Matches (c ∷ pattern) (c ∷ text)
  stop : (pattern text : Text) → Matches pattern text → Matches (b'*' ∷ pattern) text
  more :
      (c : ℕ) (pattern text : Text)
      → line_terminator c ≡ false
      → Matches (b'*' ∷ pattern) text
      → Matches (b'*' ∷ pattern) (c ∷ text)

either : (a b : Bool) → (a || b) ≡ true → (a ≡ true) ⊎ (b ≡ true)
either true b h = inl refl
either false b h = inr h

run-Matches :
    (pattern : Text)
    → ((t : Text) → test (compile pattern) t ≡ true → Matches pattern t)
    → (t : Text) → after_run (test (compile pattern)) t ≡ true
    → Matches (b'*' ∷ pattern) t
unfolding after_run
run-Matches pattern sound [] h = stop pattern [] (sound [] h)
run-Matches pattern sound (c ∷ t) h =
    elim (either (test (compile pattern) (c ∷ t))
      (not (line_terminator c) && after_run (test (compile pattern)) t) h) [
        | inl now ↦ stop pattern (c ∷ t) (sound (c ∷ t) now)
        | inr later ↦ more c pattern t (ground arith) (run-Matches pattern sound t (ground arith))
      ]

test-Matches : (pattern t : Text) → test (compile pattern) t ≡ true → Matches pattern t
unfolding test compile
test-Matches [] [] h = done
test-Matches [] (d ∷ t) h = absurd (ground arith)
test-Matches (c ∷ pattern) [] h = elim (Bool-cases (c == b'*')) [
  | inl star ↦
      subst (λ (x : ℕ). Matches (x ∷ pattern) []) (ground arith)
        (run-Matches pattern (test-Matches pattern) [] (ground arith))
  | inr plain ↦ absurd (ground arith)
]
test-Matches (c ∷ pattern) (d ∷ t) h = elim (Bool-cases (c == b'*')) [
  | inl star ↦
      subst (λ (x : ℕ). Matches (x ∷ pattern) (d ∷ t)) (ground arith)
        (run-Matches pattern (test-Matches pattern) (d ∷ t) (ground arith))
  | inr plain ↦
      let e : c ≡ d = ground arith in
      subst (λ (x : ℕ). Matches (c ∷ pattern) (x ∷ t)) e
        (same c pattern t plain (test-Matches pattern t (ground arith)))
]

Matches-run :
    (rest : Text → Bool) (c : ℕ) (t : Text)
    → line_terminator c ≡ false
    → after_run rest t ≡ true
    → after_run rest (c ∷ t) ≡ true
unfolding after_run
Matches-run rest c t plain h = ground arith

run_stops : (rest : Text → Bool) (t : Text) → rest t ≡ true → after_run rest t ≡ true
unfolding after_run
run_stops rest [] h = h
run_stops rest (c ∷ t) h = ground arith

Matches-test : (pattern t : Text) → Matches pattern t → test (compile pattern) t ≡ true
unfolding test compile
Matches-test _ _ done = refl
Matches-test _ _ (same c pattern t plain m) = ground (arith, Matches-test pattern t m)
Matches-test _ _ (stop pattern t m) =
    run_stops (test (compile pattern)) t (Matches-test pattern t m)
Matches-test _ _ (more c pattern t plain m) =
    Matches-run (test (compile pattern)) c t plain (Matches-test (b'*' ∷ pattern) t m)

-- The compiled pattern tests what the pattern matches.
pub test_lem : (pattern t : Text) → (test (compile pattern) t ≡ true) ↔ Matches pattern t
test_lem pattern t = (test-Matches pattern t, Matches-test pattern t)
