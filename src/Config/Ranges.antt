-- ===== src/Config/Ranges.antt =====
-- About `loadConfig`: which environments it accepts, and what it makes of them.
use mini_store.Prelude.{
  ◌≢◌, subst, ℕ, ◌≤◌, ◌≡◌, inl, inr, refl, ap, true, Option, none, some, [], ◌∷◌, arith, ℤ, pos,
  negsuc, Text, Bool-cases,
}
use mini_store.Protocol.Tokens.{trim}
use mini_store.Config.{loaded, in_range, checked, parse_trimmed, parse_int_in_range}

abbrev pub Within : (min max : ℕ) → ℤ → Type 0
Within min max n = (k : ℕ) × (n ≡ pos k) × (min ≤ k) × (k ≤ max)

in_range-Within : (n : ℤ) (min max : ℕ) → in_range n min max ≡ true → Within min max n
unfolding in_range
in_range-Within (pos k) min max h = (k, refl, ground arith, ground arith)
in_range-Within (negsuc k) min max h = absurd (ground arith)

Within-in_range : (n : ℤ) (min max : ℕ) → Within min max n → in_range n min max ≡ true
unfolding in_range
Within-in_range n min max (k, is, low, high) = rw is (ground arith)

checked-Within :
    (o : Option ℤ) (raw name : Text) (min max : ℕ) (n : ℤ)
    → checked o raw name min max ≡ loaded n
    → (o ≡ some n) × Within min max n
unfolding checked
checked-Within none raw name min max n h = absurd (ground arith)
checked-Within (some m) raw name min max n h = elim (Bool-cases (in_range m min max)) [
  | inl inside ↦
      let same : m ≡ n = ground arith in
      (ap some same, subst (Within min max) same (in_range-Within m min max inside))
  | inr outside ↦ absurd (ground arith)
]

module _ (number : Text → Option ℤ) where
  -- What a setting comes to: the default where it is unset or blank, and else an integer in its range.
  pub data Reads (fallback min max : ℕ) : Option Text → ℤ → Type 0 where
    unset : Reads fallback min max none (pos fallback)
    blank : (raw : Text) → trim raw ≡ [] → Reads fallback min max (some raw) (pos fallback)
    given :
        (raw : Text) (n : ℤ)
        → trim raw ≢ []
        → number raw ≡ some n
        → Within min max n
        → Reads fallback min max (some raw) n

  Reads-trimmed :
      (fallback min max : ℕ) (name raw t : Text) (n : ℤ)
      → trim raw ≡ t
      → parse_trimmed number t raw fallback name min max ≡ loaded n
      → Reads fallback min max (some raw) n
  unfolding parse_trimmed
  Reads-trimmed fallback min max name raw [] n e h =
      let same : pos fallback ≡ n = ground arith in
      subst (Reads fallback min max (some raw)) same (blank raw e)
  Reads-trimmed fallback min max name raw (c ∷ t) n e h =
      let (is, within) = checked-Within (number raw) raw name min max n h in
      given raw n (ground arith) is within

  pub parse_int_in_range-Reads :
      (fallback min max : ℕ) (name : Text) (o : Option Text) (n : ℤ)
      → parse_int_in_range number o fallback name min max ≡ loaded n
      → Reads fallback min max o n
  unfolding parse_int_in_range
  parse_int_in_range-Reads fallback min max name none n h =
      let same : pos fallback ≡ n = ground arith in subst (Reads fallback min max none) same unset
  parse_int_in_range-Reads fallback min max name (some raw) n h =
      Reads-trimmed fallback min max name raw (trim raw) n refl h

  pub Reads-Within :
      (fallback min max : ℕ) (o : Option Text) (n : ℤ)
      → Within min max (pos fallback)
      → Reads fallback min max o n
      → Within min max n
  Reads-Within fallback min max none _ d unset = d
  Reads-Within fallback min max (some _) _ d (blank raw e) = d
  Reads-Within fallback min max (some _) _ d (given raw n not_blank is within) = within

  trimmed-given :
      (fallback min max : ℕ) (name raw t : Text) (n : ℤ)
      → trim raw ≡ t
      → trim raw ≢ []
      → number raw ≡ some n
      → Within min max n
      → parse_trimmed number t raw fallback name min max ≡ loaded n
  unfolding parse_trimmed checked
  trimmed-given fallback min max name raw [] n e not_blank is within = absurd (not_blank e)
  trimmed-given fallback min max name raw (c ∷ t) n e not_blank is within =
      rw (is, Within-in_range n min max within) refl

  pub Reads-parse_int_in_range :
      (fallback min max : ℕ) (name : Text) (o : Option Text) (n : ℤ)
      → Reads fallback min max o n
      → parse_int_in_range number o fallback name min max ≡ loaded n
  unfolding parse_int_in_range parse_trimmed
  Reads-parse_int_in_range fallback min max name none _ unset = refl
  Reads-parse_int_in_range fallback min max name (some _) _ (blank raw e) = rw e refl
  Reads-parse_int_in_range fallback min max name (some _) _ (given raw n not_blank is within) =
      trimmed-given fallback min max name raw (trim raw) n refl not_blank is within
