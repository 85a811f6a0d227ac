-- ===== src/Protocol/Decimal.antt =====
-- Decimal notation, and that the number parsers of the protocol read it back.
use mini_store.Prelude.{
  inr, inl, ℕ, zero, suc, ◌+◌, ◌-◌, ◌*◌, ◌/◌, ◌%◌, ◌<◌, ◌≤◌, ◌≡◌, ◌∙◌, refl, Bool, true, false,
  some, [], ◌∷◌, ◌++◌, arith, ltb, ◌==◌, ℤ, pos, negsuc, Text, Bool-cases,
}
use mini_store.Protocol.Tokens.{is_space}
use mini_store.Protocol.Words.{unbroken, is_word}
use mini_store.Protocol.Numbers.{
  is_digit, all_digits, is_number, value_from, parse_positive_int, parse_signed_int, safe_integer,
  negative, max_safe_integer, max_ttl_seconds,
}

-- `${n}`, on fuel; a number is fuel enough for itself.
unfoldable pub show : ℕ → ℕ → Text
show zero n = (b'0' + n % 10) ∷ []
show (suc fuel) n = elim (ltb n 10) [
  | true ↦ (b'0' + n) ∷ []
  | false ↦ show fuel (n / 10) ++ (b'0' + n % 10) ∷ []
]

unfoldable pub decimal : ℕ → Text
unfolding show
decimal n = show n n

show_small : (fuel n : ℕ) → ltb n 10 ≡ true → show (suc fuel) n ≡ (b'0' + n) ∷ []
unfolding show
show_small fuel n h = rw (show, h) refl

show_big :
    (fuel n : ℕ) → ltb n 10 ≡ false → show (suc fuel) n ≡ show fuel (n / 10) ++ (b'0' + n % 10) ∷ []
unfolding show
show_big fuel n h = rw (show, h) refl

value_from-append :
    (a : ℕ) (t : Text) (c : ℕ) → value_from a (t ++ c ∷ []) ≡ value_from a t * 10 + (c - b'0')
unfolding value_from
value_from-append a [] c = refl
value_from-append a (d ∷ t) c = value_from-append (a * 10 + (d - b'0')) t c

value_from-show : (fuel n : ℕ) → n ≤ fuel → value_from 0 (show fuel n) ≡ n
unfolding value_from show
value_from-show zero n h = ground arith
value_from-show (suc fuel) n h = elim (Bool-cases (ltb n 10)) [
  | inl small ↦ rw (show_small fuel n small) (ground arith)
  | inr big ↦
      let smaller = value_from-show fuel (n / 10) (ground arith) in
      rw (show_big fuel n big)
        (value_from-append 0 (show fuel (n / 10)) (b'0' + n % 10) ∙ ground (arith, smaller))
]

all_digits-append :
    (t : Text) (c : ℕ) → all_digits t ≡ true → is_digit c ≡ true → all_digits (t ++ c ∷ []) ≡ true
unfolding all_digits
all_digits-append [] c h d = ground arith
all_digits-append (x ∷ t) c h d = ground (arith, all_digits-append t c)

all_digits-show : (fuel n : ℕ) → all_digits (show fuel n) ≡ true
unfolding show all_digits is_digit
all_digits-show zero n = ground arith
all_digits-show (suc fuel) n = elim (Bool-cases (ltb n 10)) [
  | inl small ↦ rw (show_small fuel n small) (ground arith)
  | inr big ↦ rw (show_big fuel n big) (
      all_digits-append (show fuel (n / 10)) (b'0' + n % 10) (all_digits-show fuel (n / 10))
        (ground arith))
]

abbrev some_text : Text → Bool
some_text [] = false
some_text (c ∷ t) = true

some_text-append : (t : Text) (c : ℕ) → some_text (t ++ c ∷ []) ≡ true
some_text-append [] c = refl
some_text-append (d ∷ t) c = refl

some_text-show : (fuel n : ℕ) → some_text (show fuel n) ≡ true
unfolding show
some_text-show zero n = refl
some_text-show (suc fuel) n = elim (Bool-cases (ltb n 10)) [
  | inl small ↦ rw (show_small fuel n small) refl
  | inr big ↦ rw (show_big fuel n big) (some_text-append (show fuel (n / 10)) (b'0' + n % 10))
]

is_number-text : (t : Text) → some_text t ≡ true → all_digits t ≡ true → is_number t ≡ true
unfolding is_number
is_number-text [] h d = absurd (ground arith)
is_number-text (c ∷ t) h d = d

digits-unbroken : (t : Text) → all_digits t ≡ true → unbroken t ≡ true
unfolding all_digits is_digit unbroken is_space
digits-unbroken [] h = refl
digits-unbroken (c ∷ t) h = ground (arith, digits-unbroken t)

pub number-word : (t : Text) → is_number t ≡ true → is_word t ≡ true
unfolding is_number is_word
number-word [] h = absurd (ground arith)
number-word (c ∷ t) h = digits-unbroken (c ∷ t) h

pub is_number-decimal : (n : ℕ) → is_number (decimal n) ≡ true
unfolding decimal
is_number-decimal n = is_number-text (show n n) (some_text-show n n) (all_digits-show n n)

pub value_from-decimal : (n : ℕ) → value_from 0 (decimal n) ≡ n
unfolding decimal
value_from-decimal n = value_from-show n n (omega arith)

-- The decimal notation of a positive number up to 9999999999 is read back as that number.
pub parse_positive_int-decimal :
    (n : ℕ) → 0 < n → n ≤ max_ttl_seconds → parse_positive_int (decimal n) ≡ some n
unfolding parse_positive_int
parse_positive_int-decimal n h m = ground (arith, value_from-decimal n, is_number-decimal n)

-- What is read is in range.
pub parse_positive_int-bounds :
    (t : Text) (n : ℕ) → parse_positive_int t ≡ some n → (0 < n) × (n ≤ max_ttl_seconds)
unfolding parse_positive_int
parse_positive_int-bounds t n h = (ground arith, ground arith)

abbrev pub magnitude : ℤ → ℕ
magnitude (pos n) = n
magnitude (negsuc n) = suc n

unfoldable pub decimal_ℤ : ℤ → Text
unfolding decimal
decimal_ℤ (pos n) = decimal n
decimal_ℤ (negsuc n) = b'-' ∷ decimal (suc n)

signed-number : (t : Text) → is_number t ≡ true → parse_signed_int t ≡ safe_integer pos t
unfolding parse_signed_int is_number all_digits is_digit
signed-number [] h = absurd (ground arith)
signed-number (c ∷ t) h = ground arith

-- The decimal notation of an integer of magnitude below 2^53 is read back as that integer.
pub parse_signed_int-decimal :
    (i : ℤ) → magnitude i ≤ max_safe_integer → parse_signed_int (decimal_ℤ i) ≡ some i
unfolding decimal_ℤ parse_signed_int safe_integer
parse_signed_int-decimal (pos n) h =
    signed-number (decimal n) (is_number-decimal n)
    ∙ ground (arith, value_from-decimal n, is_number-decimal n)
parse_signed_int-decimal (negsuc n) h =
    ground (arith, value_from-decimal (suc n), is_number-decimal (suc n))

magnitude-negative : (n : ℕ) → magnitude (negative n) ≡ n
magnitude-negative zero = refl
magnitude-negative (suc n) = refl

safe_integer-bounds :
    (make : ℕ → ℤ) (t : Text) (i : ℤ)
    → ((n : ℕ) → magnitude (make n) ≡ n)
    → safe_integer make t ≡ some i
    → magnitude i ≤ max_safe_integer
unfolding safe_integer
safe_integer-bounds make t i m h = ground (arith, m (value_from 0 t))

pub parse_signed_int-bounds :
    (t : Text) (i : ℤ) → parse_signed_int t ≡ some i → magnitude i ≤ max_safe_integer
unfolding parse_signed_int safe_integer
parse_signed_int-bounds [] i h = absurd (ground arith)
parse_signed_int-bounds (c ∷ t) i h = elim (Bool-cases (c == b'-')) [
  | inl minus ↦ safe_integer-bounds negative t i magnitude-negative (ground arith)
  | inr digit ↦ safe_integer-bounds pos (c ∷ t) i (λ n. refl) (ground arith)
]

minus-word : (t : Text) → is_word t ≡ true → is_word (b'-' ∷ t) ≡ true
unfolding is_word unbroken is_space
minus-word [] h = absurd (ground arith)
minus-word (c ∷ t) h = h

pub is_word-decimal_ℤ : (i : ℤ) → is_word (decimal_ℤ i) ≡ true
unfolding decimal_ℤ
is_word-decimal_ℤ (pos n) = number-word (decimal n) (is_number-decimal n)
is_word-decimal_ℤ (negsuc n) =
    minus-word (decimal (suc n)) (number-word (decimal (suc n)) (is_number-decimal (suc n)))
