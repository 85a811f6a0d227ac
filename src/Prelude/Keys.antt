-- ===== src/Prelude/Keys.antt =====
-- Lists of keys: membership as a test, removal, and lists without repetition.
use Prim.Native.Nat.{ℕ, ◌+◌}
use mathlib.Core.Path.{◌≡◌, refl}
use mathlib.Core.Logic.{ite}
use mathlib.Core.Bool.{Bool, true, false, ◌||◌}
use mathlib.Core.Option.{some}
use mathlib.Core.List.{List, [], ◌∷◌, ◌++◌}
use native.Mathlib.Omega.{arith}
use native.Mathlib.Decide.{ℕ_discrete}
use mini_store.Prelude.Lists.{length, last?}

-- A type whose values can be keys of a map: equality is decidable.
pub record Keyed (K : Type 0) : Type 0 where
  pub dec : Discrete K

-- Text as UTF-16 code units, as the program's strings are.
abbrev pub Text : Type 0
Text = List ℕ

unfoldable pub Text-discrete : Discrete Text
Text-discrete = hlevel ℕ_discrete

instance abbrev pub text_keyed : Keyed Text
text_keyed = record { dec = Text-discrete }

instance abbrev pub ref_keyed : Keyed ℕ
ref_keyed = record { dec = ℕ_discrete }

module _ {K : Type 0} ⦃d : Keyed K⦄ where
  unfoldable pub contains : K → List K → Bool
  contains k [] = false
  contains k (x ∷ xs) = ite (d.dec x k) true (contains k xs)

  -- The list without any occurrence of `k`.
  unfoldable pub remove : K → List K → List K
  remove k [] = []
  remove k (x ∷ xs) = let rest = remove k xs in ite (d.dec x k) rest (x ∷ rest)

  abbrev pub Distinct : List K → Type 0
  Distinct [] = Unit
  Distinct (x ∷ xs) = (contains x xs ≡ false) × Distinct xs

  pub contains-remove :
      (k j : K) (xs : List K) → contains j (remove k xs) ≡ ite (d.dec k j) false (contains j xs)
  unfolding contains remove
  contains-remove k j [] = ground arith
  contains-remove k j (x ∷ xs) = ground (arith, contains-remove k j xs)

  pub contains-append :
      (k : K) (xs ys : List K) → contains k (xs ++ ys) ≡ (contains k xs || contains k ys)
  unfolding contains
  contains-append k [] ys = refl
  contains-append k (x ∷ xs) ys = ground (arith, contains-append k xs ys)

  -- At one more element, in the form in which `ground` splits on the two keys.
  pub contains-append_last :
      (k : K) (xs : List K) (y : K)
      → contains k (xs ++ y ∷ []) ≡ ite (d.dec y k) true (contains k xs)
  unfolding contains
  contains-append_last k [] y = refl
  contains-append_last k (x ∷ xs) y = ground (arith, contains-append_last k xs y)

  pub remove_absent : (k : K) (xs : List K) → contains k xs ≡ false → remove k xs ≡ xs
  unfolding contains remove
  remove_absent k [] h = refl
  remove_absent k (x ∷ xs) h = ground (arith, remove_absent k xs)

  pub Distinct-remove : (k : K) (xs : List K) → Distinct xs → Distinct (remove k xs)
  unfolding contains remove
  Distinct-remove k [] h = tt
  Distinct-remove k (x ∷ xs) h = ground (arith, contains-remove k x xs, Distinct-remove k xs h.1)

  pub Distinct-append :
      (xs : List K) (y : K) → Distinct xs → contains y xs ≡ false → Distinct (xs ++ y ∷ [])
  unfolding contains
  Distinct-append [] y h a = (refl, tt)
  Distinct-append (x ∷ xs) y h a =
      ground (arith, contains-append_last x xs y, Distinct-append xs y h.1)

  pub length-remove :
      (k : K) (xs : List K)
      → Distinct xs
      → contains k xs ≡ true
      → length (remove k xs) + 1 ≡ length xs
  unfolding contains remove
  length-remove k [] h m = absurd (ground arith)
  length-remove k (x ∷ xs) h m = ground (arith, length-remove k xs h.1, remove_absent k xs)

  pub contains-last? : (xs : List K) (k : K) → last? xs ≡ some k → contains k xs ≡ true
  unfolding contains
  contains-last? [] k h = absurd (ground arith)
  contains-last? (x ∷ []) k h = ground arith
  contains-last? (x ∷ y ∷ xs) k h = ground (arith, contains-last? (y ∷ xs) k h)

  -- The two parts of a list without repetition share nothing.
  pub Distinct-split :
      (xs ys : List K)
      → Distinct (xs ++ ys)
      → Distinct xs × Distinct ys × ((k : K) → contains k xs ≡ true → contains k ys ≡ false)
  unfolding contains
  Distinct-split [] ys h = (tt, h, λ k m. absurd (ground arith))
  Distinct-split (x ∷ xs) ys h =
      let (dx, dy, apart) = Distinct-split xs ys h.1 in
      (
        (ground (arith, contains-append x xs ys), dx),
        dy,
        λ k m. ground (arith, contains-append x xs ys, apart k),
      )

  pub Distinct-join :
      (xs ys : List K)
      → Distinct xs
      → Distinct ys
      → ((k : K) → contains k xs ≡ true → contains k ys ≡ false)
      → Distinct (xs ++ ys)
  unfolding contains
  Distinct-join [] ys dx dy apart = dy
  Distinct-join (x ∷ xs) ys dx dy apart = (
    ground (arith, contains-append x xs ys, apart x),
    Distinct-join xs ys dx.1 dy (λ k m. apart k (ground arith)),
  )

  pub remove_middle :
      (xs : List K) (k : K) (ys : List K)
      → contains k xs ≡ false
      → contains k ys ≡ false
      → remove k (xs ++ k ∷ ys) ≡ xs ++ ys
  unfolding contains remove
  remove_middle [] k ys a b = ground (arith, remove_absent k ys)
  remove_middle (x ∷ xs) k ys a b = ground (arith, remove_middle xs k ys)

  pub remove_first : (k : K) (xs : List K) → contains k xs ≡ false → k ∷ remove k (k ∷ xs) ≡ k ∷ xs
  unfolding remove
  remove_first k xs h = ground (arith, remove_absent k xs)

  -- Two lists without repetition that hold the same keys are equally long.
  pub length-same :
      (xs ys : List K)
      → Distinct xs
      → Distinct ys
      → ((k : K) → contains k xs ≡ contains k ys)
      → length xs ≡ length ys
  unfolding contains
  length-same [] [] dx dy same = refl
  length-same [] (y ∷ ys) dx dy same = absurd (ground (arith, same y))
  length-same (x ∷ xs) ys dx dy same =
      let inside : contains x ys ≡ true = ground (arith, same x) in
      omega (
        arith,
        length-remove x ys dy inside,
        length-same xs (remove x ys) dx.1 (Distinct-remove x ys dy)
            (λ k. ground (arith, same k, contains-remove x k ys)),
      )
