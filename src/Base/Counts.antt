-- ===== src/Base/Counts.antt =====
-- The number of entries of a list that pass a test. Two lists with the same counts under every
-- test hold the same entries, each as often.
use Prim.Native.Nat.{ℕ, zero, suc, ◌+◌, ◌≤◌, ◌<◌}
use mathlib.Core.Path.{◌≡◌, refl, ap}
use mathlib.Core.Bool.{Bool, true, false, not}
use mathlib.Core.List.{List, [], ◌∷◌, ◌++◌}
use native.Mathlib.Omega.{arith}
use hltos.Base.Lists.{length, get_or, set, init}

abbrev pub one : Bool → ℕ
one true = 1
one false = 0

module _ {ℓ} {A : Type ℓ} where
  abbrev pub count : (A → Bool) → List A → ℕ
  count t [] = 0
  count t (x ∷ xs) = one (t x) + count t xs

  -- No entry passes the test; every entry passes it.
  abbrev pub None : (A → Bool) → List A → Type 0
  None t xs = count t xs ≡ 0

  abbrev pub All : (A → Bool) → List A → Type 0
  All t xs = count (λ x. not (t x)) xs ≡ 0

  abbrev pub SameItems : List A → List A → Type ℓ
  SameItems xs ys = (t : A → Bool) → count t xs ≡ count t ys

  pub count-append : (t : A → Bool) (xs ys : List A) → count t (xs ++ ys) ≡ count t xs + count t ys
  count-append t [] ys = omega arith
  count-append t (x ∷ xs) ys = omega (arith, count-append t xs ys)

  pub count-set :
      (t : A → Bool) (xs : List A) (i : ℕ) (v d : A)
      → i < length xs
      → count t (set xs i v) + one (t (get_or xs i d)) ≡ count t xs + one (t v)
  count-set t [] i v d h = absurd (omega arith)
  count-set t (x ∷ xs) zero v d h = omega arith
  count-set t (x ∷ xs) (suc i) v d h = omega (arith, count-set t xs i v d)

  pub count-init :
      (t : A → Bool) (xs : List A) (n : ℕ) (d : A)
      → length xs ≡ suc n
      → count t (init xs) + one (t (get_or xs n d)) ≡ count t xs
  count-init t [] n d h = absurd (omega arith)
  count-init t (x ∷ []) zero d h = omega arith
  count-init t (x ∷ []) (suc n) d h = absurd (omega arith)
  count-init t (x ∷ y ∷ xs) zero d h = absurd (omega arith)
  count-init t (x ∷ y ∷ xs) (suc n) d h = omega (arith, count-init t (y ∷ xs) n d (omega arith))

  -- An entry in range counts if it passes.
  pub count-get_or :
      (t : A → Bool) (xs : List A) (i : ℕ) (d : A)
      → i < length xs
      → one (t (get_or xs i d)) ≤ count t xs
  count-get_or t [] i d h = absurd (omega arith)
  count-get_or t (x ∷ xs) zero d h = omega arith
  count-get_or t (x ∷ xs) (suc i) d h = omega (arith, count-get_or t xs i d)

  -- Tests that agree where the entries are count alike.
  pub count-congr :
      (s t : A → Bool) (agree : (x : A) → s x ≡ t x) (xs : List A) → count s xs ≡ count t xs
  count-congr s t agree [] = refl
  count-congr s t agree (x ∷ xs) = omega (arith, ap one (agree x), count-congr s t agree xs)

  pub count_mono :
      (s t : A → Bool) (weaker : (x : A) → s x ≡ true → t x ≡ true) (xs : List A)
      → count s xs ≤ count t xs
  count_mono s t weaker [] = omega arith
  count_mono s t weaker (x ∷ xs) = ground (arith, weaker x, count_mono s t weaker xs)

  -- Tests that agree wherever `p` fails count alike in a list of which no entry passes `p`.
  pub count-agree :
      (p s t : A → Bool) (agree : (x : A) → p x ≡ false → s x ≡ t x) (xs : List A)
      → None p xs
      → count s xs ≡ count t xs
  count-agree p s t agree [] h = refl
  count-agree p s t agree (x ∷ xs) h = ground (arith, agree x, count-agree p s t agree xs)

  pub count-length : (xs : List A) → count (λ _. true) xs ≡ length xs
  count-length [] = refl
  count-length (x ∷ xs) = omega (arith, count-length xs)

  -- A test that every index passes.
  pub All-get_or :
      (t : A → Bool) (xs : List A) (d : A)
      → ((i : ℕ) → i < length xs → t (get_or xs i d) ≡ true)
      → All t xs
  All-get_or t [] d h = refl
  All-get_or t (x ∷ xs) d h =
      ground (arith, h 0 (omega arith), All-get_or t xs d (λ i p. h (suc i) (omega arith)))
