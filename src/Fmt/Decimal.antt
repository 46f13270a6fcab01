-- ===== src/Fmt/Decimal.antt =====
-- Decimal numbers of src/kernel/include/fmt/fmt.hpp: parsing against printing.
use native.Mathlib.Nat.{pow-suc}
use hltos.Base.{
  ℕ, zero, suc, ◌+◌, ◌*◌, ◌/◌, ◌%◌, ◌^◌, ◌<◌, ◌≡◌, refl, sym, ap, ◌∙◌, false, List, [], ◌∷◌, ◌++◌,
  arith, ◌==◌, if◌then◌else◌, None, count-append, u64_mod, Bool-cases, inl, inr,
}
use hltos.Fmt.{
  dec, number_format_char, reverse_loop, copy_back, print, to_string, parse_loop, parse_uint,
  digit_value,
}

-- One more character at the end of a text without zero characters.
parse_loop-append :
    (str : List ℕ) (result c : ℕ)
    → None (λ d. d == 0) str
    → (c == 0) ≡ false
    → parse_loop 10 result (str ++ c ∷ [])
      ≡ (parse_loop 10 result str * 10 + digit_value c) % u64_mod
unfolding parse_loop
parse_loop-append [] result c h e = rw e refl
parse_loop-append (d ∷ str) result c h e =
    let here : (d == 0) ≡ false = ground (arith, h) in
    rw here (parse_loop-append str _ c (ground (arith, h)) e)

pub digit : (n : ℕ) → number_format_char (n % 10) ≡ 48 + n % 10
digit n = ground arith

parse_loop-copy_back :
    (fuel n : ℕ)
    → n < 2 ^ fuel
    → n < u64_mod
    → None (λ d. d == 0) (copy_back [] (reverse_loop 10 fuel n))
      × (parse_loop 10 0 (copy_back [] (reverse_loop 10 fuel n)) ≡ n)
unfolding reverse_loop copy_back parse_loop
parse_loop-copy_back zero n h w = (refl, omega (arith, h))
parse_loop-copy_back (suc fuel) n h w = elim (Bool-cases (n == 0)) [
  | inl e ↦ rw e (refl, ground (arith, e))
  | inr e ↦
      let (n', value) =
        parse_loop-copy_back fuel (n / 10) (omega (arith, h, pow-suc 2 fuel)) (omega (arith, w)) in
      let front = copy_back [] (reverse_loop 10 fuel (n / 10)) in
      let c_ok : (48 + n % 10 == 0) ≡ false = ground arith in
      let whole : parse_loop 10 0 (front ++ ((48 + n % 10) ∷ [])) ≡ n =
        parse_loop-append front 0 (48 + n % 10) n' c_ok
        ∙ ap (λ r. (r * 10 + digit_value (48 + n % 10)) % u64_mod) value
        ∙ ground (arith, w) in
      rw (e, digit n)
        (ground (arith, count-append (λ d. d == 0) front ((48 + n % 10) ∷ []), n', c_ok), whole)
]

reverse_loop-zero : (fuel : ℕ) → reverse_loop 10 fuel 0 ≡ []
unfolding reverse_loop
reverse_loop-zero zero = refl
reverse_loop-zero (suc fuel) = refl

single : parse_loop 10 0 (copy_back (48 ∷ []) []) ≡ 0
unfolding parse_loop copy_back
single = refl

abbrev pub leading_zero : ℕ → List ℕ
leading_zero n = if n == 0 then 48 ∷ [] else []

parse_loop-leading_zero :
    (fuel n : ℕ)
    → n < 2 ^ fuel
    → n < u64_mod
    → parse_loop 10 0 (copy_back (leading_zero n) (reverse_loop 10 fuel n)) ≡ n
parse_loop-leading_zero fuel n h w = elim (Bool-cases (n == 0)) [
  | inl e ↦
      let none_left : n ≡ 0 = ground (arith, e) in
      ap (λ m. parse_loop 10 0 (copy_back (leading_zero m) (reverse_loop 10 fuel m))) none_left
      ∙ ap (λ r. parse_loop 10 0 (copy_back (48 ∷ []) r)) (reverse_loop-zero fuel)
      ∙ single
      ∙ sym none_left
  | inr e ↦ rw e (parse_loop-copy_back fuel n h w).1
]

pub print-dec : (n : ℕ) → print [] n dec ≡ copy_back (leading_zero n) (reverse_loop 10 64 n)
unfolding print
print-dec n = refl

-- Every 64-bit number that is printed in decimal is parsed back.
pub parse_uint-to_string : (n : ℕ) → n < u64_mod → parse_uint (to_string n dec) dec ≡ n
unfolding parse_uint to_string
parse_uint-to_string n h =
    ap (parse_loop 10 0) (print-dec n) ∙ parse_loop-leading_zero 64 n (omega (arith, h)) h
