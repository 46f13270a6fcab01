-- ===== src/Console/Arguments.antt =====
-- How ansi.cpp reads a sequence: where its code is, and what its first argument is.
use mathlib.Core.Path.{subst}
use hltos.Base.{
  ℕ, zero, suc, ◌/◌, ◌<◌, ◌≡◌, refl, sym, ap, ◌∙◌, Bool, true, false, not, ◌||◌, ◌&&◌, List, [],
  ◌∷◌, ◌++◌, arith, leb, ◌==◌, if◌then◌else◌, Bool-cases, inl, inr, get_or, Option, none, some,
  take, drop, length, is_empty, None, All, count-append, count-congr, u64_mod,
}
use hltos.Algo.{tokenize}
use hltos.Algo.Fields.{fields, tokenize-fields}
use hltos.Fmt.{dec, to_string, parse_uint, copy_back, reverse_loop}
use hltos.Fmt.Decimal.{print-dec, leading_zero, digit, parse_uint-to_string}
use hltos.Console.Ansi.{is_cs_code, get_default_arg, find_code, default_args, first_arg}

-- The first argument of a sequence: left out, or a number.
pub data Argument : Type 0 where
  absent : Argument
  given : ℕ → Argument

abbrev pub written : Argument → List ℕ
written absent = []
written (given n) = to_string n dec

-- An argument that is left out is 0 for the codes J, K and m, and 1 for the others.
abbrev pub value : ℕ → Argument → ℕ
value code absent = if code == 74 || code == 75 || code == 109 then 0 else 1
value code (given n) = n

-- The letters that are codes: A to H, J, K, S, T and m.
abbrev pub is_letter : ℕ → Bool
is_letter c =
    c == 65
    || c == 66
    || c == 67
    || c == 68
    || c == 69
    || c == 70
    || c == 71
    || c == 72
    || c == 74
    || c == 75
    || c == 83
    || c == 84
    || c == 109

pub is_cs_code-letter : (c : ℕ) → is_cs_code c ≡ is_letter c
is_cs_code-letter c = ground arith

-- A semicolon and further arguments, if there are any.
abbrev pub further : Option (List ℕ) → List ℕ
further none = []
further (some more) = 59 ∷ more

-- A sequence with its argument, further arguments and its code, and what follows it.
abbrev pub sequence : Argument → Option (List ℕ) → ℕ → List ℕ → List ℕ
sequence a more code rest = 27 ∷ 91 ∷ ((written a ++ further more) ++ code ∷ rest)

abbrev is_digit : ℕ → Bool
is_digit c = leb 48 c && leb c 57

copy_back-digits :
    (buffer reverse : List ℕ)
    → All is_digit buffer
    → All is_digit reverse
    → All is_digit (copy_back buffer reverse)
unfolding copy_back
copy_back-digits buffer [] b r = b
copy_back-digits buffer (c ∷ reverse) b r = ground (
  arith,
  count-append (λ d. not (is_digit d)) (copy_back buffer reverse) (c ∷ []),
  copy_back-digits buffer reverse b (ground (arith, r)),
  r,
)

reverse_loop-digits : (fuel n : ℕ) → All is_digit (reverse_loop 10 fuel n)
unfolding reverse_loop
reverse_loop-digits zero n = refl
reverse_loop-digits (suc fuel) n = elim (Bool-cases (n == 0)) [
  | inl e ↦ rw e refl
  | inr e ↦ let rest = reverse_loop-digits fuel (n / 10) in rw (e, digit n) (ground (arith, rest))
]

leading_zero-digits : (n : ℕ) → All is_digit (leading_zero n)
leading_zero-digits n = elim (Bool-cases (n == 0)) [ inl e ↦ rw e refl | inr e ↦ rw e refl ]

to_string-digits : (n : ℕ) → All is_digit (to_string n dec)
unfolding to_string
to_string-digits n = subst (All is_digit) (sym (print-dec n)) (
    copy_back-digits (leading_zero n) (reverse_loop 10 64 n) (leading_zero-digits n)
      (reverse_loop-digits 64 n))

is_empty-end : (s : List ℕ) (c : ℕ) → is_empty (s ++ c ∷ []) ≡ false
is_empty-end [] c = refl
is_empty-end (d ∷ s) c = refl

to_string-some : (n : ℕ) → is_empty (to_string n dec) ≡ false
unfolding to_string reverse_loop copy_back
to_string-some n =
    ap is_empty (print-dec n)
    ∙ elim (Bool-cases (n == 0)) [ inl e ↦ rw e refl | inr e ↦ rw e (is_empty-end _ _) ]

written-digits : (a : Argument) → All is_digit (written a)
written-digits absent = refl
written-digits (given n) = to_string-digits n

-- The part of the text in front of the first semicolon.
abbrev before : List ℕ → List ℕ
before [] = []
before (c ∷ s) = let rest = before s in if c == 59 then [] else c ∷ rest

first_field : (s : List ℕ) → (fs : List (List ℕ)) × (fields 59 s ≡ before s ∷ fs)
first_field [] = ([], refl)
first_field (c ∷ s) = elim (Bool-cases (c == 59)) [
  | inl e ↦ (fields 59 s, rw e refl)
  | inr e ↦ let (fs, h) = first_field s in (fs, rw (e, h) refl)
]

before-written :
    (s : List ℕ) (more : Option (List ℕ)) → All is_digit s → before (s ++ further more) ≡ s
before-written [] none d = refl
before-written [] (some more) d = refl
before-written (c ∷ s) more d =
    let here : (c == 59) ≡ false = ground (arith, d) in
    rw (here, before-written s more (ground (arith, d))) refl

-- What `first_arg` makes of its tokens.
abbrev pick : ℕ → List (List ℕ) → ℕ
unfolding default_args
pick code args =
    parse_uint
      (get_or
        (if is_empty args
          then get_default_arg code ∷ []
          else default_args (get_default_arg code) args)
        0 [])
      dec

tokenize-nil : tokenize [] 59 ≡ []
unfolding tokenize
tokenize-nil = refl

chosen_arg :
    (s : List ℕ) (code : ℕ)
    → first_arg s code
      ≡ parse_uint (if is_empty (before s) then get_default_arg code else before s) dec
unfolding first_arg default_args
chosen_arg [] code = ap (pick code) tokenize-nil
chosen_arg (c ∷ s) code =
    let (fs, h) = first_field (c ∷ s) in ap (pick code) (tokenize-fields c s 59 ∙ h)

default_value :
    (code : ℕ) → is_cs_code code ≡ true → parse_uint (get_default_arg code) dec ≡ value code absent
unfolding parse_uint
default_value code known = elim (Bool-cases (code == 74 || code == 75 || code == 109)) [
  | inl e ↦
      let other : (leb 65 code && leb code 72 || code == 83 || code == 84) ≡ false =
        ground (arith, e) in
      rw (other, e) refl
  | inr e ↦
      let other : (leb 65 code && leb code 72 || code == 83 || code == 84) ≡ true =
        ground (arith, e, known) in
      rw (other, e) refl
]

-- The first argument of a sequence.
pub first_arg-value :
    (a : Argument) (more : Option (List ℕ)) (code : ℕ)
    → is_cs_code code ≡ true
    → value code a < u64_mod
    → first_arg (written a ++ further more) code ≡ value code a
first_arg-value absent more code known word =
    chosen_arg (further more) code
    ∙ ap (λ s. parse_uint (if is_empty s then get_default_arg code else s) dec)
        (before-written [] more refl)
    ∙ default_value code known
first_arg-value (given n) more code known word =
    chosen_arg (to_string n dec ++ further more) code
    ∙ ap (λ s. parse_uint (if is_empty s then get_default_arg code else s) dec)
        (before-written (to_string n dec) more (to_string-digits n))
    ∙ ap (λ t. parse_uint (if t then get_default_arg code else to_string n dec) dec)
        (to_string-some n)
    ∙ parse_uint-to_string n word

-- The code behind characters that are no codes.
find_code-behind :
    (s : List ℕ) (code : ℕ) (rest : List ℕ)
    → None is_cs_code s
    → is_cs_code code ≡ true
    → find_code (s ++ code ∷ rest) ≡ some (length s)
unfolding find_code
find_code-behind [] code rest h known = rw known refl
find_code-behind (c ∷ s) code rest h known =
    let here : is_cs_code c ≡ false = ground (arith, h) in
    rw (here, find_code-behind s code rest (ground (arith, h)) known) refl

code-behind :
    (s : List ℕ) (code : ℕ) (rest : List ℕ) → get_or (s ++ code ∷ rest) (length s) 0 ≡ code
code-behind [] code rest = refl
code-behind (c ∷ s) code rest = code-behind s code rest

take-front : (s rest : List ℕ) → take (length s) (s ++ rest) ≡ s
take-front [] rest = refl
take-front (c ∷ s) rest = ap (λ t. c ∷ t) (take-front s rest)

no_code :
    (s : List ℕ) (more : Option (List ℕ))
    → All is_digit s
    → None is_cs_code (further more)
    → None is_cs_code (s ++ further more)
no_code [] more d h = h
no_code (c ∷ s) more d h =
    let here : is_cs_code c ≡ false = ground (arith, d) in
    ground (arith, here, no_code s more (ground (arith, d)) h)

-- The number of characters in front of the code.
abbrev pub before_code : Argument → Option (List ℕ) → ℕ
before_code a more = suc (suc (length (written a ++ further more)))

pub find_code-sequence :
    (a : Argument) (more : Option (List ℕ)) (code : ℕ) (rest : List ℕ)
    → None is_cs_code (further more)
    → is_cs_code code ≡ true
    → find_code (sequence a more code rest) ≡ some (before_code a more)
unfolding find_code
find_code-sequence a more code rest h known =
    find_code-behind (27 ∷ 91 ∷ (written a ++ further more)) code rest
      (omega (arith, no_code (written a) more (written-digits a) h)) known

pub code-sequence :
    (a : Argument) (more : Option (List ℕ)) (code : ℕ) (rest : List ℕ)
    → get_or (sequence a more code rest) (before_code a more) 0 ≡ code
code-sequence a more code rest = code-behind (27 ∷ 91 ∷ (written a ++ further more)) code rest

pub parameters-sequence :
    (a : Argument) (more : Option (List ℕ)) (code : ℕ) (rest : List ℕ)
    → drop 2 (take (before_code a more) (sequence a more code rest)) ≡ written a ++ further more
parameters-sequence a more code rest = take-front (written a ++ further more) (code ∷ rest)

pub no_cs_code : (s : List ℕ) → None is_letter s → None is_cs_code s
no_cs_code s h = count-congr is_cs_code is_letter is_cs_code-letter s ∙ h
