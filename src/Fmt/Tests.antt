-- ===== src/Fmt/Tests.antt =====
-- Numbers printed by fmt.hpp, and the theorem at one.
use hltos.Base.{◌≡◌, refl, [], ◌∷◌, arith}
use hltos.Base.Int.{negsuc}
use hltos.Fmt.{
  dec, hex, to_string, to_string_signed, print, reverse_loop, copy_back, pad_zero, parse_uint,
}
use hltos.Fmt.Decimal.{parse_uint-to_string}

-- "0x00AB"
printed_hex : to_string 171 hex ≡ 48 ∷ 120 ∷ 48 ∷ 48 ∷ 65 ∷ 66 ∷ []
unfolding to_string print reverse_loop copy_back pad_zero
printed_hex = refl

-- "-000x1": the padding of -1 in base 16 goes in front of the `x`.
printed_negative : to_string_signed (negsuc 0) hex ≡ 45 ∷ 48 ∷ 48 ∷ 48 ∷ 120 ∷ 49 ∷ []
unfolding to_string_signed print reverse_loop copy_back pad_zero
printed_negative = refl

parse_uint-to_string_example : parse_uint (to_string 90210 dec) dec ≡ 90210
parse_uint-to_string_example = parse_uint-to_string 90210 (omega arith)
