-- ===== src/Fmt.antt =====
-- The numbers of src/kernel/include/fmt/fmt.hpp: printing in four bases, and parsing. A text is the list
-- of its characters; the buffer of 128 characters, which no number fills, is a list too.
pub mod Decimal
mod Tests
use hltos.Base.{
  ℕ, zero, suc, ◌+◌, ◌-◌, ◌*◌, ◌/◌, ◌%◌, Bool, true, false, List, [], ◌∷◌, ◌++◌, ltb, ◌==◌,
  if◌then◌else◌, length, take, drop, replicate, u64_mod,
}
use hltos.Base.Int.{ℤ, pos, negsuc}

pub data NumberFormat : Type 0 where
  dec hex bin oct : NumberFormat

abbrev pub number_format_divisor : NumberFormat → ℕ
number_format_divisor dec = 10
number_format_divisor hex = 16
number_format_divisor oct = 8
number_format_divisor bin = 2

-- The tables of characters: the digits, and the capital letters behind them.
abbrev pub number_format_char : ℕ → ℕ
number_format_char i = if ltb i 10 then 48 + i else 55 + i

abbrev pub prefix_of : NumberFormat → List ℕ
prefix_of dec = []
prefix_of hex = 48 ∷ 120 ∷ []
prefix_of oct = 48 ∷ 111 ∷ []
prefix_of bin = 48 ∷ 98 ∷ []

-- The loop that fills `reverse`. A 64-bit number has at most 64 digits in each base.
unfoldable pub reverse_loop : ℕ → ℕ → ℕ → List ℕ
reverse_loop divisor zero unum = []
reverse_loop divisor (suc fuel) unum =
    let rest = reverse_loop divisor fuel (unum / divisor) in
    if unum == 0 then [] else number_format_char (unum % divisor) ∷ rest

-- The loop that copies `reverse` backwards behind the buffer.
unfoldable pub copy_back : List ℕ → List ℕ → List ℕ
copy_back buffer [] = buffer
copy_back buffer (c ∷ reverse) = copy_back buffer reverse ++ c ∷ []

-- `pad_zero`: the digits behind the first two characters up to a multiple of four.
unfoldable pub pad_zero : List ℕ → List ℕ
pad_zero buffer =
    let zeros = (4 + u64_mod - (length buffer - 2)) % 4 in
    take 2 buffer ++ replicate zeros 48 ++ drop 2 buffer

abbrev pub pads : NumberFormat → Bool
pads dec = false
pads _ = true

-- The part of both `to_string`s behind the sign.
unfoldable pub print : List ℕ → ℕ → NumberFormat → List ℕ
unfolding reverse_loop copy_back pad_zero
print sign unum format =
    let start = (sign ++ prefix_of format) ++ (if unum == 0 then 48 ∷ [] else []) in
    let digits = copy_back start (reverse_loop (number_format_divisor format) 64 unum) in
    if pads format then pad_zero digits else digits

unfoldable pub to_string : ℕ → NumberFormat → List ℕ
unfolding print
to_string unum format = print [] unum format

unfoldable pub to_string_signed : ℤ → NumberFormat → List ℕ
unfolding print
to_string_signed (pos n) format = print [] n format
to_string_signed (negsuc n) format = print (45 ∷ []) (n + 1) format

-- `str[i] - '0'` of a character, which is signed, as it is added to a 64-bit number.
abbrev pub digit_value : ℕ → ℕ
digit_value c = if ltb c 128 then u64_mod + c - 48 else u64_mod + c - 304

-- The loop of `parse_uint`, which ends at a zero character.
unfoldable pub parse_loop : ℕ → ℕ → List ℕ → ℕ
parse_loop divisor result [] = result
parse_loop divisor result (c ∷ str) =
    let next = parse_loop divisor ((result * divisor + digit_value c) % u64_mod) str in
    if c == 0 then result else next

unfoldable pub parse_uint : List ℕ → NumberFormat → ℕ
unfolding parse_loop
parse_uint str format = parse_loop (number_format_divisor format) 0 str
