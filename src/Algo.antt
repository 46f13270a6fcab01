-- ===== src/Algo.antt =====
-- src/kernel/lib/algo/algo.cpp and the `join` of src/kernel/include/algo/algo.hpp.
-- A string is the list of its bytes; an iterator pair is the part of the string between them, so
-- the two overloads of `split` (over `kstring` and over `kstring_view`) are one function here.
pub mod Fields
pub mod RoundTrip
mod Tests
use hltos.Base.{ℕ, true, false, not, ◌||◌, List, [], ◌∷◌, ◌++◌, ◌==◌, if◌then◌else◌, is_empty, init}

-- `result.push_back(part)`, if there is a part.
push_part : List ℕ → List (List ℕ) → List (List ℕ)
push_part part result = if is_empty part then result else result ++ part ∷ []

split_loop : ℕ → List ℕ → List ℕ → List (List ℕ) → List (List ℕ)
split_loop delim [] part result = push_part part result
split_loop delim (c ∷ s) part result = elim (c == delim) [
  | true ↦ split_loop delim s [] (push_part part result)
  | false ↦ split_loop delim s (part ++ c ∷ []) result
]

unfoldable pub split : List ℕ → ℕ → List (List ℕ)
unfolding split_loop push_part
split str delim = split_loop delim str [] []

tokenize_loop : ℕ → List ℕ → List ℕ → List (List ℕ) → ℕ → List (List ℕ)
tokenize_loop delim [] part result last =
    if not (is_empty part) || last == delim then result ++ part ∷ [] else result
tokenize_loop delim (c ∷ s) part result last = elim (c == delim) [
  | true ↦ tokenize_loop delim s [] (result ++ part ∷ []) c
  | false ↦ tokenize_loop delim s (part ++ c ∷ []) result c
]

unfoldable pub tokenize : List ℕ → ℕ → List (List ℕ)
unfolding tokenize_loop
tokenize str delim = tokenize_loop delim str [] [] 0

join_loop : ℕ → List (List ℕ) → List ℕ → List ℕ
join_loop delim [] result = result
join_loop delim (p ∷ ps) result = join_loop delim ps ((result ++ p) ++ delim ∷ [])

-- `pop_back` drops the delimiter behind the last part.
unfoldable pub join : List (List ℕ) → ℕ → List ℕ
unfolding join_loop
join parts delim =
    let result = join_loop delim parts [] in if is_empty result then result else init result

-- The characters in front of the first zero character, as `fmt::to_string` answers a string.
abbrev pub c_str : List ℕ → List ℕ
c_str [] = []
c_str (c ∷ s) = let rest = c_str s in if c == 0 then [] else c ∷ rest

join_list_loop : ℕ → List (List ℕ) → List ℕ → List ℕ
join_list_loop delim [] result = result
join_list_loop delim (item ∷ items) result =
    join_list_loop delim items ((result ++ c_str item) ++ delim ∷ [])

-- The `join` of a `klist`.
unfoldable pub join_list : List (List ℕ) → ℕ → List ℕ
unfolding join_list_loop
join_list items delim =
    let result = join_list_loop delim items [] in if is_empty result then result else init result
