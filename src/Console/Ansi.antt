-- ===== src/Console/Ansi.antt =====
-- The escape sequences of src/kernel/lib/console/ansi.cpp, and `put` of a text of
-- src/kernel/lib/console/console.cpp. A text ends with a zero character, which a look behind its end reads.
use hltos.Base.{
  ℕ, zero, suc, ◌+◌, ◌-◌, ◌%◌, ◌^◌, Bool, ◌&&◌, ◌||◌, List, [], ◌∷◌, Option, none, some, leb, ◌==◌,
  if◌then◌else◌, get_or, take, drop, is_empty,
}
use hltos.Base.Run.{Run, ok, ◌>>=◌}
use hltos.Algo.{tokenize}
use hltos.Fmt.{dec, parse_uint}
use hltos.Console.{Console, put, newline, move_cursor, erase_in_line}

abbrev pub ansi_escape : ℕ
ansi_escape = 27

-- The letters A to H, J, K, S, T and m.
abbrev pub is_cs_code : ℕ → Bool
is_cs_code c = leb 65 c && leb c 72 || c == 74 || c == 75 || c == 83 || c == 84 || c == 109

abbrev pub get_default_arg : ℕ → List ℕ
get_default_arg c =
    if leb 65 c && leb c 72 || c == 83 || c == 84
    then 49 ∷ []
    else if c == 74 || c == 75 || c == 109
    then 48 ∷ []
    else []

-- `ESC [`
abbrev pub is_csi : List ℕ → Bool
is_csi text = get_or text 0 0 == ansi_escape && get_or text 1 0 == 91

-- The number of characters before the code.
unfoldable pub find_code : List ℕ → Option ℕ
find_code [] = none
find_code (c ∷ text) =
    let rest = find_code text in
    if is_cs_code c then some 0 else elim rest [ none ↦ none | some n ↦ some (suc n) ]

unfoldable pub default_args : List ℕ → List (List ℕ) → List (List ℕ)
default_args default_arg [] = []
default_args default_arg (arg ∷ args) =
    (if is_empty arg then default_arg else arg) ∷ default_args default_arg args

-- The first argument, a word of 64 bits.
unfoldable pub first_arg : List ℕ → ℕ → ℕ
first_arg parameters code =
    let args = tokenize parameters 59 in
    let whole =
      if is_empty args
      then get_default_arg code ∷ []
      else default_args (get_default_arg code) args in
    parse_uint (get_or whole 0 []) dec

unfoldable pub newlines : ℕ → ℕ → Console → Run Console
newlines depth zero k = ok k
newlines depth (suc times) k = newline depth k >>= λ next. newlines depth times next

-- What the codes C, D, K and E do; the other codes do nothing.
unfoldable pub run_code : ℕ → Console → ℕ → ℕ → Run Console
run_code depth k code val =
    let below = newlines depth val k in
    if code == 67
    then move_cursor depth k (val % 2 ^ 32) 0
    else if code == 68
    then move_cursor depth k ((2 ^ 32 - val % 2 ^ 32) % 2 ^ 32) 0
    else if code == 75
    then (if val == 0
        then erase_in_line k k.cursor_col k.screen_cols
        else if val == 1
        then erase_in_line k 0 k.cursor_col
        else if val == 2
        then erase_in_line k 0 k.screen_cols
        else ok k)
    else if code == 69
    then below
    else ok k

-- The number of characters that the sequence takes.
unfoldable pub parse_csi : ℕ → Console → List ℕ → Run (Console × ℕ)
parse_csi depth k text = elim (find_code text) [
  | none ↦ ok (k, 0)
  | some n ↦
      let code = get_or text n 0 in
      run_code depth k code (first_arg (drop 2 (take n text)) code) >>= λ next. ok (next, n + 1)
]

unfoldable pub parse_ansi_escape : ℕ → Console → List ℕ → Run (Console × ℕ)
parse_ansi_escape depth k text = if is_csi text then parse_csi depth k text else ok (k, 1)

-- The loop of `put`, by the rounds watched; `none` while it goes on.
unfoldable pub put_text : ℕ → ℕ → Console → List ℕ → Run (Option Console)
put_text depth zero k text = ok none
put_text depth (suc rounds) k [] = ok (some k)
put_text depth (suc rounds) k (c ∷ text) =
    let escaped = parse_ansi_escape depth k (c ∷ text) >>= λ r.
    put_text depth rounds r.0 (drop r.1 (c ∷ text)) in
    let plain = put depth k c >>= λ next. put_text depth rounds next text in
    if c == ansi_escape then escaped else plain
