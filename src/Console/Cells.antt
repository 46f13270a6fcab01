-- ===== src/Console/Cells.antt =====
-- The shape of the buffer of console.cpp: which cells there are.
use hltos.Base.{
  ℕ, zero, suc, ◌+◌, ◌-◌, ◌≤◌, ◌<◌, ◌≡◌, refl, ap, ◌∙◌, true, List, [], ◌∷◌, ◌++◌, some, arith, ltb,
  leb, ◌==◌, if◌then◌else◌, length, get_or, set, get_elem?, length-append, length-set, get_or-set,
  ◌&&◌, Bool-cases, inl, inr,
}
use hltos.Base.Run.{ok, fault}
use hltos.Console.{
  ConsoleChar, Console, blank, push_lines, push_blanks, ensure_valid_cursor_buffer_pos, set_cell,
  clean_line, clean_lines, redraw,
}

abbrev Buffer : Type 0
Buffer = List (List ConsoleChar)

abbrev pub width : List (List ConsoleChar) → ℕ → ℕ
width b row = length (get_or b row [])

abbrev pub HasCell : List (List ConsoleChar) → ℕ → ℕ → Type 0
HasCell b row col = (row < length b) × (col < width b row)

-- The same lines of the same widths.
pub record SameShape (b b' : List (List ConsoleChar)) : Type 0 where
  pub lines : length b' ≡ length b
  pub widths : (row : ℕ) → width b' row ≡ width b row

pub HasCell-SameShape :
    (b b' : List (List ConsoleChar)) (row col : ℕ)
    → SameShape b b'
    → HasCell b row col
    → HasCell b' row col
HasCell-SameShape b b' row col s h = omega (arith, s.lines, s.widths row, h)

pub length-push_lines :
    (n : ℕ) (b : List (List ConsoleChar)) → length (push_lines n b) ≡ length b + n
unfolding push_lines
length-push_lines zero b = omega arith
length-push_lines (suc n) b =
    omega (arith, length-push_lines n (b ++ [] ∷ []), length-append b ([] ∷ []))

get_or-empty_line :
    (b : List (List ConsoleChar)) (i : ℕ) → get_or (b ++ [] ∷ []) i [] ≡ get_or b i []
get_or-empty_line [] zero = refl
get_or-empty_line [] (suc i) = refl
get_or-empty_line (l ∷ b) zero = refl
get_or-empty_line (l ∷ b) (suc i) = get_or-empty_line b i

pub get_or-push_lines :
    (n : ℕ) (b : List (List ConsoleChar)) (i : ℕ) → get_or (push_lines n b) i [] ≡ get_or b i []
unfolding push_lines
get_or-push_lines zero b i = refl
get_or-push_lines (suc n) b i = get_or-push_lines n (b ++ [] ∷ []) i ∙ get_or-empty_line b i

pub length-push_blanks :
    (n : ℕ) (cell : ConsoleChar) (line : List ConsoleChar)
    → length (push_blanks n cell line) ≡ length line + n
unfolding push_blanks
length-push_blanks zero cell line = omega arith
length-push_blanks (suc n) cell line =
    omega (arith, length-push_blanks n cell (line ++ cell ∷ []), length-append line (cell ∷ []))

-- The buffer after `ensure_valid_cursor_buffer_pos`.
pub ensure-HasCell :
    (k : Console) (row col : ℕ) → HasCell (ensure_valid_cursor_buffer_pos k row col).buffer row col
unfolding ensure_valid_cursor_buffer_pos
ensure-HasCell k row col =
    let b = push_lines (row + 1 - length k.buffer) k.buffer in
    let line = get_or b row [] in
    let wide = push_blanks (col + 1 - length line) (blank k) line in
    let inside : row < length b =
      omega (arith, length-push_lines (row + 1 - length k.buffer) k.buffer) in
    let here : get_or (set b row wide) row [] ≡ wide =
      get_or-set b row row wide [] inside ∙ at_index row wide line in
    (
      omega (arith, length-set b row wide, inside),
      omega (arith, ap length here, length-push_blanks (col + 1 - length line) (blank k) line),
    )
  where
    at_index : (i : ℕ) (wide other : List ConsoleChar) → (if i == i then wide else other) ≡ wide
    at_index i wide other = let same : (i == i) ≡ true = ground arith in rw same refl

pub ensure-width :
    (k : Console) (row col : ℕ)
    → col + 1 ≤ width (ensure_valid_cursor_buffer_pos k row col).buffer row
ensure-width k row col = omega (arith, ensure-HasCell k row col)

pub get_elem?-some {ℓ} :
    {A : Type ℓ} (xs : List A) (i : ℕ) (d : A)
    → i < length xs
    → get_elem? xs i ≡ some (get_or xs i d)
get_elem?-some [] i d h = absurd (omega (arith, h))
get_elem?-some (x ∷ xs) zero d h = refl
get_elem?-some (x ∷ xs) (suc i) d h = get_elem?-some xs i d (omega (arith, h))

SameShape-set :
    (b : List (List ConsoleChar)) (row : ℕ) (line : List ConsoleChar)
    → length line ≡ width b row
    → SameShape b (set b row line)
SameShape-set b row line e = record { lines = length-set b row line; widths = λ i. same b row i e }
  where
    same :
        (b : List (List ConsoleChar)) (row i : ℕ)
        → length line ≡ width b row
        → width (set b row line) i ≡ width b i
    same [] row i e = refl
    same (l ∷ b) zero zero e = e
    same (l ∷ b) zero (suc i) e = refl
    same (l ∷ b) (suc row) zero e = refl
    same (l ∷ b) (suc row) (suc i) e = same b row i e

-- A cell that is there can be changed, and the shape stays.
pub set_cell-SameShape :
    (k : Console) (row col : ℕ) (change : ConsoleChar → ConsoleChar)
    → HasCell k.buffer row col
    → (b : List (List ConsoleChar)) × (set_cell k row col change ≡ ok (record k { buffer = b }))
      × SameShape k.buffer b
unfolding set_cell
set_cell-SameShape k row col change h =
    let line = get_or k.buffer row [] in
    let cell = get_or line col (blank k) in
    let line_there = get_elem?-some k.buffer row [] (omega (arith, h)) in
    let cell_there = get_elem?-some line col (blank k) (omega (arith, h)) in
    (
      set k.buffer row (set line col (change cell)),
      rw (line_there, cell_there) refl,
      SameShape-set k.buffer row (set line col (change cell)) (length-set line col (change cell)),
    )

-- A cell that is not there.
pub set_cell-fault :
    (k : Console) (row col : ℕ) (change : ConsoleChar → ConsoleChar)
    → k.buffer ≡ []
    → set_cell k row col change ≡ fault
unfolding set_cell
set_cell-fault k row col change h = rw h refl

length-clean_line : (n : ℕ) (line : List ConsoleChar) → length (clean_line n line) ≡ length line
unfolding clean_line
length-clean_line zero line = refl
length-clean_line (suc n) [] = refl
length-clean_line (suc n) (cell ∷ line) = ap suc (length-clean_line n line)

length-clean_lines :
    (k : Console) (row : ℕ) (b : List (List ConsoleChar)) → length (clean_lines k row b) ≡ length b
unfolding clean_lines
length-clean_lines k row [] = refl
length-clean_lines k row (line ∷ b) = ap suc (length-clean_lines k (row + 1) b)

width-clean_lines :
    (k : Console) (row : ℕ) (b : List (List ConsoleChar)) (i : ℕ)
    → width (clean_lines k row b) i ≡ width b i
unfolding clean_lines
width-clean_lines k row [] i = refl
width-clean_lines k row (line ∷ b) zero =
    elim (Bool-cases (leb k.viewport_offset row && ltb (row - k.viewport_offset) k.screen_rows)) [
      | inl e ↦ rw e (length-clean_line k.screen_cols line)
      | inr e ↦ rw e refl
    ]
width-clean_lines k row (line ∷ b) (suc i) = width-clean_lines k (row + 1) b i

pub redraw-SameShape : (k : Console) → SameShape k.buffer (redraw k).buffer
unfolding redraw
redraw-SameShape k = record {
  lines = length-clean_lines k 0 k.buffer;
  widths = λ i. width-clean_lines k 0 k.buffer i;
}
