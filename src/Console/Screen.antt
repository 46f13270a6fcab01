-- ===== src/Console/Screen.antt =====
-- What the lines of console.cpp show: the character at every place, a blank where there is no cell.
use hltos.Base.{
  ℕ, zero, suc, ◌+◌, ◌-◌, ◌<◌, ◌≡◌, refl, ap, ◌∙◌, Bool, true, false, List, [], ◌∷◌, ◌++◌, arith,
  ◌==◌, if◌then◌else◌, ◌&&◌, Bool-cases, inl, inr, length, get_or, set, get_or-set,
}
use hltos.Base.Run.{Run, ok, panic, fault, ◌>>=◌}
use hltos.Console.{
  ConsoleChar, Console, blank, push_blanks, push_lines, ensure_valid_cursor_buffer_pos, set_cell,
}
use hltos.Console.Cells.{HasCell, length-push_lines, get_or-push_lines, get_elem?-some}

abbrev pub dark : ConsoleChar
dark = record { c = 32; fg = 0; bg = 0; dirty = false }

abbrev pub char_at : List (List ConsoleChar) → ℕ → ℕ → ℕ
char_at b i j = (get_or (get_or b i []) j dark).c

-- The call shows these characters, if it returns.
abbrev pub Shows : (ℕ → ℕ → ℕ) → Run Console → Type 0
Shows s (ok k) = (i j : ℕ) → char_at k.buffer i j ≡ s i j
Shows s panic = ℕ
Shows s fault = ℕ

-- What is shown before is shown after.
pub Shows-bind :
    (s : ℕ → ℕ → ℕ) (r : Run Console) (f : Console → Run Console)
    → Shows s r
    → ((k : Console) → Shows s (ok k) → Shows s (f k))
    → Shows s (r >>= f)
Shows-bind s (ok k) f h g = g k h
Shows-bind s panic f h g = 0
Shows-bind s fault f h g = 0

pub Shows-eq :
    (s s' : ℕ → ℕ → ℕ) (r : Run Console) → ((i j : ℕ) → s i j ≡ s' i j) → Shows s r → Shows s' r
Shows-eq s s' (ok k) e h = λ i j. h i j ∙ e i j
Shows-eq s s' panic e h = 0
Shows-eq s s' fault e h = 0

-- A blank at the end of a line shows nothing new.
push_blank :
    (cell : ConsoleChar) (line : List ConsoleChar) (j : ℕ)
    → cell.c ≡ 32
    → (get_or (line ++ cell ∷ []) j dark).c ≡ (get_or line j dark).c
push_blank cell [] zero e = e
push_blank cell [] (suc j) e = refl
push_blank cell (x ∷ line) zero e = refl
push_blank cell (x ∷ line) (suc j) e = push_blank cell line j e

char-push_blanks :
    (n : ℕ) (cell : ConsoleChar) (line : List ConsoleChar) (j : ℕ)
    → cell.c ≡ 32
    → (get_or (push_blanks n cell line) j dark).c ≡ (get_or line j dark).c
unfolding push_blanks
char-push_blanks zero cell line j e = refl
char-push_blanks (suc n) cell line j e =
    char-push_blanks n cell (line ++ cell ∷ []) j e ∙ push_blank cell line j e

-- A line put in the place of another.
char_at-set :
    (b : List (List ConsoleChar)) (row : ℕ) (line : List ConsoleChar) (i j : ℕ)
    → row < length b
    → char_at (set b row line) i j ≡ (if row == i then (get_or line j dark).c else char_at b i j)
char_at-set b row line i j h =
    ap (λ l. (get_or l j dark).c) (get_or-set b row i line [] h) ∙ moved (row == i)
  where
    moved :
        (t : Bool)
        → (get_or (if t then line else get_or b i []) j dark).c
          ≡ (if t then (get_or line j dark).c else char_at b i j)
    moved true = refl
    moved false = refl

pub ensure-char_at :
    (k : Console) (row col i j : ℕ)
    → char_at (ensure_valid_cursor_buffer_pos k row col).buffer i j ≡ char_at k.buffer i j
unfolding ensure_valid_cursor_buffer_pos
ensure-char_at k row col i j =
    let n = row + 1 - length k.buffer in
    let b = push_lines n k.buffer in
    let line = get_or b row [] in
    let wide = push_blanks (col + 1 - length line) (blank k) line in
    let as_before = ap (λ l. (get_or l j dark).c) (get_or-push_lines n k.buffer i) in
    char_at-set b row wide i j (omega (arith, length-push_lines n k.buffer))
    ∙ elim (Bool-cases (row == i)) [
      | inl e ↦
          let here : row ≡ i = ground (arith, e) in
          rw e (
            char-push_blanks (col + 1 - length line) (blank k) line j refl
            ∙ ap (λ r. char_at b r j) here
            ∙ as_before)
      | inr e ↦ rw e as_before
    ]

-- A cell that is there, changed.
pub set_cell-char_at :
    (k : Console) (row col : ℕ) (change : ConsoleChar → ConsoleChar)
    → HasCell k.buffer row col
    → Shows
        (λ i j.
          if row == i && col == j
          then (change (get_or (get_or k.buffer row []) col dark)).c
          else char_at k.buffer i j)
        (set_cell k row col change)
unfolding set_cell
set_cell-char_at k row col change h =
    let line = get_or k.buffer row [] in
    let cell = get_or line col dark in
    let line_there = get_elem?-some k.buffer row [] (omega (arith, h)) in
    let cell_there = get_elem?-some line col dark (omega (arith, h)) in
    rw (line_there, cell_there) (λ i j. shown i j)
  where
    at_col :
        (t : Bool) (cell : ConsoleChar) (line : List ConsoleChar) (i j : ℕ)
        → row ≡ i
        → (if t then cell else get_or (get_or k.buffer row []) j dark).c
          ≡ (if t then cell.c else char_at k.buffer i j)
    at_col true cell line i j e = refl
    at_col false cell line i j e = ap (λ r. char_at k.buffer r j) e

    shown :
        (i j : ℕ)
        → char_at
            (set k.buffer row (
              set (get_or k.buffer row []) col (change (get_or (get_or k.buffer row []) col dark))))
            i
            j
          ≡ (if row == i && col == j
              then (change (get_or (get_or k.buffer row []) col dark)).c
              else char_at k.buffer i j)
    shown i j =
        let line = get_or k.buffer row [] in
        let cell = get_or line col dark in
        char_at-set k.buffer row (set line col (change cell)) i j (omega (arith, h))
        ∙ elim (Bool-cases (row == i)) [
          | inl e ↦
              let here : row ≡ i = ground (arith, e) in
              rw e (
                ap (λ x. x.c) (get_or-set line col j (change cell) dark (omega (arith, h)))
                ∙ at_col (col == j) (change cell) line i j here)
          | inr e ↦ rw e refl
        ]
