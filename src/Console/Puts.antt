-- ===== src/Console/Puts.antt =====
-- `put` of console.cpp, of a character, against a page that is typed on.
use hltos.Base.{
  ℕ, suc, ◌+◌, ◌%◌, ◌^◌, ◌<◌, ◌≡◌, refl, sym, ap, ◌∙◌, true, arith, ltb, ◌==◌, if◌then◌else◌,
  Bool-cases, inl, inr, ◌&&◌,
}
use mathlib.Core.Path.{subst}
use hltos.Base.Run.{Run, ok, ◌>>=◌}
use hltos.Console.{
  ConsoleChar, Console, ensure_valid_cursor_buffer_pos, set_cell, newline, move_cursor, put,
}
use hltos.Console.Cells.{HasCell, HasCell-SameShape, ensure-HasCell, set_cell-SameShape}
use hltos.Console.Valid.{Valid, Moved, set_cursor-Moved, newline-Moved}
use hltos.Console.Screen.{char_at, Shows, Shows-bind, Shows-eq, ensure-char_at, set_cell-char_at}
use hltos.Console.Drawing.{break-Shows, set_cursor-Shows}

-- Where the cursor stands after a character.
abbrev pub next_col : Console → ℕ → ℕ
next_col k c =
    if c == 10 then 0 else if ltb (k.cursor_col + 1) k.screen_cols then k.cursor_col + 1 else 0

abbrev pub next_row_of : Console → ℕ → ℕ
next_row_of k c =
    if c == 10
    then (k.cursor_row + 1) % 2 ^ 32
    else if ltb (k.cursor_col + 1) k.screen_cols
    then k.cursor_row
    else (k.cursor_row + 1) % 2 ^ 32

-- One step to the right.
move_right :
    (depth : ℕ) (k : Console)
    → Valid k
    → k.cursor_row < 2 ^ 32
    → Moved k
        (move_cursor (suc (suc depth)) k 1 0)
        (if ltb (k.cursor_col + 1) k.screen_cols then k.cursor_col + 1 else 0)
        (if ltb (k.cursor_col + 1) k.screen_cols then k.cursor_row else (k.cursor_row + 1) % 2 ^ 32)
unfolding move_cursor
move_right depth k v small =
    let col_fits : (k.cursor_col + 1) % 2 ^ 32 ≡ k.cursor_col + 1 =
      omega (arith, v.narrow, v.on_screen) in
    let row_fits : (k.cursor_row + 0) % 2 ^ 32 ≡ k.cursor_row = omega (arith, small) in
    rw (col_fits, row_fits)
      (set_cursor-Moved depth k (k.cursor_col + 1) k.cursor_row v small
        (omega (arith, v.on_screen)))

put_char :
    (depth : ℕ) (k : Console) (change : ConsoleChar → ConsoleChar)
    → Valid k
    → k.cursor_row < 2 ^ 32
    → Moved k
        (set_cell
            (ensure_valid_cursor_buffer_pos k k.cursor_row k.cursor_col)
            k.cursor_row
            k.cursor_col
            change
          >>= λ written. move_cursor (suc (suc depth)) written 1 0)
        (if ltb (k.cursor_col + 1) k.screen_cols then k.cursor_col + 1 else 0)
        (if ltb (k.cursor_col + 1) k.screen_cols then k.cursor_row else (k.cursor_row + 1) % 2 ^ 32)
unfolding ensure_valid_cursor_buffer_pos
put_char depth k change v small =
    let k1 = ensure_valid_cursor_buffer_pos k k.cursor_row k.cursor_col in
    let here = ensure-HasCell k k.cursor_row k.cursor_col in
    let (b, e, shape) = set_cell-SameShape k1 k.cursor_row k.cursor_col change here in
    let cell = HasCell-SameShape k1.buffer b k.cursor_row k.cursor_col shape here in
    subst
      (λ r.
        Moved k (r >>= λ written. move_cursor (suc (suc depth)) written 1 0)
          (if ltb (k.cursor_col + 1) k.screen_cols then k.cursor_col + 1 else 0)
          (if ltb (k.cursor_col + 1) k.screen_cols
            then k.cursor_row
            else (k.cursor_row + 1) % 2 ^ 32))
      (sym e)
      (move_right depth (record k1 { buffer = b })
        (record { narrow = v.narrow; on_screen = v.on_screen; on_cell = cell }) small)

-- `put` of a character ends and keeps the cursor on the screen and on a cell.
pub put-Moved :
    (depth : ℕ) (k : Console) (c : ℕ)
    → Valid k
    → k.cursor_row < 2 ^ 32
    → Moved k (put (suc (suc depth)) k c) (next_col k c) (next_row_of k c)
unfolding put
put-Moved depth k c v small = elim (Bool-cases (c == 10)) [
  | inl line ↦ rw line (newline-Moved (suc depth) k v small)
  | inr other ↦ rw other (put_char depth k (λ cell. record cell { c = c; dirty = true }) v small)
]

-- A page of so many columns, with a pen on it.
pub record Page : Type 0 where
  pub cols : ℕ
  pub col : ℕ
  pub row : ℕ
  pub shown : ℕ → ℕ → ℕ

-- A line feed moves the pen to the next row; another character is written at the pen, and the
-- pen moves to the right, from the last column to the next row.
unfoldable pub type_char : Page → ℕ → Page
type_char p c = if c == 10 then record p { col = 0; row = p.row + 1 } else record p {
  col = if ltb (p.col + 1) p.cols then p.col + 1 else 0;
  row = if ltb (p.col + 1) p.cols then p.row else p.row + 1;
  shown = λ i j. if p.row == i && p.col == j then c else p.shown i j;
}

-- The console stands for the page.
pub record Refines (k : Console) (p : Page) : Type 0 where
  pub valid : Valid k
  pub same_cols : k.screen_cols ≡ p.cols
  pub same_col : k.cursor_col ≡ p.col
  pub same_row : k.cursor_row ≡ p.row
  pub same_chars : (i j : ℕ) → char_at k.buffer i j ≡ p.shown i j

put_char-Shows :
    (depth : ℕ) (k : Console) (c : ℕ)
    → Shows
        (λ i j. if k.cursor_row == i && k.cursor_col == j then c else char_at k.buffer i j)
        (set_cell
            (ensure_valid_cursor_buffer_pos k k.cursor_row k.cursor_col)
            k.cursor_row
            k.cursor_col
            (λ cell. record cell { c = c; dirty = true })
          >>= λ written. move_cursor depth written 1 0)
unfolding move_cursor
put_char-Shows depth k c =
    let k1 = ensure_valid_cursor_buffer_pos k k.cursor_row k.cursor_col in
    let s = λ (i : ℕ) (j : ℕ).
      if k.cursor_row == i && k.cursor_col == j then c else char_at k.buffer i j in
    let s1 = λ (i : ℕ) (j : ℕ).
      if k.cursor_row == i && k.cursor_col == j then c else char_at k1.buffer i j in
    Shows-bind s
      (set_cell k1 k.cursor_row k.cursor_col (λ cell. record cell { c = c; dirty = true })) _
      (Shows-eq s1 s
        (set_cell k1 k.cursor_row k.cursor_col (λ cell. record cell { c = c; dirty = true }))
        (λ i j.
          ap (λ x. if k.cursor_row == i && k.cursor_col == j then c else x)
            (ensure-char_at k k.cursor_row k.cursor_col i j))
        (set_cell-char_at k1 k.cursor_row k.cursor_col (λ cell. record cell { c = c; dirty = true })
          (ensure-HasCell k k.cursor_row k.cursor_col)))
      (λ m g.
        set_cursor-Shows s depth m ((m.cursor_col + 1) % 2 ^ 32) ((m.cursor_row + 0) % 2 ^ 32) g)

pub newline-Shows :
    (s : ℕ → ℕ → ℕ) (depth : ℕ) (k : Console)
    → HasCell k.buffer k.cursor_row k.cursor_col
    → Shows s (ok k)
    → Shows s (newline depth k)
unfolding newline
newline-Shows s depth k here h =
    let to = (k.cursor_row + 1) % 2 ^ 32 in
    break-Shows s depth k k.cursor_col k.cursor_row to (λ m. set_cursor-Shows s depth m 0 to) here h

-- What is shown at the pen.
written-eq :
    (k : Console) (p : Page) (c : ℕ) (i j : ℕ)
    → Refines k p
    → (if k.cursor_row == i && k.cursor_col == j then c else char_at k.buffer i j)
      ≡ (if p.row == i && p.col == j then c else p.shown i j)
written-eq k p c i j r = rw (r.same_row, r.same_col, r.same_chars i j) refl

put-Shows :
    (depth : ℕ) (k : Console) (p : Page) (c : ℕ)
    → Refines k p
    → Shows (type_char p c).shown (put depth k c)
unfolding put type_char
put-Shows depth k p c r = elim (Bool-cases (c == 10)) [
  | inl line ↦ rw line (newline-Shows p.shown depth k r.valid.on_cell r.same_chars)
  | inr other ↦ rw other (Shows-eq _ _ _ (λ i j. written-eq k p c i j r) (put_char-Shows depth k c))
]

pub Moved-Refines :
    (k : Console) (r : Run Console) (col row : ℕ) (p : Page)
    → Moved k r col row
    → Shows p.shown r
    → col ≡ p.col
    → row ≡ p.row
    → k.screen_cols ≡ p.cols
    → (k' : Console) × (r ≡ ok k') × Refines k' p
Moved-Refines k r col row p (k', e, v, c1, c2, c3) s e1 e2 e3 = (
  k',
  e,
  record {
    valid = v;
    same_cols = c3 ∙ e3;
    same_col = c1 ∙ e1;
    same_row = c2 ∙ e2;
    same_chars = subst (Shows p.shown) e s;
  },
)

next_place :
    (k : Console) (p : Page) (c : ℕ)
    → Refines k p
    → p.row + 1 < 2 ^ 32
    → (next_col k c ≡ (type_char p c).col)
      × (next_row_of k c ≡ (type_char p c).row)
      × (k.screen_cols ≡ (type_char p c).cols)
unfolding type_char
next_place k p c r small =
    let fits : (p.row + 1) % 2 ^ 32 ≡ p.row + 1 = omega (arith, small) in
    elim (Bool-cases (c == 10)) [
      | inl line ↦ rw (line, r.same_row, fits) (refl, refl, r.same_cols)
      | inr other ↦ rw (other, r.same_row, r.same_col, r.same_cols, fits) (refl, refl, refl)
    ]

-- `put` of a character types it on the page.
pub put-Refines :
    (depth : ℕ) (k : Console) (p : Page) (c : ℕ)
    → Refines k p
    → p.row + 1 < 2 ^ 32
    → (k' : Console) × (put (suc (suc depth)) k c ≡ ok k') × Refines k' (type_char p c)
put-Refines depth k p c r small =
    let (e1, e2, e3) = next_place k p c r small in
    Moved-Refines k (put (suc (suc depth)) k c) (next_col k c) (next_row_of k c) (type_char p c)
      (put-Moved depth k c r.valid (omega (arith, r.same_row, small)))
      (put-Shows (suc (suc depth)) k p c r) e1 e2 e3
