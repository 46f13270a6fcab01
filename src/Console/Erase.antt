-- ===== src/Console/Erase.antt =====
-- `erase_in_line` of console.cpp, and the sequence `ESC [ K` of ansi.cpp.
use hltos.Base.{
  ℕ, zero, suc, ◌+◌, ◌-◌, ◌≤◌, ◌<◌, ◌≡◌, refl, sym, ap, ◌∙◌, Bool, true, false, [], arith, ltb, leb,
  ◌==◌, if◌then◌else◌, Bool-cases, inl, inr, length, ◌&&◌, get_or, get_or-set, length-set,
}
use mathlib.Core.Path.{subst}
use hltos.Base.Run.{ok}
use hltos.Console.{
  ConsoleChar, Console, blank, push_lines, push_blanks, ensure_valid_cursor_buffer_pos, set_cell,
  erase_cells, erase_in_line,
}
use hltos.Console.Cells.{
  HasCell, HasCell-SameShape, ensure-HasCell, set_cell-SameShape, length-push_lines,
  length-push_blanks, get_or-push_lines,
}
use hltos.Console.Screen.{char_at, dark, Shows, ensure-char_at, set_cell-char_at}
use hltos.Console.Puts.{Page, Refines}

-- The columns from one up to another are blank in the row of the pen.
abbrev pub wipe : Page → ℕ → ℕ → Page
wipe p from to = record p {
  shown = λ i j. if p.row == i && (leb from j && ltb j to) then 32 else p.shown i j;
}

if_true {ℓ} : {A : Type ℓ} {t : Bool} (x y : A) → t ≡ true → (if t then x else y) ≡ x
if_true x y e = rw e refl

if_false {ℓ} : {A : Type ℓ} {t : Bool} (x y : A) → t ≡ false → (if t then x else y) ≡ y
if_false x y e = rw e refl

-- The cells that were there are there still.
ensure-keeps :
    (k : Console) (row col i j : ℕ)
    → HasCell k.buffer i j
    → HasCell (ensure_valid_cursor_buffer_pos k row col).buffer i j
unfolding ensure_valid_cursor_buffer_pos
ensure-keeps k row col i j h =
    let n = row + 1 - length k.buffer in
    let b = push_lines n k.buffer in
    let line = get_or b row [] in
    let wide = push_blanks (col + 1 - length line) (blank k) line in
    let longer = length-push_lines n k.buffer in
    let e = get_or-set b row i wide [] (omega (arith, longer)) in
    let old = ap length (get_or-push_lines n k.buffer i) in
    (
      omega (arith, length-set b row wide, longer, h),
      elim (Bool-cases (row == i)) [
        | inl same ↦
            let here : row ≡ i = ground (arith, same) in
            let wider = length-push_blanks (col + 1 - length line) (blank k) line in
            subst (λ l. j < length l) (sym (e ∙ if_true wide (get_or b i []) same))
              (omega (arith, wider, old, ap (λ r. length (get_or b r [])) here, h))
        | inr other ↦
            subst (λ l. j < length l) (sym (e ∙ if_false wide (get_or b i []) other))
              (omega (arith, old, h))
      ],
    )

wiped :
    (k : Console) (p : Page) (col i j : ℕ) (cell : ConsoleChar)
    → Refines k p
    → cell.c ≡ 32
    → (if k.cursor_row == i && col == j
        then cell.c
        else char_at (ensure_valid_cursor_buffer_pos k k.cursor_row col).buffer i j)
      ≡ (if p.row == i && (leb col j && ltb j (col + 1)) then 32 else p.shown i j)
wiped k p col i j cell r e =
    let before = ensure-char_at k k.cursor_row col i j ∙ r.same_chars i j in
    let one : (leb col j && ltb j (col + 1)) ≡ (col == j) = ground arith in
    rw (before, r.same_row, one, e) refl

erase_step :
    (k : Console) (p : Page) (col : ℕ) (change : ConsoleChar → ConsoleChar)
    → ((cell : ConsoleChar) → (change cell).c ≡ 32)
    → Refines k p
    → (k' : Console) × (set_cell
          (ensure_valid_cursor_buffer_pos k k.cursor_row col)
          k.cursor_row
          col
          change
        ≡ ok k')
      × Refines k' (wipe p col (col + 1))
unfolding ensure_valid_cursor_buffer_pos
erase_step k p col change blanks r =
    let k1 = ensure_valid_cursor_buffer_pos k k.cursor_row col in
    let here = ensure-HasCell k k.cursor_row col in
    let (b, e, shape) = set_cell-SameShape k1 k.cursor_row col change here in
    let shown = subst (Shows _) e (set_cell-char_at k1 k.cursor_row col change here) in
    (
      record k1 { buffer = b },
      e,
      record {
        valid = record {
          narrow = r.valid.narrow;
          on_screen = r.valid.on_screen;
          on_cell =
              HasCell-SameShape k1.buffer b k.cursor_row k.cursor_col shape
                (ensure-keeps k k.cursor_row col k.cursor_row k.cursor_col r.valid.on_cell);
        };
        same_cols = r.same_cols;
        same_col = r.same_col;
        same_row = r.same_row;
        same_chars = λ i j.
            shown i j
            ∙ wiped k p col i j (change (get_or (get_or k1.buffer k.cursor_row []) col dark)) r
                (blanks (get_or (get_or k1.buffer k.cursor_row []) col dark));
      },
    )

-- A page that is the same in every place.
Refines-eq :
    (k : Console) (p : Page) (s : ℕ → ℕ → ℕ)
    → ((i j : ℕ) → p.shown i j ≡ s i j)
    → Refines k p
    → Refines k (record p { shown = s })
Refines-eq k p s e r = record {
  valid = r.valid;
  same_cols = r.same_cols;
  same_col = r.same_col;
  same_row = r.same_row;
  same_chars = λ i j. r.same_chars i j ∙ e i j;
}

-- The loop, by the columns left.
erase_cells-Refines :
    (n from : ℕ) (k : Console) (p : Page)
    → Refines k p
    → (k' : Console) × (erase_cells n from k ≡ ok k') × Refines k' (wipe p from (from + n))
unfolding erase_cells
erase_cells-Refines zero from k p r = (
  k,
  refl,
  Refines-eq k p (wipe p from (from + 0)).shown
      (λ i j. sym (nothing (p.row == i) from j (p.shown i j))) r,
)
  where
    nothing :
        (t : Bool) (from j x : ℕ) → (if t && (leb from j && ltb j (from + 0)) then 32 else x) ≡ x
    nothing t from j x = ground arith
erase_cells-Refines (suc n) from k p r =
    let (k1, e1, r1) =
      erase_step k p from (λ cell. record cell { c = 32; dirty = true }) (λ cell. refl) r in
    let (k2, e2, r2) = erase_cells-Refines n (from + 1) k1 (wipe p from (from + 1)) r1 in
    (
      k2,
      rw e1 e2,
      Refines-eq k2 (wipe (wipe p from (from + 1)) (from + 1) (from + 1 + n))
          (wipe p from (from + suc n)).shown (λ i j. joined (p.row == i) from j n (p.shown i j)) r2,
    )
  where
    joined :
        (t : Bool) (from j n x : ℕ)
        → (if t && (leb (from + 1) j && ltb j (from + 1 + n))
            then 32
            else if t && (leb from j && ltb j (from + 1))
            then 32
            else x)
          ≡ (if t && (leb from j && ltb j (from + suc n)) then 32 else x)
    joined t from j n x = ground arith

-- `erase_in_line` blanks its columns and leaves the cursor where it is.
pub erase_in_line-Refines :
    (k : Console) (p : Page) (from to : ℕ)
    → Refines k p
    → from ≤ to
    → (k' : Console) × (erase_in_line k from to ≡ ok k') × Refines k' (wipe p from to)
unfolding erase_in_line
erase_in_line-Refines k p from to r h =
    let e : from + (to - from) ≡ to = omega (arith, h) in
    subst
      (λ t. (k' : Console) × (erase_cells (to - from) from k ≡ ok k') × Refines k' (wipe p from t))
      e (erase_cells-Refines (to - from) from k p r)
