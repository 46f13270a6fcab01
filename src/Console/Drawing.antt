-- ===== src/Console/Drawing.antt =====
-- `redraw`, `set_cursor` and the end of a line of console.cpp keep what the lines show.
use hltos.Base.{
  ℕ, zero, suc, ◌+◌, ◌-◌, ◌%◌, ◌^◌, ◌≡◌, refl, ap, ◌∙◌, Bool, true, false, List, [], ◌∷◌, arith,
  ltb, leb, ◌==◌, if◌then◌else◌, ◌&&◌, Bool-cases, inl, inr, get_or, sub64,
}
use hltos.Base.Run.{Run, ok, panic, fault, ◌>>=◌}
use hltos.Console.{
  ConsoleChar, Console, ensure_valid_cursor_buffer_pos, set_cell, clean_line, clean_lines, redraw,
  scroll, set_cursor,
}
use hltos.Console.Cells.{HasCell, ensure-HasCell}
use hltos.Console.Screen.{dark, char_at, Shows, Shows-bind, ensure-char_at, set_cell-char_at}

char_at-clean_line :
    (n : ℕ) (line : List ConsoleChar) (j : ℕ)
    → (get_or (clean_line n line) j dark).c ≡ (get_or line j dark).c
unfolding clean_line
char_at-clean_line zero line j = refl
char_at-clean_line (suc n) [] j = refl
char_at-clean_line (suc n) (cell ∷ line) zero = refl
char_at-clean_line (suc n) (cell ∷ line) (suc j) = char_at-clean_line n line j

char_at-clean_lines :
    (k : Console) (row : ℕ) (b : List (List ConsoleChar)) (i j : ℕ)
    → char_at (clean_lines k row b) i j ≡ char_at b i j
unfolding clean_lines
char_at-clean_lines k row [] i j = refl
char_at-clean_lines k row (line ∷ b) zero j =
    elim (Bool-cases (leb k.viewport_offset row && ltb (row - k.viewport_offset) k.screen_rows)) [
      | inl e ↦ rw e (char_at-clean_line k.screen_cols line j)
      | inr e ↦ rw e refl
    ]
char_at-clean_lines k row (line ∷ b) (suc i) j = char_at-clean_lines k (row + 1) b i j

Shows-redraw : (s : ℕ → ℕ → ℕ) (k : Console) → Shows s (ok k) → Shows s (ok (redraw k))
unfolding redraw
Shows-redraw s k h = λ i j. char_at-clean_lines k 0 k.buffer i j ∙ h i j

-- A cell marked dirty.
mark-Shows :
    (s : ℕ → ℕ → ℕ) (k : Console) (row col : ℕ)
    → HasCell k.buffer row col
    → Shows s (ok k)
    → Shows s (set_cell k row col (λ cell. record cell { dirty = true }))
mark-Shows s k row col here h =
    same (set_cell k row col (λ cell. record cell { dirty = true }))
      (set_cell-char_at k row col (λ cell. record cell { dirty = true }) here)
  where
    same :
        (r : Run Console)
        → Shows
            (λ i j. if row == i && col == j then char_at k.buffer row col else char_at k.buffer i j)
            r
        → Shows s r
    same panic g = 0
    same fault g = 0
    same (ok t) g = λ i j. g i j ∙ elim (Bool-cases (row == i && col == j)) [
      | inl e ↦
          let row_same : row ≡ i = ground (arith, e) in
          let col_same : col ≡ j = ground (arith, e) in
          rw e (
            ap (λ r. char_at k.buffer r col) row_same
            ∙ ap (λ c. char_at k.buffer i c) col_same
            ∙ h i j)
      | inr e ↦ rw e (h i j)
    ]

-- A place marked, the first column of the next row, and a redraw.
pub break-Shows :
    (s : ℕ → ℕ → ℕ) (depth : ℕ) (k : Console) (col row to : ℕ)
    → ((m : Console) → Shows s (ok m) → Shows s (set_cursor depth m 0 to))
    → HasCell k.buffer row col
    → Shows s (ok k)
    → Shows s (
        set_cell k row col (λ cell. record cell { dirty = true }) >>= λ marked.
        set_cursor depth marked 0 to >>= λ there. ok (redraw there))
break-Shows s depth k col row to next here h =
    Shows-bind s (set_cell k row col (λ cell. record cell { dirty = true })) _
      (mark-Shows s k row col here h)
      (λ m g. Shows-bind s (set_cursor depth m 0 to) _ (next m g) (λ t. Shows-redraw s t))

scroll-Shows :
    (s : ℕ → ℕ → ℕ) (t : Console) (b : Bool)
    → Shows s (ok t)
    → Shows s (ok (if b then scroll t else t))
unfolding scroll
scroll-Shows s t true g = Shows-redraw s (record t { viewport_offset = t.viewport_offset + 1 }) g
scroll-Shows s t false g = g

either {ℓ κ} :
    {A : Type ℓ} (P : A → Type κ) (b : Bool) {x y : A} → P x → P y → P (if b then x else y)
either P true f g = f
either P false f g = g

pub set_cursor-Shows :
    (s : ℕ → ℕ → ℕ) (depth : ℕ) (k : Console) (col row : ℕ)
    → Shows s (ok k)
    → Shows s (set_cursor depth k col row)
unfolding set_cursor
set_cursor-Shows s zero k col row h = 0
set_cursor-Shows s (suc depth) k col row h =
    let next : (m : Console)
        → Shows s (ok m)
        → Shows s (set_cursor depth m 0 ((row + 1) % 2 ^ 32)) =
      λ m. set_cursor-Shows s depth m 0 ((row + 1) % 2 ^ 32) in
    let moved = record (ensure_valid_cursor_buffer_pos k row col) {
      cursor_col = col;
      cursor_row = row;
    } in
    let grown : Shows s (ok moved) = λ i j. ensure-char_at k row col i j ∙ h i j in
    either (Shows s) (k.cursor_col == col && k.cursor_row == row) h (
      Shows-bind s _ _
        (either (Shows s) (leb k.screen_cols col)
          (break-Shows s depth moved col row ((row + 1) % 2 ^ 32) next (ensure-HasCell k row col)
            grown)
          grown)
        (λ t. scroll-Shows s t (leb t.screen_rows (sub64 t.cursor_row t.viewport_offset))))
