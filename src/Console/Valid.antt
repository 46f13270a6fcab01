-- ===== src/Console/Valid.antt =====
-- `newline` and `set_cursor` of console.cpp keep the cursor on the screen and on a cell.
use hltos.Base.{
  ℕ, suc, ◌+◌, ◌%◌, ◌^◌, ◌≤◌, ◌<◌, ◌≡◌, ◌≢◌, refl, sym, ap, ◌∙◌, true, false, List, arith, ltb, leb,
  ◌==◌, if◌then◌else◌, ◌&&◌, Bool-cases, inl, inr, sub64,
}
use mathlib.Core.Path.{subst}
use hltos.Base.Run.{Run, ok, ◌>>=◌}
use hltos.Console.{
  ConsoleChar, Console, ensure_valid_cursor_buffer_pos, set_cell, redraw, scroll, set_cursor,
  newline,
}
use hltos.Console.Cells.{
  HasCell, SameShape, HasCell-SameShape, ensure-HasCell, set_cell-SameShape, redraw-SameShape,
}

-- The cursor is on the screen and on a cell of the buffer.
pub record Valid (k : Console) : Type 0 where
  pub narrow : k.screen_cols < 2 ^ 32
  pub on_screen : k.cursor_col < k.screen_cols
  pub on_cell : HasCell k.buffer k.cursor_row k.cursor_col

-- The call succeeds, and the cursor stands at the place.
abbrev pub Moved : Console → Run Console → ℕ → ℕ → Type 0
Moved k r col row =
    (k' : Console) × (r ≡ ok k')
    × Valid k'
    × (k'.cursor_col ≡ col)
    × (k'.cursor_row ≡ row)
    × (k'.screen_cols ≡ k.screen_cols)

Valid-redraw : (k : Console) → Valid k → Valid (redraw k)
unfolding redraw
Valid-redraw k v = record {
  narrow = v.narrow;
  on_screen = v.on_screen;
  on_cell =
      HasCell-SameShape k.buffer (redraw k).buffer k.cursor_row k.cursor_col (redraw-SameShape k)
        v.on_cell;
}

Valid-scroll : (k : Console) → Valid k → Valid (scroll k)
unfolding scroll
Valid-scroll k v =
    Valid-redraw (record k { viewport_offset = k.viewport_offset + 1 })
      (record { narrow = v.narrow; on_screen = v.on_screen; on_cell = v.on_cell })

-- The end of `set_cursor`.
follow : Console → Console
follow t = if leb t.screen_rows (sub64 t.cursor_row t.viewport_offset) then scroll t else t

Valid-follow : (t : Console) → Valid t → Valid (follow t)
unfolding follow
Valid-follow t v = elim (Bool-cases (leb t.screen_rows (sub64 t.cursor_row t.viewport_offset))) [
  | inl e ↦ rw e (Valid-scroll t v)
  | inr e ↦ rw e v
]

follow-place :
    (t : Console)
    → ((follow t).cursor_col ≡ t.cursor_col)
      × ((follow t).cursor_row ≡ t.cursor_row)
      × ((follow t).screen_cols ≡ t.screen_cols)
unfolding follow scroll redraw
follow-place t = elim (Bool-cases (leb t.screen_rows (sub64 t.cursor_row t.viewport_offset))) [
  | inl e ↦ rw e (refl, refl, refl)
  | inr e ↦ rw e (refl, refl, refl)
]

Moved-follow :
    (k t : Console) (r : Run Console) (col row : ℕ)
    → r ≡ ok (follow t)
    → Valid t
    → t.cursor_col ≡ col
    → t.cursor_row ≡ row
    → t.screen_cols ≡ k.screen_cols
    → Moved k r col row
Moved-follow k t r col row e v c1 c2 c3 =
    let (p1, p2, p3) = follow-place t in (follow t, e, Valid-follow t v, p1 ∙ c1, p2 ∙ c2, p3 ∙ c3)

-- The console with a cell at the new place of the cursor.
abbrev moved_to : Console → ℕ → ℕ → Console
moved_to k col row = record (ensure_valid_cursor_buffer_pos k row col) {
  cursor_col = col;
  cursor_row = row;
}

-- A place on the screen is reached with no wrap.
set_cursor-inside :
    (depth : ℕ) (k : Console) (col row : ℕ)
    → k.screen_cols < 2 ^ 32
    → col < k.screen_cols
    → (k.cursor_col ≡ col → k.cursor_row ≡ row → HasCell k.buffer k.cursor_row k.cursor_col)
    → Moved k (set_cursor (suc depth) k col row) col row
unfolding set_cursor follow ensure_valid_cursor_buffer_pos
set_cursor-inside depth k col row narrow inside stays =
    let fits : leb k.screen_cols col ≡ false = ground (arith, inside) in
    elim (Bool-cases (k.cursor_col == col && k.cursor_row == row)) [
      | inl same ↦
          let col_same : k.cursor_col ≡ col = ground (arith, same) in
          let row_same : k.cursor_row ≡ row = ground (arith, same) in
          (
            k,
            rw same refl,
            record {
              narrow = narrow;
              on_screen = omega (arith, col_same, inside);
              on_cell = stays col_same row_same;
            },
            col_same,
            row_same,
            refl,
          )
      | inr other ↦
          Moved-follow k (moved_to k col row) (set_cursor (suc depth) k col row) col row
            (rw (other, fits) refl)
            (record { narrow = narrow; on_screen = inside; on_cell = ensure-HasCell k row col })
            refl refl refl
    ]

-- The first column of the next row, from a cell in another row.
next_row :
    (depth : ℕ) (k : Console) (row : ℕ)
    → k.screen_cols < 2 ^ 32
    → 0 < k.screen_cols
    → k.cursor_row ≢ row
    → Moved k (set_cursor (suc depth) k 0 row >>= λ there. ok (redraw there)) 0 row
unfolding redraw
next_row depth k row narrow wide other =
    redrawn (set_cursor-inside depth k 0 row narrow wide (λ e f. absurd (other f)))
  where
    redrawn :
        Moved k (set_cursor (suc depth) k 0 row) 0 row
        → Moved k (set_cursor (suc depth) k 0 row >>= λ there. ok (redraw there)) 0 row
    redrawn (t, e, v, c1, c2, c3) = (redraw t, rw e refl, Valid-redraw t v, c1, c2, c3)

-- `newline`, and the part of `set_cursor` that wraps: the cell at the place is marked first.
line_break :
    (depth : ℕ) (k : Console) (row col : ℕ) (change : ConsoleChar → ConsoleChar)
    → k.screen_cols < 2 ^ 32
    → 0 < k.screen_cols
    → HasCell k.buffer row col
    → k.cursor_row ≡ row
    → row < 2 ^ 32
    → Moved k
        (set_cell k row col change >>= λ marked.
          set_cursor (suc depth) marked 0 ((row + 1) % 2 ^ 32) >>= λ there. ok (redraw there))
        0
        ((row + 1) % 2 ^ 32)
line_break depth k row col change narrow wide here same small =
    marked (set_cell-SameShape k row col change here)
  where
    marked :
        (b : List (List ConsoleChar)) × (set_cell k row col change ≡ ok (record k { buffer = b }))
          × SameShape k.buffer b
        → Moved k
            (set_cell k row col change >>= λ marked.
              set_cursor (suc depth) marked 0 ((row + 1) % 2 ^ 32) >>= λ there. ok (redraw there))
            0
            ((row + 1) % 2 ^ 32)
    marked (b, e, shape) =
        subst (λ r. Moved k r 0 ((row + 1) % 2 ^ 32))
          (sym (
            ap
              (λ s. s >>= λ m.
                set_cursor (suc depth) m 0 ((row + 1) % 2 ^ 32) >>= λ there. ok (redraw there))
              e))
          (next_row depth (record k { buffer = b }) ((row + 1) % 2 ^ 32) narrow wide
            (λ f. omega (arith, f, same, small)))

wrap_step :
    (depth : ℕ) (k t : Console) (col row : ℕ)
    → (k.cursor_col == col && k.cursor_row == row) ≡ false
    → leb k.screen_cols col ≡ true
    → (set_cell (moved_to k col row) row col (λ cell. record cell { dirty = true }) >>= λ marked.
        set_cursor depth marked 0 ((row + 1) % 2 ^ 32) >>= λ there. ok (redraw there))
      ≡ ok t
    → set_cursor (suc depth) k col row ≡ ok (follow t)
unfolding set_cursor follow
wrap_step depth k t col row other over e = rw (other, over, e) refl

wrapped :
    (depth : ℕ) (k : Console) (col row : ℕ)
    → Valid k
    → row < 2 ^ 32
    → col ≡ k.screen_cols
    → Moved k (set_cursor (suc (suc depth)) k col row) 0 ((row + 1) % 2 ^ 32)
unfolding ensure_valid_cursor_buffer_pos
wrapped depth k col row v small end =
    let moved = moved_to k col row in
    after (
      line_break depth moved row col (λ cell. record cell { dirty = true }) v.narrow
        (omega (arith, v.on_screen)) (ensure-HasCell k row col) refl small)
  where
    after :
        Moved
          (moved_to k col row)
          (set_cell (moved_to k col row) row col (λ cell. record cell { dirty = true })
            >>= λ marked.
                set_cursor (suc depth) marked 0 ((row + 1) % 2 ^ 32) >>= λ there. ok (redraw there))
          0
          ((row + 1) % 2 ^ 32)
        → Moved k (set_cursor (suc (suc depth)) k col row) 0 ((row + 1) % 2 ^ 32)
    after (t, e, vt, c1, c2, c3) =
        Moved-follow k t (set_cursor (suc (suc depth)) k col row) 0 ((row + 1) % 2 ^ 32)
          (wrap_step (suc depth) k t col row (ground (arith, end, v.on_screen))
            (ground (arith, end)) e)
          vt c1 c2 c3

-- A place up to the end of the row.
pub set_cursor-Moved :
    (depth : ℕ) (k : Console) (col row : ℕ)
    → Valid k
    → row < 2 ^ 32
    → col ≤ k.screen_cols
    → Moved k
        (set_cursor (suc (suc depth)) k col row)
        (if ltb col k.screen_cols then col else 0)
        (if ltb col k.screen_cols then row else (row + 1) % 2 ^ 32)
set_cursor-Moved depth k col row v small bound = elim (Bool-cases (ltb col k.screen_cols)) [
  | inl inside ↦
      rw inside (
        set_cursor-inside (suc depth) k col row v.narrow (ground (arith, inside))
          (λ e f. v.on_cell))
  | inr outside ↦ rw outside (wrapped depth k col row v small (ground (arith, outside, bound)))
]

pub newline-Moved :
    (depth : ℕ) (k : Console)
    → Valid k
    → k.cursor_row < 2 ^ 32
    → Moved k (newline (suc depth) k) 0 ((k.cursor_row + 1) % 2 ^ 32)
unfolding newline
newline-Moved depth k v small =
    line_break depth k k.cursor_row k.cursor_col (λ cell. record cell { dirty = true }) v.narrow
      (omega (arith, v.on_screen)) v.on_cell refl small
