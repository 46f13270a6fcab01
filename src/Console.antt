-- ===== src/Console.antt =====
-- The text console of src/kernel/lib/console/console.cpp: its lines of characters, the cursor and the
-- viewport. What is drawn into the framebuffer is left out. An access outside a line is a fault.
pub mod Ansi
pub mod Cells
pub mod Valid
pub mod Screen
pub mod Drawing
pub mod Puts
pub mod Erase
pub mod Arguments
pub mod Sequences
pub mod Escapes
mod Tests
use hltos.Base.{
  ℕ, zero, suc, ◌+◌, ◌-◌, ◌*◌, ◌/◌, ◌%◌, ◌^◌, Bool, true, false, not, ◌&&◌, ◌||◌, List, [], ◌∷◌,
  ◌++◌, Option, none, some, ltb, leb, ◌==◌, if◌then◌else◌, length, get_or, set, get_elem?, sub64,
}
use hltos.Base.Run.{Run, ok, panic, fault, ◌>>=◌, or_fault}

pub record ConsoleChar : Type 0 where
  pub c : ℕ
  pub fg : ℕ
  pub bg : ℕ
  pub dirty : Bool

pub record Console : Type 0 where
  pub cursor_col : ℕ
  pub cursor_row : ℕ
  pub current_fg : ℕ
  pub current_bg : ℕ
  pub prev_fg : ℕ
  pub prev_bg : ℕ
  pub screen_cols : ℕ
  pub screen_rows : ℕ
  pub viewport_offset : ℕ
  pub buffer : List (List ConsoleChar)

abbrev pub blank : Console → ConsoleChar
blank k = record { c = 32; fg = k.current_fg; bg = k.current_bg; dirty = true }

-- The lines stay as they are. The screen and the letters have a width and a height in pixels.
abbrev pub init : Console → ℕ → ℕ → ℕ → ℕ → Console
init k screen_width screen_height font_width font_height = record k {
  cursor_col = 0;
  cursor_row = 0;
  screen_cols = screen_width / font_width;
  screen_rows = screen_height / font_height;
  viewport_offset = 0;
}

-- The loops of `ensure_valid_cursor_buffer_pos`, by the rounds left.
unfoldable pub push_lines : ℕ → List (List ConsoleChar) → List (List ConsoleChar)
push_lines zero buffer = buffer
push_lines (suc rounds) buffer = push_lines rounds (buffer ++ [] ∷ [])

unfoldable pub push_blanks : ℕ → ConsoleChar → List ConsoleChar → List ConsoleChar
push_blanks zero cell line = line
push_blanks (suc rounds) cell line = push_blanks rounds cell (line ++ cell ∷ [])

unfoldable pub ensure_valid_cursor_buffer_pos : Console → ℕ → ℕ → Console
ensure_valid_cursor_buffer_pos k row col =
    let lines = push_lines (row + 1 - length k.buffer) k.buffer in
    let line = get_or lines row [] in
    record k { buffer = set lines row (push_blanks (col + 1 - length line) (blank k) line) }

-- A change of `buffer[row][col]`.
unfoldable pub set_cell : Console → ℕ → ℕ → (ConsoleChar → ConsoleChar) → Run Console
set_cell k row col change = or_fault (get_elem? k.buffer row) >>= λ line.
    or_fault (get_elem? line col) >>= λ cell.
    ok (record k { buffer = set k.buffer row (set line col (change cell)) })

-- The cells of a line that are drawn are clean again.
unfoldable pub clean_line : ℕ → List ConsoleChar → List ConsoleChar
clean_line zero line = line
clean_line (suc cols) [] = []
clean_line (suc cols) (cell ∷ line) = record cell { dirty = false } ∷ clean_line cols line

unfoldable pub clean_lines : Console → ℕ → List (List ConsoleChar) → List (List ConsoleChar)
clean_lines k row [] = []
clean_lines k row (line ∷ lines) =
    (if leb k.viewport_offset row && ltb (row - k.viewport_offset) k.screen_rows
      then clean_line k.screen_cols line
      else line)
    ∷ clean_lines k (row + 1) lines

unfoldable pub redraw : Console → Console
redraw k = record k { buffer = clean_lines k 0 k.buffer }

unfoldable pub scroll : Console → Console
scroll k = redraw (record k { viewport_offset = k.viewport_offset + 1 })

-- `set_cursor` and `newline`, which call each other, by the depth of calls that the stack has room for.
unfoldable pub set_cursor : ℕ → Console → ℕ → ℕ → Run Console
set_cursor zero k col row = panic
set_cursor (suc depth) k col row =
    let moved = record (ensure_valid_cursor_buffer_pos k row col) {
      cursor_col = col;
      cursor_row = row;
    } in
    let wrapped = set_cell moved row col (λ cell. record cell { dirty = true }) >>= λ marked.
    set_cursor depth marked 0 ((row + 1) % 2 ^ 32) >>= λ there. ok (redraw there) in
    if k.cursor_col == col && k.cursor_row == row
    then ok k
    else ((if leb k.screen_cols col then wrapped else ok moved) >>= λ t.
        ok (if leb t.screen_rows (sub64 t.cursor_row t.viewport_offset) then scroll t else t))

unfoldable pub newline : ℕ → Console → Run Console
newline depth k =
    set_cell k k.cursor_row k.cursor_col (λ cell. record cell { dirty = true }) >>= λ marked.
    set_cursor depth marked 0 ((k.cursor_row + 1) % 2 ^ 32) >>= λ there. ok (redraw there)

-- The coordinates are words of 32 bits; a distance is given as such a word.
unfoldable pub move_cursor : ℕ → Console → ℕ → ℕ → Run Console
move_cursor depth k dx dy =
    set_cursor depth k ((k.cursor_col + dx) % 2 ^ 32) ((k.cursor_row + dy) % 2 ^ 32)

unfoldable pub put : ℕ → Console → ℕ → Run Console
put depth k c =
    if c == 10
    then newline depth k
    else (set_cell (ensure_valid_cursor_buffer_pos k k.cursor_row k.cursor_col) k.cursor_row
          k.cursor_col (λ cell. record cell { c = c; dirty = true })
        >>= λ written. move_cursor depth written 1 0)

-- The loop of `erase_in_line`, by the columns left.
unfoldable pub erase_cells : ℕ → ℕ → Console → Run Console
erase_cells zero col k = ok k
erase_cells (suc cols) col k =
    set_cell (ensure_valid_cursor_buffer_pos k k.cursor_row col) k.cursor_row col
      (λ cell. record cell { c = 32; dirty = true })
    >>= λ erased. erase_cells cols (col + 1) erased

unfoldable pub erase_in_line : Console → ℕ → ℕ → Run Console
erase_in_line k from to = erase_cells (to - from) from k

unfoldable pub clear_to_eol : Console → Run Console
clear_to_eol k = erase_in_line k k.cursor_col k.screen_cols

unfoldable pub scroll_up : Console → Console
scroll_up k =
    if ltb 0 k.viewport_offset
    then redraw (record k { viewport_offset = k.viewport_offset - 1 })
    else k

unfoldable pub scroll_down : Console → Console
scroll_down k =
    if ltb k.viewport_offset k.cursor_row
    then redraw (record k { viewport_offset = k.viewport_offset + 1 })
    else k

unfoldable pub scroll_into_view : Console → Console
scroll_into_view k =
    if ltb (sub64 k.cursor_row k.viewport_offset) k.screen_rows
    then k
    else record k { viewport_offset = k.cursor_row }

unfoldable pub backspace : ℕ → Console → Run Console
backspace depth k = if k.cursor_col == 0 then ok k else move_cursor depth k (2 ^ 32 - 1) 0

abbrev pub set_color : Console → ℕ → ℕ → Console
set_color k fg bg = record k {
  prev_fg = k.current_fg;
  prev_bg = k.current_bg;
  current_fg = fg;
  current_bg = bg;
}

abbrev pub reset_color : Console → Console
reset_color k = record k { current_fg = k.prev_fg; current_bg = k.prev_bg }

unfoldable pub clear : ℕ → Console → Run Console
clear depth k = set_cursor depth k 0 ((k.cursor_row + 1) % 2 ^ 32) >>= λ moved.
    ok (redraw (record moved { viewport_offset = moved.cursor_row }))
