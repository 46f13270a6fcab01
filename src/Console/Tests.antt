-- ===== src/Console/Tests.antt =====
-- Runs of console.cpp and ansi.cpp on a small screen, and where the theorems apply.
use hltos.Base.{ℕ, zero, suc, ◌∷◌, [], ◌≡◌, refl, arith, true, List, Option, some, none}
use hltos.Base.Run.{Run, ok, panic, fault}
use hltos.Console.{
  Console, ensure_valid_cursor_buffer_pos, push_lines, push_blanks, set_cell, set_cursor, newline,
  move_cursor, put, init, redraw, clean_lines, clean_line, scroll, erase_in_line, erase_cells,
}
use hltos.Console.Ansi.{
  put_text, parse_ansi_escape, parse_csi, find_code, first_arg, default_args, run_code,
}
use hltos.Console.Screen.{char_at}
use hltos.Console.Puts.{Page, Refines}
use hltos.Console.Erase.{wipe}
use hltos.Console.Arguments.{given, sequence}
use hltos.Console.Sequences.{parse_ansi_escape-Refines}
use hltos.Console.Escapes.{type_text, put_text-Refines, put_text-unfinished}
use hltos.Algo.{tokenize}
use hltos.Fmt.{parse_uint, to_string, reverse_loop, copy_back}

abbrev unused : Console
unused = record {
  cursor_col = 0;
  cursor_row = 0;
  current_fg = 1;
  current_bg = 0;
  prev_fg = 1;
  prev_bg = 0;
  screen_cols = 0;
  screen_rows = 0;
  viewport_offset = 0;
  buffer = [];
}

-- 4 columns and 2 rows, before anything is written.
abbrev fresh : Console
fresh = init unused 35 40 8 16

-- With the first cell of the first line.
abbrev started : Console
started = record fresh { buffer = ((record { c = 32; fg = 1; bg = 0; dirty = true } ∷ []) ∷ []) }

abbrev empty_page : Page
empty_page = record { cols = 4; col = 0; row = 0; shown = λ i j. 32 }

-- What the runs show: the characters of a row, the cursor and the viewport.
abbrev row_of : Console → ℕ → List ℕ
row_of k i =
    char_at k.buffer i 0 ∷ char_at k.buffer i 1 ∷ char_at k.buffer i 2 ∷ char_at k.buffer i 3 ∷ []

abbrev place_of : Run (Option Console) → List ℕ
place_of (ok (some k)) = k.cursor_col ∷ k.cursor_row ∷ k.viewport_offset ∷ row_of k 0
place_of (ok none) = []
place_of panic = 1 ∷ []
place_of fault = 2 ∷ []

started-chars : (i j : ℕ) → char_at started.buffer i j ≡ 32
started-chars zero zero = refl
started-chars zero (suc j) = refl
started-chars (suc i) j = refl

started-Refines : Refines started empty_page
started-Refines = record {
  valid = record {
    narrow = omega arith;
    on_screen = omega arith;
    on_cell = (omega arith, omega arith);
  };
  same_cols = refl;
  same_col = refl;
  same_row = refl;
  same_chars = started-chars;
}

-- `abcde` goes on in the second row, and so does `ab`, a line feed and `c`.
wraps :
    place_of (put_text 2 8 fresh (97 ∷ 98 ∷ 99 ∷ 100 ∷ 101 ∷ []))
    ≡ 1 ∷ 1 ∷ 0 ∷ 97 ∷ 98 ∷ 99 ∷ 100 ∷ []
unfolding put_text put newline move_cursor set_cursor redraw scroll clean_lines clean_line set_cell
    push_lines push_blanks ensure_valid_cursor_buffer_pos
wraps = refl

feeds : place_of (put_text 2 8 fresh (97 ∷ 98 ∷ 10 ∷ 99 ∷ [])) ≡ 1 ∷ 1 ∷ 0 ∷ 97 ∷ 98 ∷ 32 ∷ 32 ∷ []
unfolding put_text put newline move_cursor set_cursor redraw scroll clean_lines clean_line set_cell
    push_lines push_blanks ensure_valid_cursor_buffer_pos
feeds = refl

-- A line feed as the first character: there is no cell to mark.
first_newline : place_of (put_text 2 8 fresh (10 ∷ [])) ≡ 2 ∷ []
unfolding put_text put newline set_cell
first_newline = refl

-- `abc`, ESC [ 2 D, ESC [ K: the cursor goes back over two characters, which are erased.
goes_back :
    place_of (put_text 2 9 fresh (97 ∷ 98 ∷ 99 ∷ 27 ∷ 91 ∷ 50 ∷ 68 ∷ 27 ∷ 91 ∷ 75 ∷ []))
    ≡ 1 ∷ 0 ∷ 0 ∷ 97 ∷ 32 ∷ 32 ∷ 32 ∷ []
unfolding put_text put newline move_cursor set_cursor redraw scroll clean_lines clean_line set_cell
    push_lines push_blanks ensure_valid_cursor_buffer_pos parse_ansi_escape parse_csi find_code
    first_arg default_args run_code erase_in_line erase_cells tokenize parse_uint
goes_back = refl

put_text-Refines_example :
    (k : Console) × (put_text 2 5 started (97 ∷ 98 ∷ 10 ∷ 99 ∷ []) ≡ ok (some k))
    × Refines k (type_text empty_page (97 ∷ 98 ∷ 10 ∷ 99 ∷ []))
put_text-Refines_example =
    put_text-Refines 0 started empty_page (97 ∷ 98 ∷ 10 ∷ 99 ∷ []) started-Refines refl
      (omega arith)

put_text-unfinished_example : put_text 2 100 fresh (27 ∷ 91 ∷ 49 ∷ []) ≡ ok none
unfolding find_code
put_text-unfinished_example = put_text-unfinished 2 100 fresh (49 ∷ []) refl

-- ESC [ 2 ; 7 K, and an `a` behind it.
parse_ansi_escape-Refines_example :
    (k : Console) × (parse_ansi_escape 2 started (sequence (given 2) (some (55 ∷ [])) 75 (97 ∷ []))
      ≡ ok (k, 6))
    × Refines k (wipe empty_page 0 4)
unfolding to_string reverse_loop copy_back
parse_ansi_escape-Refines_example =
    parse_ansi_escape-Refines 0 started empty_page (given 2) (some (55 ∷ [])) 75 (97 ∷ [])
      started-Refines refl refl (omega arith)
      (λ e. absurd (omega (arith, e)), λ e. absurd (omega (arith, e)), omega arith)
