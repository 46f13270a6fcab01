-- ===== src/Tty/Answer.antt =====
-- Whole lines: the `read` of src/kernel/lib/fs/devfs/dev_tty.cpp.
use hltos.Base.{ℕ, List, [], ◌∷◌, length, take}
use hltos.Tty.{Tty, KeyEvent, int_of, add_buffer_history, process_key}
use hltos.Base.Int.{ℤ}
use hltos.Base.Run.{Run, ok, ◌>>=◌}

-- The line that the keys leave.
unfoldable pub type_keys : Tty → List KeyEvent → Run Tty
type_keys t [] = ok t
type_keys t (event ∷ events) = process_key t event >>= λ next. type_keys next events

-- What `read` answers for a line: the length of the whole line as an `int`, as many bytes as there is
-- room for, and the line in the history.
abbrev pub line_answer : Tty → ℕ → ℤ × List ℕ × Tty
line_answer u room = (int_of (length u.buffer), take room u.buffer, add_buffer_history u)
