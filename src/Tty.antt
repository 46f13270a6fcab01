-- ===== src/Tty.antt =====
-- The line editor of the terminal, src/kernel/lib/fs/devfs/dev_tty.cpp. A text is the list of its
-- characters, with the capacity of the `kstring` that holds it. The calls of the console, which draw the line, and the wait for the next key are left
-- out: the keys that `poll` returns are a list.
pub mod Texts
pub mod Line
pub mod History
pub mod Answer
mod Tests
use hltos.Base.{
  ℕ, zero, suc, ◌+◌, ◌-◌, ◌%◌, ◌^◌, mul64, Bool, true, false, not, ◌&&◌, ◌||◌, Option, none, some,
  List, [], ◌∷◌, ◌++◌, ltb, leb, ◌==◌, if◌then◌else◌, length, is_empty, get_or, take, text_eq,
}
use hltos.Base.Int.{ℤ, pos, negsuc}
use hltos.Base.Run.{Run, ok, panic, fault, ◌>>=◌}
use hltos.Kstring.{initial_capacity}

-- Scan codes are the numbers of the enumerations `ScanCode` and `ExtendedScanCode`.
pub record KeyEvent : Type 0 where
  pub scancode : ℕ
  pub extended_scancode : ℕ
  pub released : Bool
  pub shift_held : Bool
  pub control_held : Bool
  pub caps_lock_on : Bool

-- `DevTtyInode`.
pub record Tty : Type 0 where
  pub buffer : List ℕ
  -- The capacity of `buffer`.
  pub capacity : ℕ
  pub buffer_index : ℕ
  pub history : List (List ℕ)
  pub history_index : ℕ

abbrev pub scancode_to_ascii_table : List ℕ
scancode_to_ascii_table =
    0 ∷ 0 ∷ 49 ∷ 50 ∷ 51 ∷ 52 ∷ 53 ∷ 54 ∷ 55 ∷ 56 ∷ 57 ∷ 48 ∷ 45 ∷ 61 ∷ 0 ∷ 0 ∷ 113 ∷ 119 ∷ 101
    ∷ 114 ∷ 116 ∷ 121 ∷ 117 ∷ 105 ∷ 111 ∷ 112 ∷ 91 ∷ 93 ∷ 0 ∷ 0 ∷ 97 ∷ 115 ∷ 100 ∷ 102 ∷ 103 ∷ 104
    ∷ 106 ∷ 107 ∷ 108 ∷ 59 ∷ 39 ∷ 96 ∷ 0 ∷ 92 ∷ 122 ∷ 120 ∷ 99 ∷ 118 ∷ 98 ∷ 110 ∷ 109 ∷ 44 ∷ 46 ∷ 47
    ∷ 0 ∷ 42 ∷ 0 ∷ 32 ∷ 0 ∷ 0 ∷ 0 ∷ 0 ∷ 0 ∷ 0 ∷ 0 ∷ 0 ∷ 0 ∷ 0 ∷ 0 ∷ 0 ∷ 0 ∷ 55 ∷ 56 ∷ 57 ∷ 45 ∷ 52
    ∷ 53 ∷ 54 ∷ 43 ∷ 49 ∷ 50 ∷ 51 ∷ 48 ∷ 46 ∷ 0 ∷ 0 ∷ 0 ∷ 0 ∷ 0 ∷ 0 ∷ 0 ∷ 0 ∷ 0 ∷ 0 ∷ 0 ∷ 0 ∷ 0 ∷ 0
    ∷ 0 ∷ 0 ∷ 0 ∷ 0 ∷ 0 ∷ 0 ∷ 0 ∷ 0 ∷ 0 ∷ 0 ∷ 0 ∷ 0 ∷ 0 ∷ 0 ∷ 0 ∷ 0 ∷ 0 ∷ 0 ∷ 0 ∷ 0 ∷ 0 ∷ 0 ∷ 0 ∷ 0
    ∷ 0 ∷ 0 ∷ 0 ∷ 0 ∷ 0 ∷ 0 ∷ []

unfoldable pub scancode_to_ascii : ℕ → Bool → ℕ
scancode_to_ascii code caps =
    let ascii = get_or scancode_to_ascii_table code 0 in
    if leb 128 code then 0 else if caps && leb 97 ascii && leb ascii 122 then ascii - 32 else ascii

-- The loop of `kstring::ensure_capacity` on the capacity; a word doubles at most 64 times.
unfoldable pub grown : ℕ → ℕ → ℕ → ℕ
grown zero capacity new_size = capacity
grown (suc fuel) capacity new_size =
    let next = grown fuel (if capacity == 0 then initial_capacity else mul64 capacity 2) new_size in
    if ltb capacity new_size then next else capacity

abbrev pub ensured : ℕ → ℕ → ℕ
ensured capacity new_size = grown 64 capacity new_size

-- The text with the character at the place.
abbrev pub put_in : List ℕ → ℕ → ℕ → List ℕ
put_in s zero c = c ∷ s
put_in [] (suc i) c = []
put_in (d ∷ s) (suc i) c = d ∷ put_in s i c

-- `kstring::insert`, with the capacity after it. At the end it is a `push_back`; before the end it
-- reserves no byte for the character behind the terminating zero, and writes behind the buffer
-- when that is full.
unfoldable pub insert : List ℕ → ℕ → ℕ → ℕ → Run (List ℕ × ℕ)
insert s capacity i c =
    let room = ensured capacity (length s + 1) in
    if ltb (length s) i
    then ok (s, capacity)
    else if i == length s
    then ok (put_in s i c, ensured room (length s + 2))
    else if ltb (length s + 1) room
    then ok (put_in s i c, room)
    else fault

-- The capacity of a copy of the text.
abbrev pub copied : List ℕ → ℕ
copied s = if is_empty s then 0 else ensured 0 (length s + 1)

-- `kstring::erase` and `truncate`, which do nothing out of range.
abbrev pub erase : List ℕ → ℕ → List ℕ
erase [] i = []
erase (d ∷ s) zero = s
erase (d ∷ s) (suc i) = d ∷ erase s i

abbrev pub truncate : List ℕ → ℕ → List ℕ
truncate s i = take i s

unfoldable pub insert_char : Tty → ℕ → Run Tty
insert_char t c = insert t.buffer t.capacity t.buffer_index c >>= λ r.
    ok (record t { buffer = r.0; capacity = r.1; buffer_index = t.buffer_index + 1 })

unfoldable pub delete_back : Tty → Tty
delete_back t = if t.buffer_index == 0 then t else record t {
  buffer = erase t.buffer (t.buffer_index - 1);
  buffer_index = t.buffer_index - 1;
}

unfoldable pub delete_forward : Tty → Tty
delete_forward t =
    if t.buffer_index == length t.buffer
    then t
    else record t { buffer = erase t.buffer t.buffer_index }

unfoldable pub move_left : Tty → Tty
move_left t = if ltb 0 t.buffer_index then record t { buffer_index = t.buffer_index - 1 } else t

unfoldable pub move_right : Tty → Tty
move_right t =
    if ltb t.buffer_index (length t.buffer)
    then record t { buffer_index = t.buffer_index + 1 }
    else t

unfoldable pub move_to_start : Tty → Tty
move_to_start t = if t.buffer_index == 0 then t else record t { buffer_index = 0 }

unfoldable pub move_to_end : Tty → Tty
move_to_end t =
    if t.buffer_index == length t.buffer then t else record t { buffer_index = length t.buffer }

unfoldable pub delete_to_end : Tty → Tty
delete_to_end t = record t { buffer = truncate t.buffer t.buffer_index }

-- `history.back()`
abbrev pub back_of : List (List ℕ) → List ℕ
back_of history = get_or history (length history - 1) []

unfoldable pub add_buffer_history : Tty → Tty
add_buffer_history t =
    if is_empty t.buffer
    then t
    else if not (is_empty t.history) && text_eq t.buffer (back_of t.history)
    then t
    else record t { history = t.history ++ t.buffer ∷ []; history_index = length t.history + 1 }

unfoldable pub buffer_history_up : Tty → Tty
unfolding move_to_start delete_to_end
buffer_history_up t =
    let cleared = delete_to_end (move_to_start t) in
    let line = get_or t.history (t.history_index - 1) [] in
    if not (is_empty t.history) && ltb 0 t.history_index
    then record cleared {
      buffer = line;
      capacity = copied line;
      buffer_index = length line;
      history_index = t.history_index - 1;
    }
    else t

unfoldable pub buffer_history_down : Tty → Tty
unfolding move_to_start delete_to_end
buffer_history_down t =
    let cleared = delete_to_end (move_to_start t) in
    let line = get_or t.history (t.history_index + 1) [] in
    if ltb (t.history_index + 1) (length t.history)
    then record cleared {
      buffer = line;
      capacity = copied line;
      buffer_index = length line;
      history_index = t.history_index + 1;
    }
    else record cleared {
      buffer = [];
      capacity = ensured 0 1;
      buffer_index = 0;
      history_index = length t.history;
    }

unfoldable pub process_ctrl : Tty → ℕ → Tty
process_ctrl t c =
    if c == 30
    then move_to_start t
    else if c == 18
    then move_to_end t
    else if c == 37
    then delete_to_end t
    else if c == 48
    then move_left t
    else if c == 33
    then move_right t
    else if c == 32
    then delete_forward t
    else t

-- The branches of `read` behind the backspace and Enter, for the extended keys. `page_up` and
-- `page_down` only scroll the console.
unfoldable pub process_extended : Tty → ℕ → Tty
process_extended t extended =
    if extended == 75
    then move_left t
    else if extended == 77
    then move_right t
    else if extended == 83
    then delete_forward t
    else if extended == 72
    then buffer_history_up t
    else if extended == 80
    then buffer_history_down t
    else t

abbrev pub backspace : ℕ
backspace = 14

abbrev pub enter : ℕ
enter = 28

-- One key that does not end the line.
unfoldable pub process_key : Tty → KeyEvent → Run Tty
process_key t event =
    let ascii = scancode_to_ascii event.scancode (event.shift_held || event.caps_lock_on) in
    if event.released
    then ok t
    else if event.control_held
    then ok (process_ctrl t event.scancode)
    else if not (ascii == 0)
    then insert_char t ascii
    else if event.scancode == backspace
    then ok (delete_back t)
    else ok (process_extended t event.extended_scancode)

-- Does the key reach the branch of Enter?
abbrev pub ends_line : KeyEvent → Bool
ends_line event = not event.released && not event.control_held && event.scancode == enter

-- A length as an `int`.
abbrev pub int_of : ℕ → ℤ
int_of n = if ltb (n % 2 ^ 32) (2 ^ 31) then pos (n % 2 ^ 32) else negsuc (2 ^ 32 - 1 - n % 2 ^ 32)

-- What `read` does at Enter: the result, the bytes that are copied to the caller, and the terminal.
unfoldable pub finish : Tty → ℕ → ℤ × List ℕ × Tty
finish t count = (
  int_of (length t.buffer),
  take (if ltb count (length t.buffer) then count else length t.buffer) t.buffer,
  add_buffer_history t,
)

-- The two loops of `read`: `none` while no Enter has come.
unfoldable pub read_loop : Tty → List KeyEvent → ℕ → Run (Option (ℤ × List ℕ × Tty))
read_loop t [] count = ok none
read_loop t (event ∷ events) count =
    let rest = process_key t event >>= λ next. read_loop next events count in
    if ends_line event then ok (some (finish t count)) else rest

-- The line is empty again.
abbrev pub emptied : Tty → Tty
emptied t = record t { buffer = []; capacity = ensured 0 1; buffer_index = 0 }

unfoldable pub read : Tty → List KeyEvent → ℕ → Run (Option (ℤ × List ℕ × Tty))
read t events count = read_loop (emptied t) events count
