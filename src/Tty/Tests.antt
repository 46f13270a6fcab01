-- ===== src/Tty/Tests.antt =====
-- Keys for dev_tty.cpp, and the theorems at them.
use hltos.Base.Int.{pos}
use hltos.Base.Run.{ok, fault}
use hltos.Base.{replicate, ◌++◌, ℕ, ◌≡◌, refl, Bool, true, false, some, List, [], ◌∷◌, arith}
use hltos.Tty.{
  Tty, KeyEvent, read, read_loop, process_key, process_ctrl, process_extended, scancode_to_ascii,
  insert_char, insert, grown, finish, delete_back, add_buffer_history, enter, backspace,
}
use hltos.Tty.Line.{Edits, view-Edits}

abbrev fresh : Tty
fresh = record { buffer = []; capacity = 0; buffer_index = 0; history = []; history_index = 0 }

abbrev key : ℕ → Bool → KeyEvent
key scancode shift = record {
  scancode = scancode;
  extended_scancode = 0;
  released = false;
  shift_held = shift;
  control_held = false;
  caps_lock_on = false;
}

-- "Q", "w", backspace, "e".
abbrev keys : List KeyEvent
keys = key 16 true ∷ key 17 false ∷ key backspace false ∷ key 18 false ∷ []

typed_line :
    read fresh (keys ++ key enter false ∷ []) 10
    ≡ ok (
        some (
          pos 2,
          81 ∷ 101 ∷ [],
          record {
            buffer = 81 ∷ 101 ∷ [];
            capacity = 16;
            buffer_index = 2;
            history = (81 ∷ 101 ∷ []) ∷ [];
            history_index = 1;
          },
        ))
unfolding read read_loop process_key process_ctrl process_extended scancode_to_ascii insert_char
    delete_back add_buffer_history insert grown finish
typed_line = refl

-- 15 characters in a buffer of 16 bytes, and the cursor before the last one.
abbrev full : Tty
full = record fresh { buffer = replicate 15 97; capacity = 16; buffer_index = 14 }

full_faults : insert_char full 98 ≡ fault
unfolding insert_char insert grown
full_faults = refl

view-Edits_example : Edits full
view-Edits_example = view-Edits full (omega arith) (omega arith)
