-- ===== src/Tty/History.antt =====
-- The history of the terminal, and whole lines, for src/kernel/lib/fs/devfs/dev_tty.cpp.
use mathlib.Core.Path.{subst}
use hltos.Base.{
  ℕ, zero, suc, ◌+◌, ◌-◌, ◌≤◌, ◌<◌, ◌≡◌, ◌⊎◌, refl, sym, ap, ◌∙◌, Bool, true, false, not, ◌&&◌,
  List, [], ◌∷◌, ◌++◌, arith, ltb, ◌==◌, if◌then◌else◌, length, length-append, get_or, take,
  is_empty, count, None, count-append, text_eq, Bool-cases, inl, inr,
}
use hltos.Base.Run.{Run, ok, panic, fault}
use hltos.Tty.{
  Tty, KeyEvent, ensured, put_in, insert, erase, truncate, back_of, insert_char, delete_back,
  delete_forward, move_left, move_right, move_to_start, move_to_end, delete_to_end,
  add_buffer_history, buffer_history_up, buffer_history_down, process_ctrl, process_extended,
  process_key, backspace,
}

-- No line is the same as the one before it.
abbrev pub IsVaried : List (List ℕ) → Type 0
IsVaried [] = Unit {0}
IsVaried (s ∷ []) = Unit {0}
IsVaried (s ∷ t ∷ history) = (text_eq t s ≡ false) × IsVaried (t ∷ history)

-- The cursor is in the line, the place in the history in the history or behind it, and the history
-- holds no empty line and no line twice in a row.
pub record IsValid (t : Tty) : Type 0 where
  pub cursor : t.buffer_index ≤ length t.buffer
  pub place : t.history_index ≤ length t.history
  pub no_empty : None (λ s. is_empty s) t.history
  pub varied : IsVaried t.history

-- Both branches of a test.
both {ℓ} :
    {A : Type ℓ} (P : A → Type 0) (test : Bool) (t u : A) → P t → P u → P (if test then t else u)
both P true t u p q = p
both P false t u p q = q

length-put_in : (s : List ℕ) (i c : ℕ) → i ≤ length s → length (put_in s i c) ≡ suc (length s)
length-put_in s zero c h = refl
length-put_in [] (suc i) c h = absurd (omega (arith, h))
length-put_in (d ∷ s) (suc i) c h = ap suc (length-put_in s i c (omega (arith, h)))

length-erase : (s : List ℕ) (i : ℕ) → i < length s → length (erase s i) + 1 ≡ length s
length-erase [] i h = absurd (omega (arith, h))
length-erase (d ∷ s) zero h = omega arith
length-erase (d ∷ s) (suc i) h = omega (arith, length-erase s i (omega (arith, h)))

length-take : (s : List ℕ) (n : ℕ) → length (take n s) ≡ (if ltb n (length s) then n else length s)
length-take s zero = ground arith
length-take [] (suc n) = ground arith
length-take (c ∷ s) (suc n) = ground (arith, length-take s n)

-- Only the line and the cursor change.
pub edited :
    (t : Tty) (buffer : List ℕ) (capacity i : ℕ)
    → IsValid t
    → i ≤ length buffer
    → IsValid (record t { buffer = buffer; capacity = capacity; buffer_index = i })
edited t buffer capacity i v h = record {
  cursor = h;
  place = v.place;
  no_empty = v.no_empty;
  varied = v.varied;
}

-- What holds of the terminal if the call returns one.
abbrev pub Holds : (Tty → Type 0) → Run Tty → Type 0
Holds P (ok t) = P t
Holds P panic = ℕ
Holds P fault = ℕ

insert_char-IsValid : (t : Tty) (c : ℕ) → IsValid t → Holds IsValid (insert_char t c)
unfolding insert_char insert
insert_char-IsValid t c v =
    let inside : ltb (length t.buffer) t.buffer_index ≡ false = ground (arith, v.cursor) in
    let longer = length-put_in t.buffer t.buffer_index c v.cursor in
    let room = ensured t.capacity (length t.buffer + 1) in
    let typed = λ (capacity : ℕ).
      edited t (put_in t.buffer t.buffer_index c) capacity (t.buffer_index + 1) v
        (omega (arith, longer, v.cursor)) in
    elim (Bool-cases (t.buffer_index == length t.buffer)) [
      | inl e ↦ rw (inside, e) (typed (ensured room (length t.buffer + 2)))
      | inr e ↦ elim (Bool-cases (ltb (length t.buffer + 1) room)) [
        | inl r ↦ rw (inside, e, r) (typed room)
        | inr r ↦ rw (inside, e, r) 0
      ]
    ]

delete_back-IsValid : (t : Tty) → IsValid t → IsValid (delete_back t)
unfolding delete_back
delete_back-IsValid t v = elim (Bool-cases (t.buffer_index == 0)) [
  | inl e ↦ simp e v
  | inr e ↦ simp e (
      edited t (erase t.buffer (t.buffer_index - 1)) t.capacity (t.buffer_index - 1) v (
        ground (
          arith,
          length-erase t.buffer (t.buffer_index - 1) (ground (arith, v.cursor, e)),
          v.cursor,
          e,
        )))
]

delete_forward-IsValid : (t : Tty) → IsValid t → IsValid (delete_forward t)
unfolding delete_forward
delete_forward-IsValid t v = elim (Bool-cases (t.buffer_index == length t.buffer)) [
  | inl e ↦ simp e v
  | inr e ↦ simp e (
      edited t (erase t.buffer t.buffer_index) t.capacity t.buffer_index v (
        ground
          (arith, length-erase t.buffer t.buffer_index (ground (arith, v.cursor, e)), v.cursor, e)))
]

move_left-IsValid : (t : Tty) → IsValid t → IsValid (move_left t)
unfolding move_left
move_left-IsValid t v =
    both IsValid (ltb 0 t.buffer_index) (record t { buffer_index = t.buffer_index - 1 }) t
      (edited t t.buffer t.capacity (t.buffer_index - 1) v (omega (arith, v.cursor))) v

move_right-IsValid : (t : Tty) → IsValid t → IsValid (move_right t)
unfolding move_right
move_right-IsValid t v = elim (Bool-cases (ltb t.buffer_index (length t.buffer))) [
  | inl e ↦ simp e (edited t t.buffer t.capacity (t.buffer_index + 1) v (ground (arith, e)))
  | inr e ↦ simp e v
]

move_to_start-IsValid : (t : Tty) → IsValid t → IsValid (move_to_start t)
unfolding move_to_start
move_to_start-IsValid t v =
    both IsValid (t.buffer_index == 0) t (record t { buffer_index = 0 }) v
      (edited t t.buffer t.capacity 0 v (omega arith))

move_to_end-IsValid : (t : Tty) → IsValid t → IsValid (move_to_end t)
unfolding move_to_end
move_to_end-IsValid t v =
    both IsValid (t.buffer_index == length t.buffer) t (record t { buffer_index = length t.buffer })
      v (edited t t.buffer t.capacity (length t.buffer) v (omega arith))

delete_to_end-IsValid : (t : Tty) → IsValid t → IsValid (delete_to_end t)
unfolding delete_to_end
delete_to_end-IsValid t v =
    edited t (truncate t.buffer t.buffer_index) t.capacity t.buffer_index v
      (ground (arith, length-take t.buffer t.buffer_index, v.cursor))

cleared-history : (t : Tty) → (delete_to_end (move_to_start t)).history ≡ t.history
unfolding delete_to_end move_to_start
cleared-history t = elim (Bool-cases (t.buffer_index == 0)) [
  | inl e ↦ simp e refl
  | inr e ↦ simp e refl
]

-- A line of the history in place of the buffer.
recalled :
    (t u : Tty) (line : List ℕ) (capacity place : ℕ)
    → IsValid t
    → u.history ≡ t.history
    → place ≤ length t.history
    → IsValid (record u {
      buffer = line;
      capacity = capacity;
      buffer_index = length line;
      history_index = place;
    })
recalled t u line capacity place v same h = record {
  cursor = omega arith;
  place = omega (arith, h, ap (λ xs. length xs) same);
  no_empty = ap (λ xs. count (λ s. is_empty s) xs) same ∙ v.no_empty;
  varied = subst (λ xs. IsVaried xs) (sym same) v.varied;
}

buffer_history_up-IsValid : (t : Tty) → IsValid t → IsValid (buffer_history_up t)
unfolding buffer_history_up
buffer_history_up-IsValid t v =
    both IsValid (not (is_empty t.history) && ltb 0 t.history_index) _ t
      (recalled t (delete_to_end (move_to_start t)) _ _ (t.history_index - 1) v (cleared-history t)
        (omega (arith, v.place)))
      v

buffer_history_down-IsValid : (t : Tty) → IsValid t → IsValid (buffer_history_down t)
unfolding buffer_history_down
buffer_history_down-IsValid t v = elim (Bool-cases (ltb (t.history_index + 1) (length t.history))) [
  | inl e ↦ simp e (
      recalled t (delete_to_end (move_to_start t)) _ _ (t.history_index + 1) v (cleared-history t)
        (ground (arith, e)))
  | inr e ↦ simp e (
      recalled t (delete_to_end (move_to_start t)) [] _ (length t.history) v (cleared-history t)
        (omega arith))
]

pred_suc : (n : ℕ) → suc (suc n) - 1 ≡ suc (suc n - 1)
pred_suc n = omega arith

append-IsVaried :
    (history : List (List ℕ)) (line : List ℕ)
    → IsVaried history
    → (is_empty history ≡ true) ⊎ (text_eq line (back_of history) ≡ false)
    → IsVaried (history ++ line ∷ [])
append-IsVaried [] line v h = tt
append-IsVaried (s ∷ []) line v (inl e) = cc
append-IsVaried (s ∷ []) line v (inr e) = (e, tt)
append-IsVaried (s ∷ t ∷ history) line v (inl e) = cc
append-IsVaried (s ∷ t ∷ history) line v (inr e) =
    let back : back_of (s ∷ t ∷ history) ≡ back_of (t ∷ history) =
      ap (λ n. get_or (s ∷ t ∷ history) n []) (pred_suc (length history)) in
    (v.0, append-IsVaried (t ∷ history) line v.1 (inr (sym (ap (λ b. text_eq line b) back) ∙ e)))

pub add_buffer_history-IsValid : (t : Tty) → IsValid t → IsValid (add_buffer_history t)
unfolding add_buffer_history
add_buffer_history-IsValid t v = elim (Bool-cases (is_empty t.buffer)) [
  | inl e ↦ simp e v
  | inr e ↦ elim (Bool-cases (not (is_empty t.history) && text_eq t.buffer (back_of t.history))) [
    | inl s ↦ simp (e, s) v
    | inr s ↦ simp (e, s) (longer e s)
  ]
]
  where
    longer :
        is_empty t.buffer ≡ false
        → (not (is_empty t.history) && text_eq t.buffer (back_of t.history)) ≡ false
        → IsValid (record t {
          history = t.history ++ t.buffer ∷ [];
          history_index = length t.history + 1;
        })
    longer e s = record {
      cursor = v.cursor;
      place = omega (arith, length-append t.history (t.buffer ∷ []));
      no_empty =
          ground (arith, count-append (λ b. is_empty b) t.history (t.buffer ∷ []), v.no_empty, e);
      varied = append-IsVaried t.history t.buffer v.varied (ground (arith, s));
    }

process_ctrl-IsValid : (t : Tty) (c : ℕ) → IsValid t → IsValid (process_ctrl t c)
unfolding process_ctrl
process_ctrl-IsValid t c v = both IsValid (c == 30) _ _ (move_to_start-IsValid t v) (
    both IsValid (c == 18) _ _ (move_to_end-IsValid t v) (
      both IsValid (c == 37) _ _ (delete_to_end-IsValid t v) (
        both IsValid (c == 48) _ _ (move_left-IsValid t v) (
          both IsValid (c == 33) _ _ (move_right-IsValid t v)
            (both IsValid (c == 32) _ _ (delete_forward-IsValid t v) v)))))

process_extended-IsValid : (t : Tty) (c : ℕ) → IsValid t → IsValid (process_extended t c)
unfolding process_extended
process_extended-IsValid t c v = both IsValid (c == 75) _ _ (move_left-IsValid t v) (
    both IsValid (c == 77) _ _ (move_right-IsValid t v) (
      both IsValid (c == 83) _ _ (delete_forward-IsValid t v) (
        both IsValid (c == 72) _ _ (buffer_history_up-IsValid t v)
          (both IsValid (c == 80) _ _ (buffer_history_down-IsValid t v) v))))

pub process_key-IsValid :
    (t : Tty) (event : KeyEvent) → IsValid t → Holds IsValid (process_key t event)
unfolding process_key
process_key-IsValid t event v = both (Holds IsValid) event.released _ _ v (
    both (Holds IsValid) event.control_held _ _ (process_ctrl-IsValid t event.scancode v) (
      both (Holds IsValid) _ _ _ (insert_char-IsValid t _ v) (
        both (Holds IsValid) (event.scancode == backspace) _ _ (delete_back-IsValid t v)
          (process_extended-IsValid t event.extended_scancode v))))
