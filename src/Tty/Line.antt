-- ===== src/Tty/Line.antt =====
-- The keys of src/kernel/lib/fs/devfs/dev_tty.cpp that edit the line, against the line as the text before
-- and the text behind the cursor.
use hltos.Base.{
  Bool, ◌||◌, ◌⊎◌, ℕ, zero, suc, ◌+◌, ◌-◌, ◌≤◌, ◌<◌, ◌≡◌, refl, sym, true, false, List, arith, ltb,
  ◌==◌, length, take, append-nil, Bool-cases, inl, inr,
}
use hltos.Base.Run.{ok, fault}
use hltos.Tty.{
  Tty, grown, ensured, put_in, insert, insert_char, delete_back, delete_forward, move_left,
  move_right, move_to_start, move_to_end, delete_to_end,
}
use hltos.Tty.Texts.{
  view, type_in, cut_before, cut_after, go_left, go_right, go_start, go_end, cut_end, take-all,
  drop-all, length-take, take-drop, put_in-view, erase-view, init-take, step_left, step_right,
  cut_after-drop,
}

grown-enough : (fuel capacity n : ℕ) → n ≤ capacity → grown (suc fuel) capacity n ≡ capacity
unfolding grown
grown-enough fuel capacity n h =
    let enough : ltb capacity n ≡ false = ground (arith, h) in rw enough refl

-- Is the cursor at the end of the line, or has the buffer a byte behind the terminating zero?
abbrev pub has_room : Tty → Bool
has_room t = t.buffer_index == length t.buffer || ltb (length t.buffer + 1) t.capacity

-- A character that is typed goes in front of the cursor, or is written behind the buffer.
abbrev pub TypeOutcome : Tty → ℕ → Type 0
TypeOutcome t c =
    ((has_room t ≡ true) × (t' : Tty) × (insert_char t c ≡ ok t') × (view t' ≡ type_in c (view t)))
    ⊎ ((has_room t ≡ false) × (insert_char t c ≡ fault))

-- Every editing function does what its name says to the text on both sides of the cursor.
pub record Edits (t : Tty) : Type 0 where
  pub typed : (c : ℕ) → TypeOutcome t c
  pub back : view (delete_back t) ≡ cut_before (view t)
  pub forward : view (delete_forward t) ≡ cut_after (view t)
  pub left : view (move_left t) ≡ go_left (view t)
  pub right : view (move_right t) ≡ go_right (view t)
  pub to_start : view (move_to_start t) ≡ go_start (view t)
  pub to_end : view (move_to_end t) ≡ go_end (view t)
  pub killed : view (delete_to_end t) ≡ cut_end (view t)

nonzero : (n : ℕ) → (suc n == 0) ≡ false
nonzero n = ground arith

pred-suc : (n : ℕ) → suc n - 1 ≡ n
pred-suc n = omega arith

module _ (s : List ℕ) (capacity : ℕ) (history : List (List ℕ)) (history_index : ℕ) where
  abbrev at : ℕ → Tty
  at i = record {
    buffer = s;
    capacity = capacity;
    buffer_index = i;
    history = history;
    history_index = history_index;
  }

  -- A character that fits.
  typed_in :
      (i c room : ℕ)
      → i ≤ length s
      → insert s capacity i c ≡ ok (put_in s i c, room)
      → (t' : Tty) × (insert_char (at i) c ≡ ok t') × (view t' ≡ type_in c (view (at i)))
  unfolding insert_char view
  typed_in i c room h e =
      let next : i + 1 ≡ suc i = omega arith in
      let (e1, e2) = put_in-view s i c h in
      (
        record (at i) { buffer = put_in s i c; capacity = room; buffer_index = i + 1 },
        rw e refl,
        rw (next, e1, e2) refl,
      )

  typed_at : (i c : ℕ) → i ≤ length s → length s ≤ capacity - 1 → TypeOutcome (at i) c
  unfolding insert insert_char
  typed_at i c h wide =
      let inside : ltb (length s) i ≡ false = ground (arith, h) in
      let room = ensured capacity (length s + 1) in
      elim (Bool-cases (i == length s)) [
        | inl e ↦
            let (t', f, g) = typed_in i c (ensured room (length s + 2)) h (rw (inside, e) refl) in
            inl (rw e refl, t', f, g)
        | inr e ↦
            let same : room ≡ capacity =
              grown-enough 63 capacity (length s + 1) (ground (arith, h, e, wide)) in
            elim (Bool-cases (ltb (length s + 1) capacity)) [
              | inl r ↦
                  let (t', f, g) = typed_in i c room h (rw (inside, e, same, r) refl) in
                  inl (rw (e, r) refl, t', f, g)
              | inr r ↦ inr (rw (e, r) refl, rw (inside, e, same, r) refl)
            ]
      ]

  back_at : (i : ℕ) → i ≤ length s → view (delete_back (at i)) ≡ cut_before (view (at i))
  unfolding delete_back view
  back_at zero h = refl
  back_at (suc i) h =
      let (e, e') = erase-view s i (omega (arith, h)) in
      rw (nonzero i, pred-suc i, e, e', init-take s i (omega (arith, h))) refl

  forward_at : (i : ℕ) → i ≤ length s → view (delete_forward (at i)) ≡ cut_after (view (at i))
  unfolding delete_forward view
  forward_at i h = elim (Bool-cases (i == length s)) [
    | inl e ↦ rw (e, drop-all s i (ground (arith, e))) refl
    | inr e ↦
        let inside : i < length s = ground (arith, h, e) in
        let (f, f') = erase-view s i inside in
        rw (e, f, f', cut_after-drop (take i s) s i inside) refl
  ]

  left_at : (i : ℕ) → i ≤ length s → view (move_left (at i)) ≡ go_left (view (at i))
  unfolding move_left view
  left_at zero h = refl
  left_at (suc i) h =
      let moved : ltb 0 (suc i) ≡ true = ground arith in
      rw (moved, pred-suc i) (sym (step_left s i (omega (arith, h))))

  right_at : (i : ℕ) → i ≤ length s → view (move_right (at i)) ≡ go_right (view (at i))
  unfolding move_right view
  right_at i h = elim (Bool-cases (ltb i (length s))) [
    | inl e ↦
        let next : i + 1 ≡ suc i = omega arith in
        rw (e, next) (sym (step_right s i (ground (arith, e))))
    | inr e ↦ rw (e, drop-all s i (ground (arith, e))) refl
  ]

  start_at : (i : ℕ) → view (move_to_start (at i)) ≡ go_start (view (at i))
  unfolding move_to_start view
  start_at zero = refl
  start_at (suc i) = rw (nonzero i, take-drop s (suc i)) refl

  end_at : (i : ℕ) → view (move_to_end (at i)) ≡ go_end (view (at i))
  unfolding move_to_end view
  end_at i =
      let all = take-all s (length s) (omega arith) in
      let none_left = drop-all s (length s) (omega arith) in
      elim (Bool-cases (i == length s)) [
        | inl e ↦
            let same : i ≡ length s = ground (arith, e) in
            rw (e, same, all, none_left, append-nil s) refl
        | inr e ↦ rw (e, all, none_left, take-drop s i) refl
      ]

  killed_at : (i : ℕ) → view (delete_to_end (at i)) ≡ cut_end (view (at i))
  unfolding delete_to_end view
  killed_at i =
      rw (take-all (take i s) i (length-take s i), drop-all (take i s) i (length-take s i)) refl

-- With the cursor inside the line, and room for the line and its terminating zero in the buffer, if there
-- is a line, every key's function edits the text before and behind the cursor
-- as its name says: a character goes in front of the cursor, if that is at the end of the line or the
-- buffer has a byte behind the terminating zero, and is written behind the buffer if not; the
-- deletions remove the character before or behind it or all behind it, and the moves shift the
-- cursor and keep the text.
pub view-Edits :
    (t : Tty) → t.buffer_index ≤ length t.buffer → length t.buffer ≤ t.capacity - 1 → Edits t
view-Edits t h wide = record {
  typed = λ c. typed_at t.buffer t.capacity t.history t.history_index t.buffer_index c h wide;
  back = back_at t.buffer t.capacity t.history t.history_index t.buffer_index h;
  forward = forward_at t.buffer t.capacity t.history t.history_index t.buffer_index h;
  left = left_at t.buffer t.capacity t.history t.history_index t.buffer_index h;
  right = right_at t.buffer t.capacity t.history t.history_index t.buffer_index h;
  to_start = start_at t.buffer t.capacity t.history t.history_index t.buffer_index;
  to_end = end_at t.buffer t.capacity t.history t.history_index t.buffer_index;
  killed = killed_at t.buffer t.capacity t.history t.history_index t.buffer_index;
}
