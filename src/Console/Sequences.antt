-- ===== src/Console/Sequences.antt =====
-- The sequences `ESC [` ... of ansi.cpp, against what they do to a page.
use hltos.Base.{
  None, Option, u64_mod, ℕ, zero, suc, ◌+◌, ◌-◌, ◌%◌, ◌^◌, ◌≤◌, ◌<◌, ◌≡◌, refl, ap, ◌∙◌, Bool, true,
  false, List, arith, ltb, ◌==◌, if◌then◌else◌, get_or, some, take, drop,
}
use mathlib.Core.Path.{subst}
use hltos.Base.Run.{Run, ok}
use hltos.Console.{Console, erase_in_line, move_cursor, set_cursor, newline}
use hltos.Console.Ansi.{
  is_cs_code, parse_ansi_escape, parse_csi, is_csi, find_code, run_code, first_arg, newlines,
}
use hltos.Console.Arguments.{
  Argument, is_letter, is_cs_code-letter, no_cs_code, value, further, sequence, before_code,
  first_arg-value, find_code-sequence, code-sequence, parameters-sequence,
}
use hltos.Console.Drawing.{set_cursor-Shows}
use hltos.Console.Valid.{set_cursor-Moved, newline-Moved}
use hltos.Console.Puts.{Page, Refines, Moved-Refines, newline-Shows}
use hltos.Console.Erase.{wipe, erase_in_line-Refines}

-- The call stands for the page.
abbrev pub RunRefines : Run Console → Page → Type 0
RunRefines r p = (k : Console) × (r ≡ ok k) × Refines k p

branch :
    {r r' : Run Console} {p p' : Page} (t : Bool)
    → (t ≡ true → RunRefines r p)
    → (t ≡ false → RunRefines r' p')
    → RunRefines (if t then r else r') (if t then p else p')
branch true f g = f refl
branch false f g = g refl

move_cursor-Refines :
    (depth : ℕ) (k : Console) (p : Page) (dx col : ℕ)
    → Refines k p
    → p.row < 2 ^ 32
    → (p.col + dx) % 2 ^ 32 ≡ col
    → col < p.cols
    → RunRefines (move_cursor (suc (suc depth)) k dx 0) (record p { col = col })
unfolding move_cursor
move_cursor-Refines depth k p dx col r small e inside =
    let to : (k.cursor_col + dx) % 2 ^ 32 ≡ col = ap (λ c. (c + dx) % 2 ^ 32) r.same_col ∙ e in
    let stays : (k.cursor_row + 0) % 2 ^ 32 ≡ k.cursor_row = omega (arith, r.same_row, small) in
    let fits : ltb col k.screen_cols ≡ true = ground (arith, inside, r.same_cols) in
    rw (to, stays)
      (Moved-Refines k (set_cursor (suc (suc depth)) k col k.cursor_row)
        (if ltb col k.screen_cols then col else 0)
        (if ltb col k.screen_cols then k.cursor_row else (k.cursor_row + 1) % 2 ^ 32)
        (record p { col = col })
        (set_cursor-Moved depth k col k.cursor_row r.valid (omega (arith, r.same_row, small))
          (omega (arith, inside, r.same_cols)))
        (set_cursor-Shows p.shown (suc (suc depth)) k col k.cursor_row r.same_chars) (rw fits refl)
        (rw fits r.same_row) r.same_cols)

newline-Refines :
    (depth : ℕ) (k : Console) (p : Page)
    → Refines k p
    → p.row + 1 < 2 ^ 32
    → RunRefines (newline (suc depth) k) (record p { col = 0; row = p.row + 1 })
newline-Refines depth k p r small =
    Moved-Refines k (newline (suc depth) k) 0 ((k.cursor_row + 1) % 2 ^ 32)
      (record p { col = 0; row = p.row + 1 })
      (newline-Moved depth k r.valid (omega (arith, r.same_row, small)))
      (newline-Shows p.shown (suc depth) k r.valid.on_cell r.same_chars) refl
      (omega (arith, r.same_row, small)) r.same_cols

-- A line feed typed so many times.
abbrev pub feed : Page → ℕ → Page
feed p zero = p
feed p (suc times) = feed (record p { col = 0; row = p.row + 1 }) times

newlines-Refines :
    (depth times : ℕ) (k : Console) (p : Page)
    → Refines k p
    → p.row + times < 2 ^ 32
    → RunRefines (newlines (suc depth) times k) (feed p times)
unfolding newlines
newlines-Refines depth zero k p r small = (k, refl, r)
newlines-Refines depth (suc times) k p r small =
    let (k1, e1, r1) = newline-Refines depth k p r (omega (arith, small)) in
    let (k2, e2, r2) =
      newlines-Refines depth times k1 (record p { col = 0; row = p.row + 1 }) r1
        (omega (arith, small)) in
    (k2, rw e1 e2, r2)

-- What the codes C, D, K and E do to the page; the other codes do nothing.
abbrev pub code_page : Page → ℕ → ℕ → Page
code_page p code val =
    let below = feed p val in
    if code == 67
    then record p { col = p.col + val }
    else if code == 68
    then record p { col = p.col - val }
    else if code == 75
    then (if val == 0
        then wipe p p.col p.cols
        else if val == 1
        then wipe p 0 p.col
        else if val == 2
        then wipe p 0 p.cols
        else p)
    else if code == 69
    then below
    else p

-- The pen stays on the page.
abbrev pub Fits : Page → ℕ → ℕ → Type 0
Fits p code val =
    (code ≡ 67 → p.col + val < p.cols) × (code ≡ 68 → val ≤ p.col) × (p.row + 1 + val < 2 ^ 32)

erase-Refines :
    (k : Console) (p : Page) (val : ℕ)
    → Refines k p
    → RunRefines
        (if val == 0
          then erase_in_line k k.cursor_col k.screen_cols
          else if val == 1
          then erase_in_line k 0 k.cursor_col
          else if val == 2
          then erase_in_line k 0 k.screen_cols
          else ok k)
        (if val == 0
          then wipe p p.col p.cols
          else if val == 1
          then wipe p 0 p.col
          else if val == 2
          then wipe p 0 p.cols
          else p)
erase-Refines k p val r =
    branch (val == 0)
      (λ e.
        erased k.cursor_col k.screen_cols p.col p.cols r.same_col r.same_cols
          (omega (arith, r.valid.on_screen)))
      (λ _.
        branch (val == 1) (λ e. erased 0 k.cursor_col 0 p.col refl r.same_col (omega arith))
          (λ _.
            branch (val == 2) (λ e. erased 0 k.screen_cols 0 p.cols refl r.same_cols (omega arith))
              (λ _. (k, refl, r))))
  where
    erased :
        (from to a b : ℕ)
        → from ≡ a
        → to ≡ b
        → from ≤ to
        → RunRefines (erase_in_line k from to) (wipe p a b)
    erased from to a b e f h =
        subst (λ x. RunRefines (erase_in_line k from to) (wipe p x b)) e
          (subst (λ y. RunRefines (erase_in_line k from to) (wipe p from y)) f
            (erase_in_line-Refines k p from to r h))

run_code-Refines :
    (depth : ℕ) (k : Console) (p : Page) (code val : ℕ)
    → Refines k p
    → Fits p code val
    → RunRefines (run_code (suc (suc depth)) k code val) (code_page p code val)
unfolding run_code
run_code-Refines depth k p code val r (forward, back, low) =
    let wide : p.col < p.cols = omega (arith, r.same_col, r.same_cols, r.valid.on_screen) in
    let narrow : p.cols < 2 ^ 32 = omega (arith, r.same_cols, r.valid.narrow) in
    let row_small : p.row < 2 ^ 32 = omega (arith, low) in
    branch (code == 67)
      (λ e.
        let fits = forward (ground (arith, e)) in
        move_cursor-Refines depth k p (val % 2 ^ 32) (p.col + val) r row_small
          (omega (arith, fits, narrow)) fits)
      (λ _.
        branch (code == 68)
          (λ e.
            let fits = back (ground (arith, e)) in
            move_cursor-Refines depth k p ((2 ^ 32 - val % 2 ^ 32) % 2 ^ 32) (p.col - val) r
              row_small (omega (arith, fits, narrow, wide)) (omega (arith, wide)))
          (λ _.
            branch (code == 75) (λ _. erase-Refines k p val r)
              (λ _.
                branch (code == 69)
                  (λ _. newlines-Refines (suc depth) val k p r (omega (arith, low)))
                  (λ _. (k, refl, r)))))

csi_step :
    (depth : ℕ) (k k' : Console) (text : List ℕ) (n : ℕ)
    → find_code text ≡ some n
    → run_code depth k (get_or text n 0) (first_arg (drop 2 (take n text)) (get_or text n 0))
      ≡ ok k'
    → parse_csi depth k text ≡ ok (k', n + 1)
unfolding parse_csi
csi_step depth k k' text n found e = rw (parse_csi, found) (rw e refl)

escape_step :
    (depth : ℕ) (k : Console) (text : List ℕ)
    → is_csi text ≡ true
    → parse_ansi_escape depth k text ≡ parse_csi depth k text
unfolding parse_ansi_escape
escape_step depth k text csi = rw csi refl

parse_sequence :
    (depth : ℕ) (k : Console) (p : Page) (text : List ℕ) (n code val : ℕ)
    → Refines k p
    → is_csi text ≡ true
    → find_code text ≡ some n
    → get_or text n 0 ≡ code
    → first_arg (drop 2 (take n text)) code ≡ val
    → Fits p code val
    → (k' : Console) × (parse_ansi_escape (suc (suc depth)) k text ≡ ok (k', n + 1))
      × Refines k' (code_page p code val)
parse_sequence depth k p text n code val r csi found here arg fits =
    let (k', e, r') = run_code-Refines depth k p code val r fits in
    let arg' : first_arg (drop 2 (take n text)) (get_or text n 0) ≡ val =
      ap (first_arg (drop 2 (take n text))) here ∙ arg in
    (
      k',
      escape_step (suc (suc depth)) k text csi
          ∙ csi_step (suc (suc depth)) k k' text n found (
              ap (λ c. run_code (suc (suc depth)) k c (first_arg (drop 2 (take n text)) c)) here
              ∙ ap (run_code (suc (suc depth)) k code) arg
              ∙ e),
      r',
    )

-- `ESC [`, an argument of 64 bits or none, a semicolon and any further arguments or none, and a code
-- letter: when the code moves the pen to a place on the page, `parse_ansi_escape` takes these characters
-- and no more, and does to the page what the code says of the argument, which is 0 for J, K and m
-- and 1 for the other codes when it is left out.
pub parse_ansi_escape-Refines :
    (depth : ℕ) (k : Console) (p : Page) (a : Argument) (more : Option (List ℕ)) (code : ℕ)
    (rest : List ℕ)
    → Refines k p
    → is_letter code ≡ true
    → None is_letter (further more)
    → value code a < u64_mod
    → Fits p code (value code a)
    → (k' : Console) × (parse_ansi_escape (suc (suc depth)) k (sequence a more code rest)
        ≡ ok (k', before_code a more + 1))
      × Refines k' (code_page p code (value code a))
parse_ansi_escape-Refines depth k p a more code rest r letter clear word fits =
    let known : is_cs_code code ≡ true = is_cs_code-letter code ∙ letter in
    parse_sequence depth k p (sequence a more code rest) (before_code a more) code (value code a) r
      refl (find_code-sequence a more code rest (no_cs_code (further more) clear) known)
      (code-sequence a more code rest)
      (ap (λ s. first_arg s code) (parameters-sequence a more code rest)
        ∙ first_arg-value a more code known word)
      fits
