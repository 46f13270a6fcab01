-- ===== src/Kstring/Memory.antt =====
-- Buffers of kstring.hpp as a text, a rest, and the accesses at the border between them.
use hltos.Base.{
  ℕ, zero, suc, ◌+◌, ◌≤◌, ◌≡◌, refl, ap, ◌∙◌, ◌⊎◌, true, List, [], ◌∷◌, ◌++◌, some, arith, ltb, leb,
  length, take, drop, set, get_elem?, length-append, append_assoc,
}
use hltos.Base.Run.{ok}
use hltos.Kstring.{Buffer, Kstring, read, write, copy_at, first_bytes, ensure_null_terminated}

-- The buffer holds a text, and behind it the rest of the allocation.
pub record Live (s : Kstring) (text rest : List ℕ) : Type 0 where
  pub buffer : s.buffer ≡ Buffer.live (text ++ rest)
  pub size : s.size ≡ length text
  pub capacity : s.capacity ≡ length text + length rest

-- A string value: its text with a terminating zero behind it, or no buffer.
abbrev pub Holds : Kstring → List ℕ → Type 0
Holds s text =
    ((rest : List ℕ) × Live s text (0 ∷ rest))
    ⊎ ((s.buffer ≡ Buffer.null) × (s.size ≡ 0) × (s.capacity ≡ 0) × (text ≡ []))

pub set_border :
    (text rest : List ℕ) (a c : ℕ) → set (text ++ a ∷ rest) (length text) c ≡ text ++ c ∷ rest
set_border [] rest a c = refl
set_border (x ∷ text) rest a c = ap (◌∷◌ x) (set_border text rest a c)

pub get_border : (text rest : List ℕ) (a : ℕ) → get_elem? (text ++ a ∷ rest) (length text) ≡ some a
get_border [] rest a = refl
get_border (x ∷ text) rest a = get_border text rest a

pub take_border : (text rest : List ℕ) → take (length text) (text ++ rest) ≡ text
take_border [] rest = refl
take_border (x ∷ text) rest = ap (◌∷◌ x) (take_border text rest)

pub drop_border : (text rest : List ℕ) → drop (length text) (text ++ rest) ≡ rest
drop_border [] rest = refl
drop_border (x ∷ text) rest = drop_border text rest

-- A write at the border, or at any place whose prefix has that length.
pub write_border :
    (s : Kstring) (text rest : List ℕ) (a c i : ℕ)
    → s.buffer ≡ Buffer.live (text ++ a ∷ rest)
    → i ≡ length text
    → write s i c ≡ ok (record s { buffer = Buffer.live (text ++ c ∷ rest) })
unfolding write
write_border s text rest a c i b e =
    let inside : ltb (length text) (length (text ++ a ∷ rest)) ≡ true =
      ground (arith, length-append text (a ∷ rest)) in
    rw (b, e, inside, set_border text rest a c) refl

pub read_border :
    (s : Kstring) (text rest : List ℕ) (a i : ℕ)
    → s.buffer ≡ Buffer.live (text ++ a ∷ rest)
    → i ≡ length text
    → read s i ≡ ok a
unfolding read
read_border s text rest a i b e = rw (b, e, get_border text rest a) refl

pub first_bytes_border :
    (text rest : List ℕ) (count : ℕ)
    → count ≡ length text
    → first_bytes (Buffer.live (text ++ rest)) count ≡ ok text
unfolding first_bytes
first_bytes_border text rest count e =
    let inside : leb (length text) (length (text ++ rest)) ≡ true =
      ground (arith, length-append text rest) in
    rw (e, inside, take_border text rest) refl

-- A copy into the rest, at the border.
pub copy_at_border :
    (s : Kstring) (text old rest source : List ℕ) (offset : ℕ)
    → s.buffer ≡ Buffer.live (text ++ old ++ rest)
    → offset ≡ length text
    → length source ≡ length old
    → copy_at s offset source ≡ ok (record s { buffer = Buffer.live (text ++ source ++ rest) })
unfolding copy_at
copy_at_border s text old rest source offset b e same =
    let inside : leb (length text + length source) (length (text ++ old ++ rest)) ≡ true =
      ground (arith, length-append (text ++ old) rest, length-append text old, same) in
    let behind : drop (length text + length source) (text ++ old ++ rest) ≡ rest =
      ap (λ n. drop n (text ++ old ++ rest)) (omega (arith, length-append text old, same))
      ∙ drop_border (text ++ old) rest in
    let before : take (length text) (text ++ old ++ rest) ≡ text =
      ap (take (length text)) (append_assoc text old rest) ∙ take_border text (old ++ rest) in
    rw (b, e, inside, behind, before) refl

-- Any list at least as long as a number splits there.
pub split_at :
    (n : ℕ) (xs : List ℕ)
    → n ≤ length xs
    → (front : List ℕ) × (back : List ℕ) × (xs ≡ front ++ back) × (length front ≡ n)
split_at zero xs h = ([], xs, refl, refl)
split_at (suc n) [] h = absurd (omega (arith, h))
split_at (suc n) (x ∷ xs) h =
    let (front, back, e, l) = split_at n xs (omega (arith, h)) in
    (x ∷ front, back, ap (◌∷◌ x) e, ap suc l)

-- The terminating zero is written behind the text.
pub ensure_null-Live :
    (s : Kstring) (text rest : List ℕ) (a : ℕ)
    → Live s text (a ∷ rest)
    → (t : Kstring) × (ensure_null_terminated s ≡ ok t) × Live t text (0 ∷ rest)
unfolding ensure_null_terminated
ensure_null-Live s text rest a l = (
  record s { buffer = Buffer.live (text ++ 0 ∷ rest) },
  at_live (text ++ a ∷ rest) l.buffer ∙ write_border s text rest a 0 s.size l.buffer l.size,
  record { buffer = refl; size = l.size; capacity = omega (arith, l.capacity) },
)
  where
    at_live :
        (bytes : List ℕ)
        → s.buffer ≡ Buffer.live bytes
        → ensure_null_terminated s ≡ write s s.size 0
    at_live bytes b = rw b refl
