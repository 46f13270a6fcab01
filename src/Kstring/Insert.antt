-- ===== src/Kstring/Insert.antt =====
-- `insert` and `erase` of kstring.hpp, whose loops move the bytes behind a place.
use hltos.Base.{
  ℕ, ◌+◌, ◌-◌, ◌≡◌, refl, sym, ap, ◌∙◌, List, [], ◌∷◌, ◌++◌, arith, length, length-append,
  append_assoc,
}
use hltos.Base.Run.{ok}
use hltos.Kstring.{Buffer, Kstring, shift_up, shift_down}
use hltos.Kstring.Memory.{write_border, read_border}
use hltos.Kstring.Edits.{border_next}

abbrev pub with_bytes : Kstring → List ℕ → Kstring
with_bytes s bytes = record s { buffer = Buffer.live bytes }

same_record :
    (s : Kstring) (bytes : List ℕ) → s.buffer ≡ Buffer.live bytes → ok s ≡ ok (with_bytes s bytes)
same_record s bytes b = ap (λ u. ok (record s { buffer = u })) b

-- The loop of `erase` takes one byte out and doubles the last one.
pub shift_down-moved :
    (m : List ℕ) (s : Kstring) (p r : List ℕ) (x i : ℕ)
    → s.buffer ≡ Buffer.live (p ++ x ∷ (m ++ r))
    → i ≡ length p
    → (z : ℕ) × (shift_down (length m) i s ≡ ok (with_bytes s (p ++ (m ++ z ∷ r))))
unfolding shift_down
shift_down-moved [] s p r x i b e = (x, same_record s (p ++ x ∷ r) b)
shift_down-moved (y ∷ m) s p r x i b e =
    let next = with_bytes s (p ++ y ∷ (y ∷ (m ++ r))) in
    let got =
      read_border s (p ++ x ∷ []) (m ++ r) y (i + 1)
        (b ∙ ap Buffer.live (border_next p (y ∷ (m ++ r)) x))
        (omega (arith, e, length-append p (x ∷ []))) in
    let put = write_border s p (y ∷ (m ++ r)) x y i b e in
    let (z, rest) =
      shift_down-moved m next (p ++ y ∷ []) r y (i + 1)
        (ap Buffer.live (border_next p (y ∷ (m ++ r)) y))
        (omega (arith, e, length-append p (y ∷ []))) in
    (z, simp (got, put) rest ∙ ap (λ u. ok (with_bytes s u)) (append_assoc p (y ∷ []) (m ++ z ∷ r)))

abbrev pub rev_on : List ℕ → List ℕ → List ℕ
rev_on [] acc = acc
rev_on (x ∷ xs) acc = rev_on xs (x ∷ acc)

rev_on-append : (xs a b : List ℕ) → rev_on xs (a ++ b) ≡ rev_on xs a ++ b
rev_on-append [] a b = refl
rev_on-append (x ∷ xs) a b = rev_on-append xs (x ∷ a) b

pub rev_on-twice : (xs ys acc : List ℕ) → rev_on (rev_on xs ys) acc ≡ rev_on ys (xs ++ acc)
rev_on-twice [] ys acc = refl
rev_on-twice (x ∷ xs) ys acc = rev_on-twice xs (x ∷ ys) acc

pub length-rev_on : (xs ys : List ℕ) → length (rev_on xs ys) ≡ length xs + length ys
length-rev_on [] ys = omega arith
length-rev_on (x ∷ xs) ys = omega (arith, length-rev_on xs (x ∷ ys))

prefix : (p m acc : List ℕ) → p ++ rev_on m acc ≡ (p ++ rev_on m []) ++ acc
prefix p m acc = ap (λ u. p ++ u) (rev_on-append m [] acc) ∙ sym (append_assoc p (rev_on m []) acc)

length-prefix : (p m : List ℕ) → length (p ++ rev_on m []) ≡ length p + length m
length-prefix p m = omega (arith, length-append p (rev_on m []), length-rev_on m [])

-- The loop of `insert` moves the bytes behind `p` up by one; they are given in reverse.
pub shift_up-moved :
    (m : List ℕ) (s : Kstring) (p r : List ℕ) (y i : ℕ)
    → s.buffer ≡ Buffer.live (p ++ rev_on m (y ∷ r))
    → i ≡ length p + length m
    → (h : ℕ) × (shift_up (length m) i s ≡ ok (with_bytes s (p ++ h ∷ rev_on m r)))
unfolding shift_up
shift_up-moved [] s p r y i b e = (y, same_record s (p ++ y ∷ r) b)
shift_up-moved (k ∷ m) s p r y i b e =
    let q = p ++ rev_on m [] in
    let got =
      read_border s q (y ∷ r) k (i - 1) (b ∙ ap Buffer.live (prefix p m (k ∷ y ∷ r)))
        (omega (arith, e, length-prefix p m)) in
    let put =
      write_border s (q ++ k ∷ []) r y k i
        (b ∙ ap Buffer.live (prefix p m (k ∷ y ∷ r) ∙ border_next q (y ∷ r) k))
        (omega (arith, e, length-prefix p m, length-append q (k ∷ []))) in
    let (h, rest) =
      shift_up-moved m (with_bytes s (q ++ k ∷ [] ++ k ∷ r)) p (k ∷ r) k (i - 1)
        (ap Buffer.live (sym (border_next q (k ∷ r) k) ∙ sym (prefix p m (k ∷ k ∷ r))))
        (omega (arith, e)) in
    (h, simp (got, put) rest)
