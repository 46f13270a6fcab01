-- ===== src/Kstring/Moves.antt =====
-- `insert` and `erase` of kstring.hpp against lists.
use hltos.Base.{
  ℕ, zero, suc, ◌-◌, ◌≤◌, ◌<◌, ◌≡◌, refl, sym, ap, ◌∙◌, inl, inr, true, false, List, [], ◌∷◌, ◌++◌,
  arith, ltb, leb, length, take, drop, length-append, append_assoc, append-nil, Bool-cases,
}
use mathlib.Core.Path.{subst}
use hltos.Kstring.{Buffer, Kstring, ensure_null_terminated, erase}
use hltos.Kstring.Memory.{Live, Holds, take_border}
use hltos.Kstring.Edits.{Becomes, Holds-size, ensure_null-Becomes, take_all}
use hltos.Kstring.Insert.{with_bytes, shift_down-moved}

pub drop_all : (n : ℕ) (xs : List ℕ) → length xs ≤ n → drop n xs ≡ []
drop_all zero [] h = refl
drop_all zero (x ∷ xs) h = absurd (omega (arith, h))
drop_all (suc n) [] h = refl
drop_all (suc n) (x ∷ xs) h = drop_all n xs (omega (arith, h))

drop_one : (front back : List ℕ) (x : ℕ) → drop (suc (length front)) (front ++ x ∷ back) ≡ back
drop_one [] back x = refl
drop_one (y ∷ front) back x = drop_one front back x

-- What `erase` leaves of a text that is split at the place.
erase_split :
    (s : Kstring) (front back rest : List ℕ) (x : ℕ)
    → Live s (front ++ x ∷ back) (0 ∷ rest)
    → Becomes (erase s (length front)) (front ++ back)
unfolding erase
erase_split s front back rest x l =
    let total = length-append front (x ∷ back) in
    let short : leb s.size (length front) ≡ false = ground (arith, l.size, total) in
    let rounds : s.size - length front ≡ length (back ++ 0 ∷ []) =
      omega (arith, l.size, total, length-append back (0 ∷ [])) in
    let whole : front ++ x ∷ back ++ 0 ∷ rest ≡ front ++ x ∷ ((back ++ 0 ∷ []) ++ rest) =
      append_assoc front (x ∷ back) (0 ∷ rest)
      ∙ ap (λ u. front ++ x ∷ u) (sym (append_assoc back (0 ∷ []) rest)) in
    let (z, moved) =
      shift_down-moved (back ++ 0 ∷ []) s front rest x (length front)
        (l.buffer ∙ ap Buffer.live whole) refl in
    let t : Kstring = record (with_bytes s (front ++ (back ++ 0 ∷ [] ++ z ∷ rest))) {
      size = s.size - 1;
    } in
    let done : erase s (length front) ≡ ensure_null_terminated t =
      simp (short, rounds, moved) refl in
    subst (λ r. Becomes r (front ++ back)) (sym done)
      (ensure_null-Becomes t (front ++ back) (z ∷ rest) 0 (record {
        buffer = ap Buffer.live (
            ap (λ u. front ++ u) (append_assoc back (0 ∷ []) (z ∷ rest))
            ∙ sym (append_assoc front back (0 ∷ z ∷ rest)));
        size = omega (arith, l.size, total, length-append front back);
        capacity = omega (arith, l.capacity, total, length-append front back);
      }))

-- A place at or behind the end: nothing is erased.
erase_outside :
    (s : Kstring) (text : List ℕ) (pos : ℕ)
    → Holds s text
    → length text ≤ pos
    → Becomes (erase s pos) (take pos text ++ drop (suc pos) text)
unfolding erase
erase_outside s text pos h outside =
    let long : leb s.size pos ≡ true = ground (arith, outside, Holds-size s text h) in
    let same : take pos text ++ drop (suc pos) text ≡ text =
      ap (λ u. take pos text ++ u) (drop_all (suc pos) text (omega (arith, outside)))
      ∙ append-nil (take pos text)
      ∙ take_all pos text outside in
    (s, rw long refl, subst (Holds s) (sym same) h)

-- The text around a place in it.
abbrev Around : List ℕ → ℕ → Type 0
Around text pos =
    (front : List ℕ) × (x : ℕ) × (back : List ℕ) × (text ≡ front ++ x ∷ back) × (length front ≡ pos)

around : (text : List ℕ) (pos : ℕ) → pos < length text → Around text pos
around [] pos h = absurd (omega (arith, h))
around (x ∷ text) zero h = ([], x, text, refl, refl)
around (x ∷ text) (suc pos) h =
    let (front, y, back, e, l) = around text pos (omega (arith, h)) in
    (x ∷ front, y, back, ap (◌∷◌ x) e, ap suc l)

-- `erase` takes the character at the place out of the text, and does nothing behind its end.
pub erase-Becomes :
    (s : Kstring) (text : List ℕ) (pos : ℕ)
    → Holds s text
    → Becomes (erase s pos) (take pos text ++ drop (suc pos) text)
erase-Becomes s text pos h = elim (Bool-cases (ltb pos (length text))) [
  | inl inside ↦ erase_at h (around text pos (ground (arith, inside)))
  | inr outside ↦ erase_outside s text pos h (ground (arith, outside))
]
  where
    erase_at :
        Holds s text
        → Around text pos
        → Becomes (erase s pos) (take pos text ++ drop (suc pos) text)
    erase_at (inr (b, n, c, e)) (front, x, back, split, len) =
        absurd (omega (arith, ap length e, ap length split, length-append front (x ∷ back)))
    erase_at (inl (rest, l)) (front, x, back, split, len) =
        let before : take pos text ≡ front =
          ap (λ n. take n text) (sym len)
          ∙ ap (take (length front)) split
          ∙ take_border front (x ∷ back) in
        let behind : drop (suc pos) text ≡ back =
          ap (λ n. drop (suc n) text) (sym len)
          ∙ ap (drop (suc (length front))) split
          ∙ drop_one front back x in
        rw (before, behind)
          (subst (λ n. Becomes (erase s n) (front ++ back)) len
            (erase_split s front back rest x (subst (λ u. Live s u (0 ∷ rest)) split l)))
