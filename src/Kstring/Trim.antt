-- ===== src/Kstring/Trim.antt =====
-- `trim` and `substr` of kstring.hpp.
use hltos.Base.{
  ℕ, zero, suc, ◌+◌, ◌-◌, ◌^◌, ◌≤◌, ◌<◌, ◌≡◌, refl, sym, ap, ◌∙◌, inl, inr, true, false, List, [],
  ◌∷◌, ◌++◌, arith, ltb, leb, if◌then◌else◌, length, take, drop, length-append, append_assoc,
  append-nil,
}
use mathlib.Core.Path.{subst}
use hltos.Base.Run.{ok, ◌>>=◌}
use hltos.Kstring.{
  Buffer, Kstring, empty_string, ensure_capacity, push_back, push_range, trim, substr,
  trim_back_loop,
}
use hltos.Kstring.Memory.{Live, Holds, read_border}
use hltos.Kstring.Growth.{IsFresh, Grown, ensure_capacity-null}
use hltos.Kstring.Edits.{Becomes, push_back-Live, push_back-Becomes, border_next}
use hltos.Kstring.Faults.{trim_back_loop-end}

take-drop : (n : ℕ) (xs : List ℕ) → take n xs ++ drop n xs ≡ xs
take-drop zero xs = refl
take-drop (suc n) [] = refl
take-drop (suc n) (x ∷ xs) = ap (◌∷◌ x) (take-drop n xs)

length-take :
    (n : ℕ) (xs : List ℕ) → length (take n xs) ≡ (if ltb (length xs) n then length xs else n)
length-take zero xs = ground arith
length-take (suc n) [] = ground arith
length-take (suc n) (x ∷ xs) = ground (arith, length-take n xs)

length-drop : (n : ℕ) (xs : List ℕ) → length (drop n xs) ≡ length xs - n
length-drop zero xs = omega arith
length-drop (suc n) [] = omega arith
length-drop (suc n) (x ∷ xs) = omega (arith, length-drop n xs)

module _ (fresh : ℕ → List ℕ) (allocates : IsFresh fresh) where
  -- The characters `m` between what stands before and behind them.
  push_range-Becomes :
      (s result : Kstring) (p m r acc : List ℕ) (i : ℕ)
      → s.buffer ≡ Buffer.live (p ++ (m ++ r))
      → i ≡ length p
      → Holds result acc
      → length acc + length m < 2 ^ 61
      → Becomes (push_range fresh (length m) s i result) (acc ++ m)
  unfolding push_range
  push_range-Becomes s result p [] r acc i b e h small =
      (result, refl, subst (Holds result) (sym (append-nil acc)) h)
  push_range-Becomes s result p (c ∷ m) r acc i b e h small =
      pushed
        (λ t ht.
          push_range-Becomes s t (p ++ c ∷ []) m r (acc ++ c ∷ []) (i + 1)
            (b ∙ ap Buffer.live (border_next p (m ++ r) c))
            (omega (arith, e, length-append p (c ∷ []))) ht
            (omega (arith, small, length-append acc (c ∷ []))))
        (push_back-Becomes fresh allocates result acc c h (omega (arith, small)))
    where
      pushed :
          ((t : Kstring)
            → Holds t (acc ++ c ∷ [])
            → Becomes (push_range fresh (length m) s (i + 1) t) (acc ++ c ∷ [] ++ m))
          → Becomes (push_back fresh result c) (acc ++ c ∷ [])
          → Becomes (push_range fresh (suc (length m)) s i result) (acc ++ c ∷ m)
      pushed later (t, e1, ht) =
          simp (read_border s p (m ++ r) c i b e, e1, sym (append_assoc acc (c ∷ []) m))
            (later t ht)

  -- The same into a new string that has room but no terminating zero.
  range_from :
      (s result : Kstring) (p m r rest : List ℕ) (i : ℕ)
      → s.buffer ≡ Buffer.live (p ++ (m ++ r))
      → i ≡ length p
      → Live result [] rest
      → 0 < result.capacity
      → 0 < length m
      → length m < 2 ^ 61
      → Becomes (push_range fresh (length m) s i result) m
  unfolding push_range
  range_from s result p [] r rest i b e l room some small = absurd (omega (arith, some))
  range_from s result p (c ∷ m) r rest i b e l room some small =
      first (push_back-Live fresh allocates result [] rest c l room (omega arith))
    where
      first :
          Becomes (push_back fresh result c) (c ∷ [])
          → Becomes (push_range fresh (suc (length m)) s i result) (c ∷ m)
      first (t, e1, ht) =
          simp (read_border s p (m ++ r) c i b e, e1)
            (push_range-Becomes s t (p ++ c ∷ []) m r (c ∷ []) (i + 1)
              (b ∙ ap Buffer.live (border_next p (m ++ r) c))
              (omega (arith, e, length-append p (c ∷ []))) ht (omega (arith, small)))

  -- A range of a text, pushed into a new string with some room.
  new_range :
      (s : Kstring) (p m r : List ℕ) (room i : ℕ)
      → s.buffer ≡ Buffer.live (p ++ (m ++ r))
      → i ≡ length p
      → 0 < length m
      → length m < 2 ^ 61
      → 0 < room
      → room ≤ 2 ^ 62
      → Becomes
          (ensure_capacity fresh empty_string room >>= λ result.
            push_range fresh (length m) s i result)
          m
  new_range s p m r room i b e some small positive bound =
      grown (ensure_capacity-null fresh allocates empty_string room refl refl refl positive bound)
    where
      grown :
          Grown empty_string [] room (ensure_capacity fresh empty_string room)
          → Becomes
              (ensure_capacity fresh empty_string room >>= λ result.
                push_range fresh (length m) s i result)
              m
      grown (g, rest, done, l, enough) =
          simp done (range_from s g p m r rest i b e l (omega (arith, positive, enough)) some small)

  -- `trim_back` of a text that is not empty gives the whole text, whatever stands at its end.
  pub trim-back :
      (s : Kstring) (text : List ℕ) (c : ℕ)
      → Holds s text
      → 0 < length text
      → length text < 2 ^ 61
      → 0 < c
      → Becomes (trim fresh s false true c) text
  unfolding trim
  trim-back s text c (inr (b, n, z, e)) some small nonzero =
      absurd (omega (arith, some, ap length e))
  trim-back s text c (inl (rest, l)) some small nonzero =
      let more : s.size + 1 ≡ suc s.size = omega arith in
      let at_end : trim_back_loop (s.size + 1) s c 0 s.size ≡ ok s.size =
        ap (λ k. trim_back_loop k s c 0 s.size) more
        ∙ trim_back_loop-end s.size s text c 0 (inl (rest, l)) (omega (arith, l.capacity))
            nonzero in
      let left : leb s.size 0 ≡ false = ground (arith, l.size, some) in
      let count : s.size - 0 ≡ length text = omega (arith, l.size) in
      simp (at_end, left, count)
        (new_range s [] text (0 ∷ rest) (length text) 0 l.buffer refl some small some
          (omega (arith, small)))

  -- `substr` gives the characters from the place on, as many as are asked for or as there are.
  pub substr-Becomes :
      (s : Kstring) (text : List ℕ) (pos len : ℕ)
      → Holds s text
      → pos < length text
      → 0 < len
      → length text < 2 ^ 61
      → Becomes (substr fresh s pos len) (take len (drop pos text))
  unfolding substr
  substr-Becomes s text pos len (inr (b, n, z, e)) below some small =
      absurd (omega (arith, below, ap length e))
  substr-Becomes s text pos len (inl (rest, l)) below some small =
      let inside : leb s.size pos ≡ false = ground (arith, l.size, below) in
      let behind = drop pos text in
      let m = take len behind in
      let size : length m ≡ (if ltb (s.size - pos) len then s.size - pos else len) =
        length-take len behind
        ∙ ap (λ k. if ltb k len then k else len)
            (length-drop pos text ∙ ap (λ k. k - pos) (sym l.size)) in
      let parts : text ++ 0 ∷ rest ≡ take pos text ++ (m ++ (drop len behind ++ 0 ∷ rest)) =
        ap (λ u. u ++ 0 ∷ rest)
          (sym (take-drop pos text) ∙ ap (λ u. take pos text ++ u) (sym (take-drop len behind)))
        ∙ append_assoc (take pos text) (m ++ drop len behind) (0 ∷ rest)
        ∙ ap (λ u. take pos text ++ u) (append_assoc m (drop len behind) (0 ∷ rest)) in
      let front : pos ≡ length (take pos text) = ground (arith, length-take pos text, below) in
      let fits : length m ≤ length text =
        ground (arith, length-take len behind, length-drop pos text) in
      let nonempty : 0 < length m =
        ground (arith, length-take len behind, length-drop pos text, below, some) in
      simp (inside, sym size)
        (new_range s (take pos text) m (drop len behind ++ 0 ∷ rest) s.size pos
          (l.buffer ∙ ap Buffer.live parts) front nonempty (omega (arith, fits, small))
          (omega (arith, l.size, below)) (omega (arith, l.size, small)))
