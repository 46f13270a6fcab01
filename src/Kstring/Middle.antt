-- ===== src/Kstring/Middle.antt =====
-- `insert` of kstring.hpp: in the middle of a text it needs two bytes behind the text and makes sure of
-- one, so it writes one byte behind a buffer that is just full.
use hltos.Base.{
  ℕ, suc, ◌+◌, ◌-◌, ◌^◌, ◌≤◌, ◌<◌, ◌≡◌, refl, sym, ap, ◌∙◌, inl, inr, true, false, List, [], ◌∷◌,
  ◌++◌, arith, ltb, ◌==◌, length, take, drop, length-append, append_assoc, Bool-cases,
}
use mathlib.Core.Path.{subst}
use hltos.Base.Run.{ok, fault}
use hltos.Kstring.{
  Buffer, Kstring, read, write, ensure_null_terminated, ensure_capacity, push_back, insert,
  shift_up,
}
use hltos.Kstring.Memory.{
  Live, Holds, write_border, read_border, split_at, take_border, drop_border,
}
use hltos.Kstring.Growth.{IsFresh, Grown, ensure_capacity-Holds, ensure_capacity-enough}
use hltos.Kstring.Edits.{
  Becomes, Holds-size, ensure_null-Becomes, take_all, push_back-Live, ensure_null-Holds,
}
use hltos.Kstring.Moves.{drop_all}
use hltos.Kstring.Insert.{with_bytes, rev_on, rev_on-twice, length-rev_on, shift_up-moved}

write_outside :
    (s : Kstring) (bytes : List ℕ) (i c : ℕ)
    → s.buffer ≡ Buffer.live bytes
    → length bytes ≤ i
    → write s i c ≡ fault
unfolding write
write_outside s bytes i c b h =
    let outside : ltb i (length bytes) ≡ false = ground (arith, h) in rw (b, outside) refl

-- A call of `insert` in the middle of a string that its buffer has room for.
module _ (fresh : ℕ → List ℕ) (s : Kstring) (pos c : ℕ) (below : pos < s.size)
    (room : s.size + 1 ≤ s.capacity) where
  insert_steps :
      (h w : Kstring)
      → shift_up (s.size + 1 - pos) (s.size + 1) s ≡ ok h
      → write h pos c ≡ ok w
      → insert fresh s pos c ≡ ensure_null_terminated (record w { size = w.size + 1 })
  unfolding insert
  insert_steps h w shifted put =
      let inside : ltb s.size pos ≡ false = ground (arith, below) in
      let middle : (pos == s.size) ≡ false = ground (arith, below) in
      simp (inside, ensure_capacity-enough fresh s (s.size + 1) room, middle, shifted, put) refl

  insert_faults : shift_up (s.size + 1 - pos) (s.size + 1) s ≡ fault → insert fresh s pos c ≡ fault
  unfolding insert
  insert_faults out =
      let inside : ltb s.size pos ≡ false = ground (arith, below) in
      let middle : (pos == s.size) ≡ false = ground (arith, below) in
      simp (inside, ensure_capacity-enough fresh s (s.size + 1) room, middle, out) refl

shift_up_faults :
    (rounds i a : ℕ) (s : Kstring)
    → read s (i - 1) ≡ ok a
    → write s i a ≡ fault
    → shift_up (suc rounds) i s ≡ fault
unfolding shift_up
shift_up_faults rounds i a s got out = rw (got, out) refl

module _ (fresh : ℕ → List ℕ) where
  -- In the middle of a text with two bytes behind it.
  insert_split :
      (s : Kstring) (front m back : List ℕ) (b c : ℕ)
      → Live s (front ++ m) (0 ∷ b ∷ back)
      → 0 < length m
      → Becomes (insert fresh s (length front) c) (front ++ c ∷ m)
  insert_split s front m back b c l some =
      finish (shift_up-moved mr s front back b (s.size + 1) whole at_end)
    where
      mr : List ℕ
      mr = rev_on (m ++ 0 ∷ []) []

      total : length (front ++ m) ≡ length front + length m
      total = length-append front m

      moved_back : (acc : List ℕ) → rev_on (rev_on (m ++ 0 ∷ []) []) acc ≡ m ++ 0 ∷ [] ++ acc
      moved_back acc = rev_on-twice (m ++ 0 ∷ []) [] acc

      rounds : length (rev_on (m ++ 0 ∷ []) []) ≡ s.size + 1 - length front
      rounds = omega (
        arith,
        l.size,
        length-append front m,
        length-rev_on (m ++ 0 ∷ []) [],
        length-append m (0 ∷ []),
      )

      whole : s.buffer ≡ Buffer.live (front ++ rev_on (rev_on (m ++ 0 ∷ []) []) (b ∷ back))
      whole =
          l.buffer
          ∙ ap Buffer.live (
              append_assoc front m (0 ∷ b ∷ back)
              ∙ ap (λ u. front ++ u)
                  (sym (append_assoc m (0 ∷ []) (b ∷ back)) ∙ sym (moved_back (b ∷ back))))

      at_end : s.size + 1 ≡ length front + length (rev_on (m ++ 0 ∷ []) [])
      at_end = omega (arith, l.size, length-append front m, rounds)

      finish :
          (h : ℕ) × (shift_up (length (rev_on (m ++ 0 ∷ []) [])) (s.size + 1) s
              ≡ ok (with_bytes s (front ++ h ∷ rev_on (rev_on (m ++ 0 ∷ []) []) back)))
          → Becomes (insert fresh s (length front) c) (front ++ c ∷ m)
      finish (h, moved) =
          let w = with_bytes s (front ++ c ∷ rev_on (rev_on (m ++ 0 ∷ []) []) back) in
          let t : Kstring = record w { size = s.size + 1 } in
          let done : insert fresh s (length front) c ≡ ensure_null_terminated t =
            insert_steps fresh s (length front) c (omega (arith, l.size, total, some))
              (omega (arith, l.size, l.capacity))
              (with_bytes s (front ++ h ∷ rev_on (rev_on (m ++ 0 ∷ []) []) back)) w
              (ap (λ r. shift_up r (s.size + 1) s) (sym rounds) ∙ moved)
              (write_border (with_bytes s (front ++ h ∷ rev_on (rev_on (m ++ 0 ∷ []) []) back))
                front (rev_on (rev_on (m ++ 0 ∷ []) []) back) h c (length front) refl refl) in
          subst (λ r. Becomes r (front ++ c ∷ m)) (sym done)
            (ensure_null-Becomes t (front ++ c ∷ m) back 0 (record {
              buffer = ap Buffer.live (
                  ap (λ u. front ++ c ∷ u) (moved_back back ∙ append_assoc m (0 ∷ []) back)
                  ∙ sym (append_assoc front (c ∷ m) (0 ∷ back)));
              size = omega (arith, l.size, total, length-append front (c ∷ m));
              capacity = omega (arith, l.capacity, total, length-append front (c ∷ m));
            }))

  -- In the middle of a text that fills its buffer, up to the terminating zero, `insert` writes behind
  -- the buffer.
  pub insert-fault :
      (s : Kstring) (text : List ℕ) (pos c : ℕ)
      → Holds s text
      → pos < length text
      → s.capacity ≡ length text + 1
      → insert fresh s pos c ≡ fault
  insert-fault s text pos c (inr (b, n, cap_zero, e)) below full =
      absurd (omega (arith, below, ap length e))
  insert-fault s text pos c (inl (rest, l)) below full =
      let rounds : s.size + 1 - pos ≡ suc (s.size - pos) = omega (arith, l.size, below) in
      insert_faults fresh s pos c (omega (arith, l.size, below)) (omega (arith, l.size, full)) (
        ap (λ r. shift_up r (s.size + 1) s) rounds
        ∙ shift_up_faults (s.size - pos) (s.size + 1) 0 s
            (read_border s text rest 0 (s.size + 1 - 1) l.buffer (omega (arith, l.size)))
            (write_outside s (text ++ 0 ∷ rest) (s.size + 1) 0 l.buffer
              (omega (arith, l.size, l.capacity, full, length-append text (0 ∷ rest)))))

  insert_end :
      IsFresh fresh
      → (s : Kstring) (text : List ℕ) (c : ℕ) → Holds s text
      → length text < 2 ^ 61
      → Becomes (insert fresh s (length text) c) (text ++ c ∷ [])
  unfolding insert
  insert_end allocates s text c h small = grown (
      ensure_capacity-Holds fresh allocates s text (s.size + 1) h (omega arith)
        (omega (arith, Holds-size s text h, small)))
    where
      terminated :
          (g : Kstring)
          → ensure_capacity fresh s (s.size + 1) ≡ ok g
          → g.size ≡ length text
          → Becomes (push_back fresh g c) (text ++ c ∷ [])
          → Becomes (insert fresh s (length text) c) (text ++ c ∷ [])
      terminated g e size (t, pushed, ht) =
          let inside : ltb s.size (length text) ≡ false = ground (arith, Holds-size s text h) in
          let here : (length text == g.size) ≡ true = ground (arith, size) in
          let done : insert fresh s (length text) c ≡ ensure_null_terminated t =
            simp (inside, e, here, pushed) refl in
          subst (λ r. Becomes r (text ++ c ∷ [])) (sym done)
            (ensure_null-Holds t (text ++ c ∷ []) ht)

      grown :
          Grown s text (s.size + 1) (ensure_capacity fresh s (s.size + 1))
          → Becomes (insert fresh s (length text) c) (text ++ c ∷ [])
      grown (g, rest, e, l, room) =
          terminated g e l.size
            (push_back-Live fresh allocates g text rest c l (omega (arith, room)) small)

  spare :
      (s : Kstring) (text rest front m : List ℕ) (pos c : ℕ)
      → length front ≡ pos
      → text ≡ front ++ m
      → Live s text (0 ∷ rest)
      → 1 ≤ length rest
      → 0 < length m
      → Becomes (insert fresh s pos c) (front ++ c ∷ m)
  spare s text [] front m pos c len split l more some = absurd (omega (arith, more))
  spare s text (b ∷ back) front m pos c len split l more some =
      subst (λ n. Becomes (insert fresh s n c) (front ++ c ∷ m)) len
        (insert_split s front m back b c (subst (λ u. Live s u (0 ∷ b ∷ back)) split l) some)

  -- `insert` puts the character at the place into the text, if the buffer has a byte to spare behind the
  -- terminating zero or the place is the end.
  pub insert-Becomes :
      IsFresh fresh
      → (s : Kstring) (text : List ℕ) (pos c : ℕ) → Holds s text
      → pos ≤ length text
      → (pos < length text → length text + 2 ≤ s.capacity)
      → length text < 2 ^ 61
      → Becomes (insert fresh s pos c) (take pos text ++ c ∷ drop pos text)
  insert-Becomes allocates s text pos c h inside room small =
      elim (Bool-cases (pos == length text)) [
        | inl here ↦
            let same : pos ≡ length text = ground (arith, here) in
            let before : take pos text ≡ text = take_all pos text (omega (arith, same)) in
            let behind : drop pos text ≡ [] = drop_all pos text (omega (arith, same)) in
            rw (before, behind)
              (subst (λ n. Becomes (insert fresh s n c) (text ++ c ∷ [])) (sym same)
                (insert_end allocates s text c h small))
        | inr middle ↦ in_middle h (split_at pos text inside) (ground (arith, middle, inside))
      ]
    where
      in_middle :
          Holds s text
          → (front : List ℕ) × (back : List ℕ) × (text ≡ front ++ back) × (length front ≡ pos)
          → pos < length text
          → Becomes (insert fresh s pos c) (take pos text ++ c ∷ drop pos text)
      in_middle (inr (b, n, z, e)) split below = absurd (omega (arith, below, ap length e))
      in_middle (inl (rest, l)) (front, m, split, len) below =
          let before : take pos text ≡ front =
            ap (λ n. take n text) (sym len)
            ∙ ap (take (length front)) split
            ∙ take_border front m in
          let behind : drop pos text ≡ m =
            ap (λ n. drop n text) (sym len)
            ∙ ap (drop (length front)) split
            ∙ drop_border front m in
          rw (before, behind)
            (spare s text rest front m pos c len split l (omega (arith, l.capacity, room below))
              (omega (arith, ap length split, length-append front m, len, below)))
