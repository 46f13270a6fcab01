-- ===== src/Kstring/Edits.antt =====
-- The operations of kstring.hpp that change the end of a string, or all of it, against lists.
use hltos.Base.{
  ℕ, zero, suc, ◌+◌, ◌-◌, ◌^◌, ◌≤◌, ◌<◌, ◌≡◌, refl, sym, ap, ◌∙◌, inl, inr, List, [], ◌∷◌, ◌++◌,
  arith, leb, ◌==◌, length, take, length-append, append_assoc, Bool-cases,
}
use mathlib.Core.Path.{subst}
use hltos.Base.Run.{Run, ok, ◌>>=◌}
use hltos.Kstring.{
  Buffer, Kstring, write, ensure_null_terminated, ensure_capacity, push_back, pop_back, clear,
  truncate,
}
use hltos.Kstring.Memory.{Live, Holds, write_border, split_at, ensure_null-Live, take_border}
use hltos.Kstring.Growth.{IsFresh, Grown, ensure_capacity-Live, ensure_capacity-Holds}

-- The call succeeds with a string that holds the text.
abbrev pub Becomes : Run Kstring → List ℕ → Type 0
Becomes r text = (t : Kstring) × (r ≡ ok t) × Holds t text

pub Holds-size : (s : Kstring) (text : List ℕ) → Holds s text → s.size ≡ length text
Holds-size s text (inl (rest, l)) = l.size
Holds-size s text (inr (b, n, c, e)) = n ∙ ap length (sym e)

-- The end of a text moves over one byte.
pub border_next : (text rest : List ℕ) (c : ℕ) → text ++ c ∷ rest ≡ (text ++ c ∷ []) ++ rest
border_next text rest c = sym (append_assoc text (c ∷ []) rest)

pub ensure_null-Becomes :
    (s : Kstring) (text rest : List ℕ) (a : ℕ)
    → Live s text (a ∷ rest)
    → Becomes (ensure_null_terminated s) text
ensure_null-Becomes s text rest a l =
    let (t, e, lt) = ensure_null-Live s text rest a l in (t, e, inl (rest, lt))

-- A string whose text is cut at `n`.
cut_Live :
    (s : Kstring) (text rest : List ℕ) (n : ℕ)
    → Live s text rest
    → n < length text
    → (a : ℕ) × (back : List ℕ) × Live (record s { size = n }) (take n text) (a ∷ back)
cut_Live s text rest n l h =
    let (front, back, e, len) = split_at n text (omega (arith, h)) in cut front back e len
  where
    cut :
        (front back : List ℕ)
        → text ≡ front ++ back
        → length front ≡ n
        → (a : ℕ) × (back : List ℕ) × Live (record s { size = n }) (take n text) (a ∷ back)
    cut front [] e len = absurd (omega (arith, ap length e, length-append front [], len, h))
    cut front (a ∷ back) e len =
        let front_is : take n text ≡ front =
          ap (λ m. take m text) (sym len)
          ∙ ap (take (length front)) e
          ∙ take_border front (a ∷ back) in
        (
          a,
          back ++ rest,
          record {
            buffer =
                l.buffer
                ∙ ap (λ u. Buffer.live (u ++ rest)) e
                ∙ ap Buffer.live (append_assoc front (a ∷ back) rest)
                ∙ ap (λ u. Buffer.live (u ++ a ∷ (back ++ rest))) (sym front_is);
            size = omega (arith, ap length front_is, len);
            capacity = omega (
              arith,
              l.capacity,
              ap length e,
              ap length front_is,
              length-append front (a ∷ back),
              length-append back rest,
            );
          },
        )

pub take_all : (n : ℕ) (xs : List ℕ) → length xs ≤ n → take n xs ≡ xs
take_all zero [] h = refl
take_all zero (x ∷ xs) h = absurd (omega (arith, h))
take_all (suc n) [] h = refl
take_all (suc n) (x ∷ xs) h = ap (◌∷◌ x) (take_all n xs (omega (arith, h)))

-- A shorter size, and a terminating zero behind it.
cut-Becomes :
    (s : Kstring) (text : List ℕ) (n : ℕ)
    → Holds s text
    → n ≤ length text
    → Becomes (ensure_null_terminated (record s { size = n })) (take n text)
unfolding ensure_null_terminated
cut-Becomes s text n (inl (rest, l)) h = elim (Bool-cases (n == length text)) [
  | inl whole ↦
      let same : n ≡ length text = ground (arith, whole) in
      ensure_null-Becomes (record s { size = n }) (take n text) rest 0
        record {
          buffer =
              l.buffer
              ∙ ap (λ u. Buffer.live (u ++ 0 ∷ rest)) (sym (take_all n text (omega (arith, same))));
          size = same ∙ ap length (sym (take_all n text (omega (arith, same))));
          capacity = omega (arith, l.capacity, ap length (take_all n text (omega (arith, same))));
        }
  | inr part ↦
      let (a, back, cut) = cut_Live s text (0 ∷ rest) n l (ground (arith, h, part)) in
      ensure_null-Becomes (record s { size = n }) (take n text) back a cut
]
cut-Becomes s text n (inr (b, z, c, e)) h =
    let none_left : n ≡ 0 = omega (arith, h, ap length e) in
    (
      record s { size = n },
      simp b refl,
      inr (b, none_left, c, take_all n text (omega (arith, none_left, ap length e)) ∙ e),
    )

pub truncate-Becomes :
    (s : Kstring) (text : List ℕ) (pos : ℕ)
    → Holds s text
    → Becomes (truncate s pos) (take pos text)
unfolding truncate
truncate-Becomes s text pos h = elim (Bool-cases (leb s.size pos)) [
  | inl long ↦ rw long (
    s,
    refl,
    subst (Holds s) (sym (take_all pos text (ground (arith, long, Holds-size s text h)))) h,
  )
  | inr short ↦ rw short (cut-Becomes s text pos h (ground (arith, short, Holds-size s text h)))
]

pub clear-Becomes : (s : Kstring) (text : List ℕ) → Holds s text → Becomes (clear s) []
unfolding clear
clear-Becomes s text h = cut-Becomes s text 0 h (omega arith)

pub pop_back-Becomes :
    (s : Kstring) (text : List ℕ)
    → Holds s text
    → Becomes (pop_back s) (take (length text - 1) text)
unfolding pop_back
pop_back-Becomes s text h = elim (Bool-cases (s.size == 0)) [
  | inl none_left ↦
      let same : take (length text - 1) text ≡ text =
        take_all (length text - 1) text (ground (arith, none_left, Holds-size s text h)) in
      rw none_left (s, refl, subst (Holds s) (sym same) h)
  | inr some ↦ rw (some, Holds-size s text h) (cut-Becomes s text (length text - 1) h (omega arith))
]

pub empty_text : (xs : List ℕ) → length xs ≡ 0 → xs ≡ []
empty_text [] h = refl
empty_text (x ∷ xs) h = absurd (omega (arith, h))

-- Two bytes behind the text: the new one and the terminating zero.
push_steps :
    (g : Kstring) (text rest : List ℕ) (a b c : ℕ)
    → Live g text (a ∷ b ∷ rest)
    → Becomes
        (write g g.size c >>= λ w.
          write w (w.size + 1) 0 >>= λ z. ok (record z { size = z.size + 1 }))
        (text ++ c ∷ [])
push_steps g text rest a b c l =
    let first = write_border g text (b ∷ rest) a c g.size l.buffer l.size in
    let len = length-append text (c ∷ []) in
    let second =
      write_border (record g { buffer = Buffer.live (text ++ c ∷ b ∷ rest) }) (text ++ c ∷ []) rest
        b 0 (g.size + 1) (ap Buffer.live (border_next text (b ∷ rest) c))
        (omega (arith, l.size, len)) in
    (
      record g { buffer = Buffer.live (text ++ c ∷ [] ++ 0 ∷ rest); size = g.size + 1 },
      rw (first, second) refl,
      inl (
        rest,
        record {
          buffer = refl;
          size = omega (arith, l.size, len);
          capacity = omega (arith, l.capacity, len);
        },
      ),
    )

-- A rest of two bytes or more.
pub two_bytes :
    {P : Type 0} (rest : List ℕ)
    → 2 ≤ length rest
    → ((a b : ℕ) (back : List ℕ) → rest ≡ a ∷ b ∷ back → P)
    → P
two_bytes [] h f = absurd (omega (arith, h))
two_bytes (a ∷ []) h f = absurd (omega (arith, h))
two_bytes (a ∷ b ∷ back) h f = f a b back refl

pub ensure_null-Holds :
    (s : Kstring) (text : List ℕ) → Holds s text → Becomes (ensure_null_terminated s) text
ensure_null-Holds s text h =
    cut_whole (cut-Becomes s text s.size h (omega (arith, Holds-size s text h)))
  where
    cut_whole :
        Becomes (ensure_null_terminated s) (take s.size text)
        → Becomes (ensure_null_terminated s) text
    cut_whole (t, e, ht) =
        (t, e, subst (Holds t) (take_all s.size text (omega (arith, Holds-size s text h))) ht)

module _ (fresh : ℕ → List ℕ) (allocates : IsFresh fresh) where
  push_larger :
      (s : Kstring) (text : List ℕ) (c : ℕ)
      → s.size ≡ length text
      → Grown s text (s.size + 2) (ensure_capacity fresh s (s.size + 2))
      → Becomes (push_back fresh s c) (text ++ c ∷ [])
  unfolding push_back
  push_larger s text c size (g, rest, e, l, room) =
      two_bytes rest (omega (arith, l.capacity, room, size))
        λ a b back split. rw e (push_steps g text back a b c (subst (Live g text) split l))

  pub push_back-Live :
      (s : Kstring) (text rest : List ℕ) (c : ℕ)
      → Live s text rest
      → 0 < s.capacity
      → length text < 2 ^ 61
      → Becomes (push_back fresh s c) (text ++ c ∷ [])
  push_back-Live s text rest c l some small = push_larger s text c l.size (
      ensure_capacity-Live fresh allocates s text rest (s.size + 2) l some
        (omega (arith, l.size, small)))

  pub push_back-Becomes :
      (s : Kstring) (text : List ℕ) (c : ℕ)
      → Holds s text
      → length text < 2 ^ 61
      → Becomes (push_back fresh s c) (text ++ c ∷ [])
  push_back-Becomes s text c h small =
      let size = Holds-size s text h in
      push_larger s text c size (
        ensure_capacity-Holds fresh allocates s text (s.size + 2) h (omega arith)
          (omega (arith, size, small)))
