-- ===== src/Kstring/Appends.antt =====
-- `append` and `copy` of kstring.hpp against lists.
use hltos.Base.{
  ℕ, ◌+◌, ◌^◌, ◌≤◌, ◌<◌, ◌≡◌, refl, sym, ap, ◌∙◌, inl, inr, false, List, [], ◌∷◌, ◌++◌, arith, ◌==◌,
  length, length-append, append_assoc, append-nil, Bool-cases,
}
use mathlib.Core.Path.{subst}
use hltos.Base.Run.{ok, ◌>>=◌}
use hltos.Kstring.{
  Buffer, Kstring, empty_string, first_bytes, copy_at, ensure_capacity, append, copy,
}
use hltos.Kstring.Memory.{Live, Holds, first_bytes_border, copy_at_border, split_at}
use hltos.Kstring.Growth.{IsFresh, Grown, ensure_capacity-Holds}
use hltos.Kstring.Edits.{Becomes, Holds-size, border_next, empty_text}

module _ (fresh : ℕ → List ℕ) (allocates : IsFresh fresh) where
  -- The bytes of another string, with its terminating zero.
  source_of :
      (other : Kstring) (text : List ℕ)
      → Holds other text
      → 0 < length text
      → first_bytes other.buffer (other.size + 1) ≡ ok (text ++ 0 ∷ [])
  source_of other text (inl (rest, l)) some =
      ap (λ b. first_bytes b (other.size + 1)) (l.buffer ∙ ap Buffer.live (border_next text rest 0))
      ∙ first_bytes_border (text ++ 0 ∷ []) rest (other.size + 1)
          (omega (arith, l.size, length-append text (0 ∷ [])))
  source_of other text (inr (b, n, c, e)) some = absurd (omega (arith, some, ap length e))

  -- A copy of a text and its zero behind what a grown buffer holds.
  append_steps :
      (g : Kstring) (text rest source : List ℕ) (i : ℕ) (n : ℕ → ℕ)
      → Live g text rest
      → length source + 1 ≤ length rest
      → i ≡ length text
      → n g.size ≡ length text + length source
      → Becomes
          (copy_at g i (source ++ 0 ∷ []) >>= λ t. ok (record t { size = n t.size }))
          (text ++ source)
  append_steps g text rest source i n l room at size =
      let len = length-append source (0 ∷ []) in
      let (old, back, e, o) = split_at (length source + 1) rest (omega (arith, room)) in
      let copied =
        copy_at_border g text old back (source ++ 0 ∷ []) i
          (l.buffer
            ∙ ap (λ r. Buffer.live (text ++ r)) e
            ∙ ap Buffer.live (sym (append_assoc text old back)))
          at (omega (arith, len, o)) in
      (
        record g { buffer = Buffer.live (text ++ (source ++ 0 ∷ []) ++ back); size = n g.size },
        rw copied refl,
        inl (
          back,
          record {
            buffer = ap Buffer.live (
                append_assoc text (source ++ 0 ∷ []) back
                ∙ ap (λ u. text ++ u) (append_assoc source (0 ∷ []) back)
                ∙ sym (append_assoc text source (0 ∷ back)));
            size = omega (arith, size, length-append text source);
            capacity = omega (
              arith,
              l.capacity,
              ap length e,
              length-append old back,
              o,
              length-append text source,
            );
          },
        ),
      )

  -- `append` from the grown string on.
  appended :
      (s other g : Kstring) (text rest source : List ℕ)
      → first_bytes other.buffer (other.size + 1) ≡ ok (source ++ 0 ∷ [])
      → ensure_capacity fresh s (s.size + other.size + 1) ≡ ok g
      → (other.size == 0) ≡ false
      → Live g text rest
      → other.size ≡ length source
      → length source + 1 ≤ length rest
      → Becomes (append fresh s other) (text ++ source)
  unfolding append
  appended s other g text rest source bytes e some l size room =
      simp (some, e, bytes)
        (append_steps g text rest source g.size (λ k. k + other.size) l room l.size
          (omega (arith, l.size, size)))

  pub append-Becomes :
      (s other : Kstring) (text source : List ℕ)
      → Holds s text
      → Holds other source
      → length text + length source < 2 ^ 61
      → Becomes (append fresh s other) (text ++ source)
  unfolding append
  append-Becomes s other text source h ho small = elim (Bool-cases (other.size == 0)) [
    | inl none_left ↦
        let nothing : source ≡ [] =
          empty_text source (ground (arith, none_left, Holds-size other source ho)) in
        rw none_left
          (s, refl, subst (Holds s) (sym (ap (λ u. text ++ u) nothing ∙ append-nil text)) h)
    | inr some ↦
        grown some (source_of other source ho (ground (arith, some, Holds-size other source ho))) (
          ensure_capacity-Holds fresh allocates s text (s.size + other.size + 1) h (omega arith)
            (omega (arith, Holds-size s text h, Holds-size other source ho, small)))
  ]
    where
      grown :
          (other.size == 0) ≡ false
          → first_bytes other.buffer (other.size + 1) ≡ ok (source ++ 0 ∷ [])
          → Grown s text
              (s.size + other.size + 1)
              (ensure_capacity fresh s (s.size + other.size + 1))
          → Becomes (append fresh s other) (text ++ source)
      grown some bytes (g, rest, e, l, room) =
          appended s other g text rest source bytes e some l (Holds-size other source ho)
            (omega (arith, l.capacity, room, Holds-size s text h, Holds-size other source ho))

  -- A copy holds the same text.
  pub copy-Becomes :
      (other : Kstring) (source : List ℕ)
      → Holds other source
      → length source < 2 ^ 61
      → Becomes (copy fresh other) source
  unfolding copy
  copy-Becomes other source h small = elim (Bool-cases (other.size == 0)) [
    | inl none_left ↦
        let nothing : source ≡ [] =
          empty_text source (ground (arith, none_left, Holds-size other source h)) in
        rw none_left (empty_string, refl, inr (refl, refl, refl, nothing))
    | inr some ↦
        grown some (source_of other source h (ground (arith, some, Holds-size other source h))) (
          ensure_capacity-Holds fresh allocates empty_string [] (other.size + 1)
            (inr (refl, refl, refl, refl)) (omega arith)
            (omega (arith, Holds-size other source h, small)))
  ]
    where
      grown :
          (other.size == 0) ≡ false
          → first_bytes other.buffer (other.size + 1) ≡ ok (source ++ 0 ∷ [])
          → Grown empty_string []
              (other.size + 1)
              (ensure_capacity fresh empty_string (other.size + 1))
          → Becomes (copy fresh other) source
      grown some bytes (g, rest, e, l, room) =
          simp (some, e, bytes)
            (append_steps g [] rest source 0 (λ k. other.size) l
              (omega (arith, l.capacity, room, Holds-size other source h)) refl
              (omega (arith, Holds-size other source h)))
