-- ===== src/Tmpfs/Write.antt =====
-- What `write` of src/kernel/lib/fs/tmpfs/tmpfs.cpp leaves in the file.
use hltos.Base.{
  ◌⊎◌, inl, ℕ, zero, suc, ◌+◌, ◌-◌, ◌≤◌, ◌<◌, ◌≡◌, refl, ap, ◌∙◌, true, List, [], ◌∷◌, arith, ltb,
  leb, lt→ltb, if◌then◌else◌, length, get_or, set, replicate, add64, u64_mod, length-set,
  length-append, length-replicate, get_or-set, get_or-padded,
}
use hltos.Base.Int.{signed32}
use hltos.Base.Run.{Run, ok}
use hltos.Tmpfs.{File, resize, write_loop, write}

-- The contents after `bytes` were written over `contents` at an offset; what lies between the end and the
-- offset is zero.
pub record Overwritten (contents : List ℕ) (offset : ℕ) (bytes contents' : List ℕ) : Type 0 where
  pub inside : (i : ℕ) → i < length bytes → get_or contents' (offset + i) 0 ≡ get_or bytes i 0
  pub outside :
      (i : ℕ)
      → (ltb i offset ≡ true) ⊎ (leb (offset + length bytes) i ≡ true)
      → get_or contents' i 0 ≡ get_or contents i 0

write_loop-cons :
    (contents : List ℕ) (offset b : ℕ) (buff : List ℕ) (r : Run (List ℕ × ℕ))
    → ltb offset (length contents) ≡ true
    → add64 offset 1 ≡ offset + 1
    → write_loop (set contents offset b) (offset + 1) buff ≡ r
    → write_loop contents offset (b ∷ buff) ≡ r
unfolding write_loop
write_loop-cons contents offset b buff r room step e = rw (room, step, e) refl

inside_cons :
    (contents : List ℕ) (offset b : ℕ) (buff contents' : List ℕ)
    → Overwritten (set contents offset b) (offset + 1) buff contents'
    → (i : ℕ) → i < length (b ∷ buff)
    → offset < length contents
    → get_or contents' (offset + i) 0 ≡ get_or (b ∷ buff) i 0
inside_cons contents offset b buff contents' o zero p h =
    ap (λ n. get_or contents' n 0) (omega arith)
    ∙ o.outside offset (inl (ground arith))
    ∙ get_or-set contents offset offset b 0 h
    ∙ ground arith
inside_cons contents offset b buff contents' o (suc i) p h =
    ap (λ n. get_or contents' n 0) (omega arith) ∙ o.inside i (omega (arith, p))

write_loop-Overwritten :
    (contents : List ℕ) (offset : ℕ) (buff : List ℕ)
    → offset + length buff ≤ length contents
    → offset + length buff < u64_mod
    → (contents' : List ℕ) × (write_loop contents offset buff
        ≡ ok (contents', offset + length buff))
      × (length contents' ≡ length contents)
      × Overwritten contents offset buff contents'
unfolding write_loop
write_loop-Overwritten contents offset [] h w = (
  contents,
  ap (λ n. ok (contents, n)) (omega arith),
  refl,
  record { inside = λ i p. absurd (omega arith); outside = λ i p. refl },
)
write_loop-Overwritten contents offset (b ∷ buff) h w =
    let step : add64 offset 1 ≡ offset + 1 = omega arith in
    let (contents', e, size, o) =
      write_loop-Overwritten (set contents offset b) (offset + 1) buff
        (omega (arith, length-set contents offset b, h)) (omega (arith, w)) in
    let sum : offset + 1 + length buff ≡ offset + length (b ∷ buff) = omega arith in
    let room : ltb offset (length contents) ≡ true =
      lt→ltb offset (length contents) (omega (arith, h)) in
    (
      contents',
      write_loop-cons contents offset b buff _ room step (e ∙ ap (λ n. ok (contents', n)) sum),
      size ∙ length-set contents offset b,
      record {
        inside = λ i p. inside_cons contents offset b buff contents' o i p (omega (arith, h));
        outside = λ i p.
            o.outside i (ground (arith, p))
            ∙ get_or-set contents offset i b 0 (omega (arith, h))
            ∙ ground (arith, p);
      },
    )

length-resize : (contents : List ℕ) (n : ℕ) → n ≤ length (resize contents n)
unfolding resize
length-resize contents n = omega (
  arith,
  length-append contents (replicate (n - length contents) 0),
  length-replicate {A = ℕ} (n - length contents) 0,
)

-- A write whose end is a word never leaves the vector: it returns the number of bytes, as an `int`, stores
-- them at the offset and moves the offset behind them; every other byte stays, a gap reads as zero,
-- and the file ends where it ended or behind the bytes, whichever is later.
pub write-Overwritten :
    (f : File) (offset : ℕ) (buff : List ℕ)
    → offset + length buff < u64_mod
    → (f' : File) × (write f offset buff ≡ ok (signed32 (length buff), f', offset + length buff))
      × (length f'.contents ≡ (
          if leb (length f.contents) (offset + length buff)
          then offset + length buff
          else length f.contents))
      × (f'.size ≡ length f'.contents)
      × Overwritten f.contents offset buff f'.contents
unfolding write resize
write-Overwritten f offset buff w =
    let end : add64 offset (length buff) ≡ offset + length buff = omega (arith, w) in
    let padded = resize f.contents (offset + length buff) in
    let (contents', e, size, o) =
      write_loop-Overwritten padded offset buff (length-resize f.contents (offset + length buff))
        w in
    (
      record { contents = contents'; size = length contents' },
      rw (end, e) refl,
      size
          ∙ length-append f.contents (replicate (offset + length buff - length f.contents) 0)
          ∙ ground (arith, length-replicate {A = ℕ} (offset + length buff - length f.contents) 0),
      refl,
      record {
        inside = o.inside;
        outside = λ i p.
            o.outside i p ∙ get_or-padded f.contents (offset + length buff - length f.contents) i 0;
      },
    )
