-- ===== src/Tmpfs/Read.antt =====
-- What `read` of src/kernel/lib/fs/tmpfs/tmpfs.cpp answers, also after a `write`.
use hltos.Base.{
  ℕ, zero, suc, ◌+◌, ◌-◌, ◌≤◌, ◌<◌, ◌≡◌, refl, sym, ap, ◌∙◌, List, [], ◌∷◌, arith, ltb, leb, length,
  get_or, take, drop, drop-get_or, u64_mod, Bool-cases, inl, inr,
}
use hltos.Base.Int.{pos, signed32}
use hltos.Base.Run.{ok}
use hltos.Tmpfs.{File, read, read_loop, write}
use hltos.Tmpfs.Write.{write-Overwritten}

read_loop-take :
    (contents : List ℕ) (offset n : ℕ)
    → offset + n ≤ length contents
    → read_loop contents offset n ≡ (take n (drop offset contents), offset + n)
unfolding read_loop
read_loop-take contents offset zero h = ap (λ n. ([], n)) (omega arith)
read_loop-take contents offset (suc n) h =
    let step : offset + 1 ≡ suc offset = omega arith in
    let sum : suc offset + n ≡ offset + suc n = omega arith in
    rw
      (
        step,
        read_loop-take contents (suc offset) n (omega (arith, h)),
        drop-get_or contents offset 0 (omega (arith, h)),
        sum,
      )
      refl

length-take-drop :
    (contents : List ℕ) (offset n : ℕ)
    → offset + n ≤ length contents
    → length (take n (drop offset contents)) ≡ n
length-take-drop contents offset zero h = refl
length-take-drop contents offset (suc n) h =
    rw (drop-get_or contents offset 0 (omega (arith, h)))
      (ap suc (length-take-drop contents (suc offset) n (omega (arith, h))))

take-nil : (n : ℕ) → take {A = ℕ} n [] ≡ []
take-nil zero = refl
take-nil (suc n) = refl

drop-nil : (n : ℕ) → drop {A = ℕ} n [] ≡ []
drop-nil zero = refl
drop-nil (suc n) = refl

-- More bytes than there are, and an offset behind the end.
take-short :
    (contents : List ℕ) (offset n m : ℕ)
    → length contents ≤ offset + n
    → length contents ≤ offset + m
    → take n (drop offset contents) ≡ take m (drop offset contents)
take-short [] offset n m h h' =
    ap (take n) (drop-nil offset) ∙ take-nil n ∙ sym (ap (take m) (drop-nil offset) ∙ take-nil m)
take-short (x ∷ contents) zero zero m h h' = absurd (omega (arith, h))
take-short (x ∷ contents) zero (suc n) zero h h' = absurd (omega (arith, h'))
take-short (x ∷ contents) zero (suc n) (suc m) h h' =
    ap (λ xs. x ∷ xs) (take-short contents zero n m (omega (arith, h)) (omega (arith, h')))
take-short (x ∷ contents) (suc offset) n m h h' =
    take-short contents offset n m (omega (arith, h)) (omega (arith, h'))

drop-behind :
    (contents : List ℕ) (offset n : ℕ)
    → length contents ≤ offset
    → take n (drop offset contents) ≡ []
drop-behind [] offset n h = ap (take n) (drop-nil offset) ∙ take-nil n
drop-behind (x ∷ contents) zero n h = absurd (omega (arith, h))
drop-behind (x ∷ contents) (suc offset) n h = drop-behind contents offset n (omega (arith, h))

-- The bytes that lie at the offset, `count` of them or as many as there are.
abbrev pub bytes_at : File → ℕ → ℕ → List ℕ
bytes_at f offset count = take count (drop offset f.contents)

-- `read` copies the bytes at the offset, `count` of them or as many as there are, none behind the
-- end of the file; it returns their number, as an `int`, and moves the offset behind them.
pub read-bytes :
    (f : File) (offset count : ℕ)
    → read f offset count ≡ (
      signed32 (length (bytes_at f offset count)),
      bytes_at f offset count,
      offset + length (bytes_at f offset count),
    )
unfolding read
read-bytes f offset count = elim (Bool-cases (leb (length f.contents) offset)) [
  | inl e ↦
      rw (e, drop-behind f.contents offset count (ground (arith, e)))
        (ap (λ n. (pos 0, [], n)) (omega arith))
  | inr e ↦ elim (Bool-cases (ltb count (length f.contents - offset))) [
    | inl short ↦
        let h : offset + count ≤ length f.contents = ground (arith, e, short) in
        rw
          (
            e,
            short,
            read_loop-take f.contents offset count h,
            length-take-drop f.contents offset count h,
          )
          refl
    | inr long ↦
        let rest = length f.contents - offset in
        let h : offset + rest ≤ length f.contents = ground (arith, e) in
        rw
          (
            e,
            long,
            take-short f.contents offset count rest (ground (arith, e, long)) (ground (arith, e)),
            read_loop-take f.contents offset rest h,
            length-take-drop f.contents offset rest h,
          )
          refl
  ]
]

take-drop-inside :
    (contents : List ℕ) (offset : ℕ) (buff : List ℕ)
    → offset + length buff ≤ length contents
    → ((i : ℕ) → i < length buff → get_or contents (offset + i) 0 ≡ get_or buff i 0)
    → take (length buff) (drop offset contents) ≡ buff
take-drop-inside contents offset [] h inside = refl
take-drop-inside contents offset (b ∷ buff) h inside =
    let first : get_or contents offset 0 ≡ b =
      ap (λ n. get_or contents n 0) (omega arith) ∙ inside 0 (omega arith) in
    let others =
      take-drop-inside contents (suc offset) buff (omega (arith, h))
        (λ i p. ap (λ n. get_or contents n 0) (omega arith) ∙ inside (suc i) (omega (arith, p))) in
    rw (drop-get_or contents offset 0 (omega (arith, h)), first, others) refl

-- A `write` whose end is a word, followed by a `read` of as many bytes at the same offset, gives the
-- bytes that were written.
pub read-write :
    (f : File) (offset : ℕ) (buff : List ℕ)
    → offset + length buff < u64_mod
    → (f' : File) × (write f offset buff ≡ ok (signed32 (length buff), f', offset + length buff))
      × (read f' offset (length buff) ≡ (signed32 (length buff), buff, offset + length buff))
read-write f offset buff w =
    let (f', e, size, _, o) = write-Overwritten f offset buff w in
    let same : bytes_at f' offset (length buff) ≡ buff =
      take-drop-inside f'.contents offset buff (ground (arith, size)) o.inside in
    (
      f',
      e,
      read-bytes f' offset (length buff)
          ∙ ap (λ b. (signed32 (length b), b, offset + length b)) same,
    )
