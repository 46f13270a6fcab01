-- ===== src/Tmpfs/Seek.antt =====
-- The offsets that `lseek` of src/kernel/lib/fs/tmpfs/tmpfs.cpp sets.
use hltos.Base.{
  ℕ, ◌<◌, ◌≡◌, refl, ap, false, Option, none, some, arith, ◌==◌, ltb, if◌then◌else◌, add64,
  Bool-cases, inl, inr,
}
use hltos.Base.Int.{ℤ, pos, negsuc, ◌+ℤ◌, is_negative, signed64, word64}
use hltos.Tmpfs.{File, lseek, invalid}

-- What an offset is counted from, if `whence` is one of the three constants.
abbrev pub base : File → ℕ → ℕ → Option ℕ
base f fd_offset whence =
    if whence == 0
    then some 0
    else if whence == 1
    then some fd_offset
    else if whence == 2
    then some f.size
    else none

-- The natural number behind an integer, if it is not negative.
abbrev pub natural : ℤ → Option ℕ
natural (pos n) = some n
natural (negsuc n) = none

-- The range of `int`.
abbrev pub IsInt : ℤ → Type 0
IsInt (pos n) = n < 2147483648
IsInt (negsuc n) = n < 2147483648

-- The result and the new offset for a position, if there is one.
abbrev pub answer : Option ℕ → ℕ → ℤ × ℕ
answer none old = (invalid, old)
answer (some n) old = (pos 0, n)

signed64-small : (b : ℕ) → b < 9223372036854775808 → signed64 b ≡ pos b
signed64-small b h = ground (arith, h)

never : (n : ℕ) → ltb n 0 ≡ false
never n = ground arith

moved :
    (b : ℕ) (offset : ℤ) (old : ℕ)
    → b < 9223372036854775808
    → IsInt offset
    → (if is_negative (pos b +ℤ offset) then (invalid, old) else (pos 0, add64 b (word64 offset)))
      ≡ answer (natural (pos b +ℤ offset)) old
moved b (pos n) old h t = ap (λ m. (pos 0, m)) (omega (arith, h, t))
moved b (negsuc n) old h t = elim (Bool-cases (ltb n b)) [
  | inl e ↦ rw e (ap (λ m. (pos 0, m)) (ground (arith, h, t, e)))
  | inr e ↦ rw e refl
]

-- Where `whence` asks to go: nowhere if it is unknown or the sum is negative.
abbrev pub target : File → ℕ → ℤ → ℕ → Option ℕ
target f fd_offset offset whence = elim (base f fd_offset whence) [
  | none ↦ none
  | some b ↦ natural (pos b +ℤ offset)
]

-- For a file and an offset below 2 ^ 63 and an `int`, `lseek` goes to the sum of the base and the
-- offset, as integers, and returns 0; it returns `-EINVAL` and leaves the offset alone if the sum is
-- negative or `whence` is none of the three constants.
pub lseek-answer :
    (f : File) (fd_offset : ℕ) (offset : ℤ) (whence : ℕ)
    → fd_offset < 9223372036854775808
    → f.size < 9223372036854775808
    → IsInt offset
    → lseek f fd_offset offset whence ≡ answer (target f fd_offset offset whence) fd_offset
unfolding lseek
lseek-answer f fd_offset offset whence h h' t = elim (Bool-cases (whence == 0)) [
  | inl e ↦ rw (target, base, e) (from_start offset t)
  | inr e ↦ elim (Bool-cases (whence == 1)) [
    | inl e' ↦
        rw (target, base, e, e', signed64-small fd_offset h) (moved fd_offset offset fd_offset h t)
    | inr e' ↦ elim (Bool-cases (whence == 2)) [
      | inl e'' ↦
          rw (target, base, e, e', e'', signed64-small f.size h')
            (moved f.size offset fd_offset h' t)
      | inr e'' ↦ rw (target, base, e, e', e'') refl
    ]
  ]
]
  where
    from_start :
        (d : ℤ)
        → IsInt d
        → (if is_negative d then (invalid, fd_offset) else (pos 0, word64 d))
          ≡ answer (natural (pos 0 +ℤ d)) fd_offset
    from_start (pos n) p = ap (λ m. (pos 0, m)) (omega (arith, p))
    from_start (negsuc n) p = rw (never n) refl
