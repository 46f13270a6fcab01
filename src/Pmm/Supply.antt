-- ===== src/Pmm/Supply.antt =====
-- How many frames `alloc_frame` of pmm.cpp can still hand out.
use hltos.Base.{
  ℕ, zero, suc, ◌+◌, ◌-◌, ◌≤◌, ◌<◌, ◌≡◌, refl, ap, ◌∙◌, inl, inr, arith, ◌==◌, one, Bool-cases,
}
use hltos.Base.Run.{ok}
use hltos.Pmm.{Pmm, alloc_frame}
use hltos.Pmm.Bitmap.{frame_bit}
use hltos.Pmm.Alloc.{IsValid, Allocated, alloc_frame-AllocOutcome}

-- The free frames among the next ones.
unfoldable pub free_among : Pmm → ℕ → ℕ → ℕ
free_among p lo zero = 0
free_among p lo (suc rounds) = one (frame_bit p lo == 0) + free_among p (lo + 1) rounds

-- The free frames of the search range.
unfoldable pub supply : Pmm → ℕ
supply p = free_among p p.frame_bitmap_start (p.frame_bitmap_end - p.frame_bitmap_start)

free_among-congr :
    (p q : Pmm) (lo rounds : ℕ)
    → ((g : ℕ) → lo ≤ g → frame_bit q g ≡ frame_bit p g)
    → free_among q lo rounds ≡ free_among p lo rounds
unfolding free_among
free_among-congr p q lo zero h = refl
free_among-congr p q lo (suc rounds) h =
    let here = h lo (omega arith) in
    let later = free_among-congr p q (lo + 1) rounds (λ g b. h g (omega arith)) in
    rw (here, later) refl

free_among-none :
    (p : Pmm) (lo rounds : ℕ)
    → ((g : ℕ) → lo ≤ g → g < lo + rounds → frame_bit p g ≡ 1)
    → free_among p lo rounds ≡ 0
unfolding free_among
free_among-none p lo zero h = refl
free_among-none p lo (suc rounds) h =
    let later = free_among-none p (lo + 1) rounds (λ g b1 b2. h g (omega arith) (omega arith)) in
    rw (h lo (omega arith) (omega arith), later) refl

-- The first free frame is counted, and those behind it.
free_among-first :
    (p : Pmm) (lo rounds frame : ℕ)
    → lo ≤ frame
    → frame < lo + rounds
    → frame_bit p frame ≡ 0
    → ((g : ℕ) → lo ≤ g → g < frame → frame_bit p g ≡ 1)
    → free_among p lo rounds ≡ 1 + free_among p (frame + 1) (lo + rounds - (frame + 1))
unfolding free_among
free_among-first p lo zero frame h1 h2 free first = absurd (omega arith)
free_among-first p lo (suc rounds) frame h1 h2 free first = elim (Bool-cases (lo == frame)) [
  | inl here ↦
      let same : lo ≡ frame = ground (arith, here) in
      let bit : frame_bit p lo ≡ 0 = ap (frame_bit p) same ∙ free in
      let left : lo + suc rounds - (frame + 1) ≡ rounds = omega (arith, same) in
      rw (bit, left) (ap (λ g. 1 + free_among p (g + 1) rounds) same)
  | inr skip ↦
      let below : lo < frame = ground (arith, skip) in
      let bit : frame_bit p lo ≡ 1 = first lo (omega arith) below in
      let left : lo + 1 + rounds - (frame + 1) ≡ lo + suc rounds - (frame + 1) = omega arith in
      let later =
        free_among-first p (lo + 1) rounds frame (omega arith) (omega arith) free
          (λ g b1 b2. first g (omega arith) b2) in
      rw bit (omega (arith, later, ap (free_among p (frame + 1)) left))
]

-- A call that finds a frame leaves one fewer.
pub supply-Allocated :
    (p : Pmm) (q : Pmm) (addr : ℕ)
    → Allocated p p.frame_bitmap_start q addr
    → supply p ≡ suc (supply q)
unfolding supply
supply-Allocated p q addr a =
    let count = p.frame_bitmap_end - p.frame_bitmap_start in
    let left : p.frame_bitmap_start + count - (a.frame + 1)
        ≡ q.frame_bitmap_end - q.frame_bitmap_start =
      omega (arith, a.start, a.end, a.above, a.below) in
    let counted =
      free_among-first p p.frame_bitmap_start count a.frame a.above
        (omega (arith, a.above, a.below)) a.was_free a.first in
    let later =
      free_among-congr p q (a.frame + 1) (q.frame_bitmap_end - q.frame_bitmap_start)
        (λ g b. ground (arith, a.bits g)) in
    omega (
      arith,
      counted,
      ap (free_among p (a.frame + 1)) left,
      later,
      ap (λ s. free_among q s (q.frame_bitmap_end - q.frame_bitmap_start)) a.start,
    )

-- While a frame is left, `alloc_frame` hands one out.
pub alloc_frame-supply :
    (p : Pmm)
    → IsValid p
    → 0 < supply p
    → (q : Pmm) × (addr : ℕ) × (alloc_frame p ≡ ok (q, addr))
      × Allocated p p.frame_bitmap_start q addr
unfolding supply
alloc_frame-supply p v h = elim (alloc_frame-AllocOutcome p v) [
  | inl found ↦ found
  | inr (out, used) ↦ absurd (
      omega (
        arith,
        h,
        free_among-none p p.frame_bitmap_start (p.frame_bitmap_end - p.frame_bitmap_start)
            (λ g b1 b2. used g b1 (omega arith)),
      ))
]
