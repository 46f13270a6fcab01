-- ===== src/Pmm/Alloc.antt =====
-- `alloc_frame` and `free_frame` of pmm.cpp.
use hltos.Base.{
  ℕ, zero, suc, ◌+◌, ◌-◌, ◌*◌, ◌/◌, ◌≤◌, ◌<◌, ◌≡◌, refl, ◌∙◌, ◌⊎◌, ◌↔◌, inl, inr, arith, ◌==◌,
  if◌then◌else◌, length, sub64, Bool-cases,
}
use hltos.Base.Run.{Run, ok, panic}
use hltos.Pmm.{Pmm, frame_size, free_frame, alloc_loop, alloc_frame}
use hltos.Pmm.Bitmap.{
  frame_bit, HasBit, is_frame_free-bit, set_frame_used-Marks, set_frame_free-Marks, frame_bit_bound,
  frame_bit-congr,
}

-- Every frame that the search looks at has a bit.
abbrev pub IsValid : Pmm → Type 0
IsValid p = p.frame_bitmap_end ≤ 64 * length p.frame_bitmap

-- The frame at `addr` is the first free one from `lo` on: it was free, no frame between `lo` and it
-- was; it is used now, and every other frame is as before. The next search starts behind it.
pub record Allocated (p : Pmm) (lo : ℕ) (q : Pmm) (addr : ℕ) : Type 0 where
  pub frame : ℕ
  pub address : addr ≡ frame * frame_size
  pub above : lo ≤ frame
  pub below : frame < p.frame_bitmap_end
  pub was_free : frame_bit p frame ≡ 0
  pub first : (g : ℕ) → lo ≤ g → g < frame → frame_bit p g ≡ 1
  pub bits : (g : ℕ) → frame_bit q g ≡ (if frame == g then 1 else frame_bit p g)
  pub start : q.frame_bitmap_start ≡ frame + 1
  pub end : q.frame_bitmap_end ≡ p.frame_bitmap_end
  pub size : length q.frame_bitmap ≡ length p.frame_bitmap
  pub counted : q.free_frames ≡ sub64 p.free_frames 1

-- Either a frame is allocated, or all frames from `lo` on are used and the kernel panics.
abbrev pub AllocOutcome : Pmm → ℕ → Run (Pmm × ℕ) → Type 0
AllocOutcome p lo r =
    ((q : Pmm) × (addr : ℕ) × (r ≡ ok (q, addr)) × Allocated p lo q addr)
    ⊎ (r ≡ panic) × ((g : ℕ) → lo ≤ g → g < p.frame_bitmap_end → frame_bit p g ≡ 1)

AllocOutcome-skip :
    (p : Pmm) (frame : ℕ) (r : Run (Pmm × ℕ))
    → frame_bit p frame ≡ 1
    → AllocOutcome p (frame + 1) r
    → AllocOutcome p frame r
AllocOutcome-skip p frame r used (inl (q, addr, e, a)) = inl (
  q,
  addr,
  e,
  record {
    frame = a.frame;
    address = a.address;
    above = omega (arith, a.above);
    below = a.below;
    was_free = a.was_free;
    first = λ g h1 h2. skip_first g h1 h2;
    bits = a.bits;
    start = a.start;
    end = a.end;
    size = a.size;
    counted = a.counted;
  },
)
  where
    skip_first : (g : ℕ) → frame ≤ g → g < a.frame → frame_bit p g ≡ 1
    skip_first g h1 h2 = ground (arith, a.first g)
AllocOutcome-skip p frame r used (inr (e, all_used)) =
    inr (e, (λ g h1 h2. ground (arith, all_used g)))

alloc_loop-AllocOutcome :
    (rounds frame : ℕ) (p : Pmm)
    → IsValid p
    → rounds ≡ p.frame_bitmap_end - frame
    → AllocOutcome p frame (alloc_loop rounds frame p)
unfolding alloc_loop
alloc_loop-AllocOutcome zero frame p v e = inr (refl, (λ g h1 h2. absurd (omega arith)))
alloc_loop-AllocOutcome (suc rounds) frame p v e =
    let in_range : HasBit p frame = omega arith in
    let look = is_frame_free-bit p frame in_range in
    elim (Bool-cases (frame_bit p frame == 0)) [
      | inl free ↦
          let (taken, taken_ok, m, counted) = set_frame_used-Marks p frame in_range in
          inl (
            record taken { frame_bitmap_start = frame + 1 },
            frame * frame_size,
            rw (look, free, taken_ok) refl,
            record {
              frame = frame;
              address = refl;
              above = omega arith;
              below = omega arith;
              was_free = ground arith;
              first = λ g h1 h2. absurd (omega arith);
              bits = λ g. frame_bit-congr _ taken g refl ∙ m.bits g;
              start = refl;
              end = m.end;
              size = m.size;
              counted = counted;
            },
          )
      | inr used ↦
          let used_bit : frame_bit p frame ≡ 1 = ground (arith, frame_bit_bound p frame) in
          rw (look, used)
            (AllocOutcome-skip p frame _ used_bit
              (alloc_loop-AllocOutcome rounds (frame + 1) p v (omega arith)))
    ]

-- On a bitmap that covers the search range, `alloc_frame` takes the first free frame of the range,
-- and panics only if every frame of it is used.
pub alloc_frame-AllocOutcome :
    (p : Pmm) → IsValid p → AllocOutcome p p.frame_bitmap_start (alloc_frame p)
unfolding alloc_frame
alloc_frame-AllocOutcome p v =
    alloc_loop-AllocOutcome (p.frame_bitmap_end - p.frame_bitmap_start) p.frame_bitmap_start p v
      refl

-- Every frame of the search range is used.
abbrev pub IsExhausted : Pmm → Type 0
IsExhausted p = (g : ℕ) → p.frame_bitmap_start ≤ g → g < p.frame_bitmap_end → frame_bit p g ≡ 1

-- On a bitmap that covers the search range, `alloc_frame` panics exactly when no frame of the range is
-- free.
pub alloc_frame-panic : (p : Pmm) → IsValid p → (alloc_frame p ≡ panic) ↔ IsExhausted p
alloc_frame-panic p v = elim (alloc_frame-AllocOutcome p v) [
  | inl (q, addr, e, a) ↦
      ((λ out. cc), (λ used. absurd (omega (arith, a.was_free, used a.frame a.above a.below))))
  | inr (e, used) ↦ ((λ out. used), (λ u. e))
]

-- On a bitmap that covers the search range, a frame below the range that `free_frame` gives back is
-- not found again: an allocator that has run out stays so.
pub free_frame-alloc_frame :
    (p : Pmm) (frame : ℕ)
    → IsValid p
    → frame < p.frame_bitmap_start
    → HasBit p frame
    → alloc_frame p ≡ panic
    → (q : Pmm) × (free_frame p (frame * frame_size) ≡ ok q)
      × (frame_bit q frame ≡ 0)
      × (alloc_frame q ≡ panic)
unfolding free_frame
free_frame-alloc_frame p frame v below h out =
    let (q, freed, m, counted) = set_frame_free-Marks p frame h in
    let index : frame * frame_size / frame_size ≡ frame = omega arith in
    (
      q,
      rw index freed,
      ground (arith, m.bits frame),
      (alloc_frame-panic q (omega (arith, m.size, m.end))).1
          λ g h1 h2. ground (arith, m.bits g, m.start, m.end, (alloc_frame-panic p v).0 out g),
    )
