-- ===== src/Pmm/Bitmap.antt =====
-- One frame's bit under the operations of pmm.cpp on the bitmap.
use Prim.Native.Nat.{bit_and, bit_or}
use hltos.Base.{
  ℕ, zero, suc, ◌-◌, ◌*◌, ◌/◌, ◌%◌, ◌^◌, ◌<◌, ◌≡◌, refl, ap, ◌∙◌, some, replicate, List, [], ◌∷◌,
  arith, ◌==◌, if◌then◌else◌, length, length-replicate, get_elem?, get_or, set, length-set,
  get_or-set, add64, sub64, Bool-cases, inl, inr,
}
use hltos.Base.Bits.{
  test_bit, test_bit_bound, test_bit-bit_and, test_bit-bit_or, test_bit-pow, test_bit-complement,
  bit_and-pow_zero, test_bit-ones, pow_lt,
}
use hltos.Base.Run.{ok}
use hltos.Pmm.{
  Pmm, frame_mask, frame_bitmap_size, is_frame_free, set_frame_used, set_frame_free, init,
}

-- 1 if the frame is marked as used, 0 if it is free.
unfoldable pub frame_bit : Pmm → ℕ → ℕ
frame_bit p frame = test_bit (get_or p.frame_bitmap (frame / 64) 0) (frame % 64)

-- The frame has a bit in the array.
abbrev pub HasBit : Pmm → ℕ → Type 0
HasBit p frame = frame / 64 < length p.frame_bitmap

pub get_elem?-get_or : (ws : List ℕ) (i : ℕ) → i < length ws → get_elem? ws i ≡ some (get_or ws i 0)
get_elem?-get_or [] i h = absurd (omega arith)
get_elem?-get_or (w ∷ ws) zero h = refl
get_elem?-get_or (w ∷ ws) (suc i) h = get_elem?-get_or ws i (omega arith)

-- `q` is `p` with the bit of one frame set to `bit`.
pub record Marks (p q : Pmm) (frame bit : ℕ) : Type 0 where
  pub size : length q.frame_bitmap ≡ length p.frame_bitmap
  pub bits : (g : ℕ) → frame_bit q g ≡ (if frame == g then bit else frame_bit p g)
  pub start : q.frame_bitmap_start ≡ p.frame_bitmap_start
  pub end : q.frame_bitmap_end ≡ p.frame_bitmap_end

module _ (p : Pmm) (frame : ℕ) (h : HasBit p frame) where
  abbrev word : ℕ
  word = get_or p.frame_bitmap (frame / 64) 0

  -- A word that differs from the frame's in that one bit.
  Marks-set :
      (w bit free : ℕ)
      → ((k : ℕ) → k < 64 → test_bit w k ≡ (if frame % 64 == k then bit else test_bit word k))
      → Marks p
          (record p { frame_bitmap = set p.frame_bitmap (frame / 64) w; free_frames = free })
          frame
          bit
  unfolding frame_bit
  Marks-set w bit free agree = record {
    size = length-set p.frame_bitmap (frame / 64) w;
    bits = λ g.
        rw (get_or-set p.frame_bitmap (frame / 64) (g / 64) w 0 h)
          (elim (Bool-cases (frame / 64 == g / 64)) [
            | inl e ↦
                let same : frame / 64 ≡ g / 64 = ground arith in
                let words = ap (λ i. test_bit (get_or p.frame_bitmap i 0) (g % 64)) same in
                rw e (ground (arith, agree (g % 64), words))
            | inr e ↦ rw e (ground arith)
          ]);
    start = refl;
    end = refl;
  }

  pub is_frame_free-bit : is_frame_free p frame ≡ ok (frame_bit p frame == 0)
  unfolding is_frame_free frame_bit
  is_frame_free-bit =
      rw (get_elem?-get_or p.frame_bitmap (frame / 64) h)
        (ap ok (bit_and-pow_zero word (frame % 64)))

  -- Marking a frame as used sets its bit and no other; `free_frames` goes down by one.
  pub set_frame_used-Marks :
      (q : Pmm) × (set_frame_used p frame ≡ ok q)
      × Marks p q frame 1
      × (q.free_frames ≡ sub64 p.free_frames 1)
  unfolding set_frame_used
  set_frame_used-Marks = (
    _,
    rw (get_elem?-get_or p.frame_bitmap (frame / 64) h) refl,
    Marks-set (bit_or word (frame_mask frame)) 1 (sub64 p.free_frames 1) λ k lt. ground (
      arith,
      test_bit-bit_or word (frame_mask frame) k,
      test_bit-pow (frame % 64) k,
      test_bit_bound word k,
    ),
    refl,
  )

  -- Marking a frame as free clears its bit and no other; `free_frames` goes up by one.
  pub set_frame_free-Marks :
      (q : Pmm) × (set_frame_free p frame ≡ ok q)
      × Marks p q frame 0
      × (q.free_frames ≡ add64 p.free_frames 1)
  unfolding set_frame_free
  set_frame_free-Marks = (
    _,
    rw (get_elem?-get_or p.frame_bitmap (frame / 64) h) refl,
    Marks-set (bit_and word (2 ^ 64 - 1 - frame_mask frame)) 0 (add64 p.free_frames 1) λ k lt.
        ground (
          arith,
          test_bit-bit_and word (2 ^ 64 - 1 - frame_mask frame) k,
          test_bit-complement 64 (frame_mask frame) k (pow_lt (frame % 64) 64 (omega arith)) lt,
          test_bit-pow (frame % 64) k,
          test_bit_bound word k,
        ),
    refl,
  )

pub frame_bit_bound : (p : Pmm) (frame : ℕ) → frame_bit p frame < 2
unfolding frame_bit
frame_bit_bound p frame = test_bit_bound (get_or p.frame_bitmap (frame / 64) 0) (frame % 64)

-- The bits of the frames are those of the bitmap.
pub frame_bit-congr :
    (p q : Pmm) (g : ℕ) → p.frame_bitmap ≡ q.frame_bitmap → frame_bit p g ≡ frame_bit q g
unfolding frame_bit
frame_bit-congr p q g e = ap (λ ws. test_bit (get_or ws (g / 64) 0) (g % 64)) e

get_or-replicate : (n w i : ℕ) → i < n → get_or (replicate n w) i 0 ≡ w
get_or-replicate zero w i h = absurd (omega arith)
get_or-replicate (suc n) w zero h = refl
get_or-replicate (suc n) w (suc i) h = get_or-replicate n w i (omega arith)

-- After `init` the bitmap covers all frames, every frame is used and nothing is counted.
pub init-bits :
    (p : Pmm)
    → (length (init p).frame_bitmap ≡ frame_bitmap_size)
      × ((g : ℕ) → g < 64 * frame_bitmap_size → frame_bit (init p) g ≡ 1)
      × ((init p).free_frames ≡ 0)
      × ((init p).total_frames ≡ 0)
unfolding init frame_bit
init-bits p = (
  length-replicate frame_bitmap_size (2 ^ 64 - 1),
  (λ g h.
      ap (λ w. test_bit w (g % 64))
        (get_or-replicate frame_bitmap_size (2 ^ 64 - 1) (g / 64) (omega arith))
      ∙ test_bit-ones 64 (g % 64) (omega arith)),
  refl,
  refl,
)
