-- ===== src/Pmm/Region.antt =====
-- `init` and `add_free_memory` of pmm.cpp.
use hltos.Base.{
  ℕ, zero, suc, ◌+◌, ◌-◌, ◌*◌, ◌/◌, ◌%◌, ◌≤◌, ◌<◌, ◌≡◌, refl, none, List, [], ◌∷◌, arith, ◌==◌,
  true, false, leb, ltb, ◌&&◌, if◌then◌else◌, length, get_elem?, u64_mod, add64, Bool-cases, inl,
  inr,
}
use hltos.Base.Run.{ok, fault}
use hltos.Pmm.{
  Pmm, frame_size, frame_bitmap_size, max_memory_bytes, init, set_frame_free, free_range,
  set_addr_free, register_region, add_free_memory,
}
use hltos.Pmm.Bitmap.{
  frame_bit, set_frame_used-Marks, set_frame_free-Marks, frame_bit-congr, init-bits,
}

-- `q` is `p` with the frames from `lo` up to `lo + n` marked as free.
pub record Freed (p q : Pmm) (lo n : ℕ) : Type 0 where
  pub size : length q.frame_bitmap ≡ length p.frame_bitmap
  pub bits : (g : ℕ) → frame_bit q g ≡ (if leb lo g && ltb g (lo + n) then 0 else frame_bit p g)
  pub start : q.frame_bitmap_start ≡ p.frame_bitmap_start
  pub end : q.frame_bitmap_end ≡ p.frame_bitmap_end
  pub counted : q.free_frames % u64_mod ≡ (p.free_frames + n) % u64_mod

free_range-Freed :
    (n lo : ℕ) (p : Pmm)
    → lo + n ≤ 64 * length p.frame_bitmap
    → (q : Pmm) × (free_range n lo p ≡ ok q) × Freed p q lo n
unfolding free_range
free_range-Freed zero lo p h = (
  p,
  refl,
  record { size = refl; bits = λ g. ground arith; start = refl; end = refl; counted = omega arith },
)
free_range-Freed (suc n) lo p h =
    let (r, marked, m, counted) = set_frame_free-Marks p lo (omega arith) in
    let (q, freed, f) = free_range-Freed n (lo + 1) r (omega (arith, m.size)) in
    (
      q,
      rw (marked, freed) refl,
      record {
        size = omega (arith, f.size, m.size);
        bits = λ g. ground (arith, f.bits g, m.bits g);
        start = omega (arith, f.start, m.start);
        end = omega (arith, f.end, m.end);
        counted = omega (arith, f.counted, counted);
      },
    )

past_the_end : (ws : List ℕ) (i : ℕ) → length ws ≤ i → get_elem? ws i ≡ none
past_the_end [] i h = refl
past_the_end (w ∷ ws) zero h = absurd (omega arith)
past_the_end (w ∷ ws) (suc i) h = past_the_end ws i (omega arith)

-- A range that reaches past the last frame is marked up to it, and then written outside the array.
free_range-fault :
    (n lo : ℕ) (p : Pmm)
    → lo ≤ 64 * length p.frame_bitmap
    → 64 * length p.frame_bitmap < lo + n
    → free_range n lo p ≡ fault
unfolding free_range
free_range-fault zero lo p h k = absurd (omega arith)
free_range-fault (suc n) lo p h k = elim (Bool-cases (lo == 64 * length p.frame_bitmap)) [
  | inl e ↦ rw (set_frame_free_outside p lo (ground arith)) refl
  | inr e ↦
      let (r, marked, m, counted) = set_frame_free-Marks p lo (ground arith) in
      rw (marked, free_range-fault n (lo + 1) r (ground (arith, m.size)) (ground (arith, m.size)))
        refl
]
  where
    set_frame_free_outside :
        (p : Pmm) (frame : ℕ) → frame ≡ 64 * length p.frame_bitmap → set_frame_free p frame ≡ fault
    set_frame_free_outside p frame e =
        unfold set_frame_free in rw (past_the_end p.frame_bitmap (frame / 64) (omega arith)) refl

abbrev pub first_frame : ℕ → ℕ
first_frame addr = addr / frame_size

abbrev pub last_frame : ℕ → ℕ → ℕ
last_frame addr len = (addr + len) / frame_size

-- What registering a region that ends below the limit does: the frames from the one that holds its
-- first byte up to the one that holds the byte behind it are free, but for frame 0, which is used;
-- the search covers them, without the last.
pub record Registered (p q : Pmm) (addr len : ℕ) : Type 0 where
  pub size : length q.frame_bitmap ≡ length p.frame_bitmap
  pub start : q.frame_bitmap_start ≡ first_frame addr
  pub end : q.frame_bitmap_end ≡ last_frame addr len
  pub bits :
      (g : ℕ)
      → frame_bit q g ≡ (
          if g == 0
          then 1
          else if leb (first_frame addr) g && leb g (last_frame addr len)
          then 0
          else frame_bit p g)
  pub counted :
      q.free_frames
      ≡ (p.free_frames
          + p.total_frames
          + len / frame_size
          + last_frame addr len
          - first_frame addr
          + 1)
        % u64_mod

abbrev registering : Pmm → ℕ → ℕ → Pmm
registering p addr len =
    let frames = add64 p.total_frames (len / frame_size + 1) in
    record p {
      total_memory = add64 p.total_memory len;
      total_frames = frames;
      free_frames = add64 p.free_frames frames;
      frame_bitmap_start = first_frame addr;
      frame_bitmap_end = last_frame addr len;
    }

registering-bit : (p : Pmm) (addr len g : ℕ) → frame_bit (registering p addr len) g ≡ frame_bit p g
registering-bit p addr len g = frame_bit-congr (registering p addr len) p g refl

set_addr_free_lem :
    (p : Pmm) (addr len : ℕ)
    → add64 addr len ≡ addr + len
    → set_addr_free p addr len
      ≡ free_range (last_frame addr len + 1 - first_frame addr) (first_frame addr) (record p {
        frame_bitmap_start = first_frame addr;
        frame_bitmap_end = last_frame addr len;
      })
unfolding set_addr_free
set_addr_free_lem p addr len e = rw e refl

register_region-Registered :
    (p : Pmm) (addr len : ℕ)
    → length p.frame_bitmap ≡ frame_bitmap_size
    → addr + len < max_memory_bytes
    → (q : Pmm) × (register_region p addr len ≡ ok q) × Registered p q addr len
unfolding register_region
register_region-Registered p addr len size h =
    let r = registering p addr len in
    let n = last_frame addr len + 1 - first_frame addr in
    let whole : add64 addr len ≡ addr + len = omega arith in
    let (s, freed, f) = free_range-Freed n (first_frame addr) r (omega arith) in
    let (q, used, m, counted) = set_frame_used-Marks s 0 (omega (arith, f.size)) in
    (
      q,
      rw (set_addr_free_lem _ addr len whole, freed, used) refl,
      record {
        size = omega (arith, m.size, f.size);
        start = omega (arith, m.start, f.start);
        end = omega (arith, m.end, f.end);
        bits = λ g. ground (arith, m.bits g, f.bits g, registering-bit p addr len g);
        counted = omega (arith, counted, f.counted);
      },
    )

-- A region that ends below the limit is registered whole, in a bitmap of the full size.
pub add_free_memory-Registered :
    (p : Pmm) (addr len : ℕ)
    → length p.frame_bitmap ≡ frame_bitmap_size
    → addr + len < max_memory_bytes
    → (q : Pmm) × (add_free_memory p addr len ≡ ok q) × Registered p q addr len
unfolding add_free_memory
add_free_memory-Registered p addr len size h =
    let below : leb max_memory_bytes (add64 addr len) ≡ false = ground arith in
    rw below (register_region-Registered p addr len size h)

-- A region that starts below the limit and reaches it is truncated to the limit, and then the loop
-- of `set_addr_free`, which includes the frame behind the last byte, writes outside the bitmap.
pub add_free_memory-fault :
    (p : Pmm) (addr len : ℕ)
    → length p.frame_bitmap ≡ frame_bitmap_size
    → addr < max_memory_bytes
    → max_memory_bytes ≤ addr + len
    → addr + len < u64_mod
    → add_free_memory p addr len ≡ fault
unfolding add_free_memory register_region
add_free_memory-fault p addr len size h reach fits =
    let above : leb max_memory_bytes (add64 addr len) ≡ true = ground arith in
    let starts_below : leb max_memory_bytes addr ≡ false = ground arith in
    let cut = max_memory_bytes - addr in
    let whole : add64 addr cut ≡ addr + cut = omega arith in
    let r = registering p addr cut in
    rw
      (
        above,
        starts_below,
        set_addr_free_lem _ addr cut whole,
        free_range-fault (last_frame addr cut + 1 - first_frame addr) (first_frame addr) r
            (omega arith) (omega arith),
      )
      refl

-- The count of free frames after the first region, of `n` whole frames: each of them is counted
-- twice, and one more; the frame behind the region is marked as free though it is not part of it.
pub add_free_memory-overcount :
    (p : Pmm) (first n : ℕ)
    → 0 < first
    → (first + n) * frame_size < max_memory_bytes
    → (q : Pmm) × (add_free_memory (init p) (first * frame_size) (n * frame_size) ≡ ok q)
      × (q.free_frames ≡ 2 * n + 1)
      × (frame_bit q (first + n) ≡ 0)
add_free_memory-overcount p first n pos h =
    let (size, used, no_free, no_total) = init-bits p in
    let (q, added, r) =
      add_free_memory-Registered (init p) (first * frame_size) (n * frame_size) size
        (omega arith) in
    (q, added, omega (arith, r.counted, no_free, no_total), ground (arith, r.bits (first + n)))
