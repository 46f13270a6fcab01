-- ===== src/Pmm.antt =====
-- src/kernel/lib/memory/pmm.cpp: the bitmap of physical frames and the allocator over it.
-- The spinlock has no state here, since each call is one step; log lines are left out. A `size_t` is
-- a number below 2 ^ 64, with its wrap-around written out.
pub mod Bitmap
pub mod Alloc
pub mod Region
pub mod Supply
mod Tests
use Prim.Native.Nat.{bit_and, bit_or}
use hltos.Base.{
  ℕ, zero, suc, ◌+◌, ◌-◌, ◌*◌, ◌/◌, ◌%◌, ◌^◌, Bool, List, leb, ◌==◌, if◌then◌else◌, get_elem?, set,
  replicate, u64_mod, add64, sub64,
}
use hltos.Base.Run.{Run, ok, panic, ◌>>=◌, or_fault}

abbrev pub max_memory_bytes : ℕ
max_memory_bytes = 2_147_483_648

abbrev pub frame_size : ℕ
frame_size = 4096

abbrev pub frame_bitmap_size : ℕ
frame_bitmap_size = 8192

pub record Pmm : Type 0 where
  pub frame_bitmap : List ℕ
  pub frame_bitmap_start : ℕ
  pub frame_bitmap_end : ℕ
  pub total_memory : ℕ
  pub total_frames : ℕ
  pub free_frames : ℕ

-- `FRAME_USED << offset`
abbrev pub frame_mask : ℕ → ℕ
frame_mask frame = 2 ^ (frame % 64)

unfoldable pub is_frame_free : Pmm → ℕ → Run Bool
is_frame_free p frame = do
  entry ← or_fault (get_elem? p.frame_bitmap (frame / 64))
  ok (bit_and entry (frame_mask frame) == 0)

unfoldable pub set_frame_used : Pmm → ℕ → Run Pmm
set_frame_used p frame = do
  entry ← or_fault (get_elem? p.frame_bitmap (frame / 64))
  ok (record p {
    frame_bitmap = set p.frame_bitmap (frame / 64) (bit_or entry (frame_mask frame));
    free_frames = sub64 p.free_frames 1;
  })

unfoldable pub set_frame_free : Pmm → ℕ → Run Pmm
set_frame_free p frame = do
  entry ← or_fault (get_elem? p.frame_bitmap (frame / 64))
  let mask = 2 ^ 64 - 1 - frame_mask frame
  ok (record p {
    frame_bitmap = set p.frame_bitmap (frame / 64) (bit_and entry mask);
    free_frames = add64 p.free_frames 1;
  })

-- The start and the end of the search keep their values.
unfoldable pub init : Pmm → Pmm
init p = record p {
  frame_bitmap = replicate frame_bitmap_size (2 ^ 64 - 1);
  total_memory = 0;
  total_frames = 0;
  free_frames = 0;
}

-- The `while` loops of `set_addr_free` and `set_addr_used`, by the rounds left.
unfoldable pub free_range : ℕ → ℕ → Pmm → Run Pmm
free_range zero frame p = ok p
free_range (suc rounds) frame p = set_frame_free p frame >>= free_range rounds (frame + 1)

unfoldable pub use_range : ℕ → ℕ → Pmm → Run Pmm
use_range zero frame p = ok p
use_range (suc rounds) frame p = set_frame_used p frame >>= use_range rounds (frame + 1)

unfoldable pub set_addr_free : Pmm → ℕ → ℕ → Run Pmm
set_addr_free p addr len =
    let frame_start = addr / frame_size in
    let frame_end = add64 addr len / frame_size in
    free_range (frame_end + 1 - frame_start) frame_start
      (record p { frame_bitmap_start = frame_start; frame_bitmap_end = frame_end })

unfoldable pub set_addr_used : Pmm → ℕ → ℕ → Run Pmm
set_addr_used p addr len =
    let frame_start = addr / frame_size in
    let frame_end = add64 addr len / frame_size in
    use_range (frame_end + 1 - frame_start) frame_start p

-- What `add_free_memory` does with a region that it accepts, truncated or not.
unfoldable pub register_region : Pmm → ℕ → ℕ → Run Pmm
register_region p addr len = do
  let frames = add64 p.total_frames (len / frame_size + 1)
  freed ←
      set_addr_free
        (record p {
          total_memory = add64 p.total_memory len;
          total_frames = frames;
          free_frames = add64 p.free_frames frames;
        })
        addr len
  set_frame_used freed 0

unfoldable pub add_free_memory : Pmm → ℕ → ℕ → Run Pmm
add_free_memory p addr len =
    if leb max_memory_bytes (add64 addr len)
    then if leb max_memory_bytes addr
      then ok p
      else register_region p addr (max_memory_bytes - addr)
    else register_region p addr len

unfoldable pub free_frame : Pmm → ℕ → Run Pmm
free_frame p phys = set_frame_free p (phys / frame_size)

-- The `while` of `alloc_frame`, by the frames left to look at.
unfoldable pub alloc_loop : ℕ → ℕ → Pmm → Run (Pmm × ℕ)
alloc_loop zero frame p = panic
alloc_loop (suc rounds) frame p = do
  free ← is_frame_free p frame
  let rest = alloc_loop rounds (frame + 1) p
  let take = set_frame_used p frame >>= λ taken.
      ok (record taken { frame_bitmap_start = frame + 1 }, frame * frame_size)
  if free then take else rest

unfoldable pub alloc_frame : Pmm → Run (Pmm × ℕ)
alloc_frame p = alloc_loop (p.frame_bitmap_end - p.frame_bitmap_start) p.frame_bitmap_start p
