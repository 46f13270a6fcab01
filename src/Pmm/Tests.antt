-- ===== src/Pmm/Tests.antt =====
-- Runs of pmm.cpp's operations over a bitmap of one word, and the theorems at inputs.
use hltos.Base.{◌≡◌, refl, [], ◌∷◌, arith}
use hltos.Base.Run.{ok, panic, fault, ◌>>=◌}
use hltos.Pmm.{
  Pmm, init, set_frame_used, alloc_frame, free_frame, add_free_memory, alloc_loop, is_frame_free,
}
use hltos.Pmm.Bitmap.{frame_bit, init-bits}
use hltos.Pmm.Alloc.{AllocOutcome, alloc_frame-AllocOutcome, free_frame-alloc_frame}
use hltos.Pmm.Region.{
  Registered, add_free_memory-Registered, add_free_memory-fault, add_free_memory-overcount,
}

-- Frames 2 and 3 of the first four are free, and the search starts at 1.
abbrev small : Pmm
small = record {
  frame_bitmap = 3 ∷ [];
  frame_bitmap_start = 1;
  frame_bitmap_end = 4;
  total_memory = 8192;
  total_frames = 3;
  free_frames = 2;
}

-- All frames up to the end are used, and frame 1 lies below the search.
abbrev full : Pmm
full = record small { frame_bitmap = 15 ∷ []; frame_bitmap_start = 4 }

abbrev blank : Pmm
blank = record small { frame_bitmap = [] }

alloc_small : (alloc_frame small >>= λ (q, addr). ok addr) ≡ ok 8192
unfolding alloc_frame alloc_loop is_frame_free set_frame_used
alloc_small = refl

alloc_full : alloc_frame full ≡ panic
unfolding alloc_frame alloc_loop
alloc_full = refl

alloc_frame-AllocOutcome_example : AllocOutcome small 1 (alloc_frame small)
alloc_frame-AllocOutcome_example = alloc_frame-AllocOutcome small (omega arith)

free_frame-alloc_frame_example :
    (q : Pmm) × (free_frame full 4096 ≡ ok q) × (frame_bit q 1 ≡ 0) × (alloc_frame q ≡ panic)
free_frame-alloc_frame_example =
    free_frame-alloc_frame full 1 (omega arith) (omega arith) (omega arith) alloc_full

add_free_memory-Registered_example :
    (q : Pmm) × (add_free_memory (init blank) 4096 8192 ≡ ok q)
    × Registered (init blank) q 4096 8192
add_free_memory-Registered_example =
    add_free_memory-Registered (init blank) 4096 8192 (init-bits blank).0 (omega arith)

add_free_memory-fault_example : add_free_memory (init blank) 4096 4294967296 ≡ fault
add_free_memory-fault_example =
    add_free_memory-fault (init blank) 4096 4294967296 (init-bits blank).0 (omega arith)
      (omega arith) (omega arith)

add_free_memory-overcount_example :
    (q : Pmm) × (add_free_memory (init blank) 4096 8192 ≡ ok q)
    × (q.free_frames ≡ 5)
    × (frame_bit q 3 ≡ 0)
add_free_memory-overcount_example = add_free_memory-overcount blank 1 2 (omega arith) (omega arith)
