-- ===== src/Slab/Tests.antt =====
-- Runs of slab.cpp, and where the theorems apply.
use hltos.Base.{ℕ, ◌+◌, ◌≡◌, refl, arith, List, [], ◌∷◌, length, inr, ◌==◌, if◌then◌else◌}
use hltos.Base.Run.{Run, ok, panic, fault}
use hltos.Pmm.{Pmm}
use hltos.Vmm.{Vmm, empty_entry}
use hltos.Slab.{
  SizeClass, SlabHeap, slab_magic, slab_header, classes, new_class, insert_slab, kmalloc, kfree,
  alloc, alloc_from, find_free, get_size_class, take_chunk,
}
use hltos.Slab.Chunks.{Chain, Within, insert_slab-Chain}
use hltos.Slab.Turns.{Settled, Taken, SameHeap, kfree-kmalloc}

abbrev frames : Pmm
frames = record {
  frame_bitmap = [];
  frame_bitmap_start = 0;
  frame_bitmap_end = 0;
  total_memory = 0;
  total_frames = 0;
  free_frames = 0;
}

abbrev memory : Vmm
memory = record {
  table = λ t i. empty_entry;
  page = λ f. [];
  pmm = frames;
  kernel_pml4 = 0;
  hhdm_offset = 0;
}

-- No slab yet.
abbrev no_slabs : SlabHeap
no_slabs = record {
  classes = classes;
  slab_at = λ a. record {
    magic = 0;
    free_head = 0;
    next_slab = 0;
    prev_slab = 0;
    size_class_index = 0;
    free_chunks = 0;
  };
  word_at = λ a. 0;
  vmm = memory;
  kheap = record { pml4_idx = 257; pdpt_idx = 0; pd_idx = 0; pt_idx = 0 };
}

abbrev class_32 : SizeClass
class_32 = record (new_class 0 32) { num_slabs = 1; first_slab = 4096 }

-- One slab with two free chunks left.
abbrev one_slab : SlabHeap
one_slab = record no_slabs {
  classes = class_32 ∷ [];
  slab_at = λ a.
      if a == 4096
      then record {
        magic = slab_magic;
        free_head = 4136;
        next_slab = 0;
        prev_slab = 0;
        size_class_index = 0;
        free_chunks = 2;
      }
      else no_slabs.slab_at a;
  word_at = λ a. if a == 4136 then 4168 else 0;
}

one_slab-Settled : Settled one_slab 0 class_32 4096 4136
one_slab-Settled = record {
  class = refl;
  head = refl;
  on_page = refl;
  marked = refl;
  of_class = refl;
  counted = (omega arith, omega arith);
  stays = inr (omega arith);
}

abbrev answer_of : Run (SlabHeap × ℕ) → ℕ
answer_of (ok r) = r.1
answer_of panic = 1
answer_of fault = 2

answers_head : answer_of (kmalloc one_slab 20) ≡ 4136
unfolding kmalloc alloc alloc_from find_free get_size_class take_chunk
answers_head = refl

-- More than a slab can hold.
no_class : answer_of (alloc one_slab 2000) ≡ 2
unfolding alloc get_size_class
no_class = refl

insert_slab-Chain_example :
    (chunks : List ℕ) × (length chunks
      ≡ ((insert_slab no_slabs (new_class 5 1024) 8192).slab_at 8192).free_chunks)
    × Chain
        (insert_slab no_slabs (new_class 5 1024) 8192).word_at
        ((insert_slab no_slabs (new_class 5 1024) 8192).slab_at 8192).free_head
        chunks
    × Within (8192 + slab_header) (8192 + 4096) 1024 chunks
insert_slab-Chain_example = insert_slab-Chain no_slabs (new_class 5 1024) 8192 (record {
  sized = omega arith;
  some_chunks = omega arith;
  inside = omega arith;
  mapped = (omega arith, omega arith);
})

kfree-kmalloc_example :
    (taken freed : SlabHeap) × (kmalloc one_slab 20 ≡ ok (taken, 4136))
    × Taken one_slab taken 4096 (4168 ∷ [])
    × (kfree taken 4136 ≡ ok freed)
    × SameHeap one_slab freed
unfolding get_size_class
kfree-kmalloc_example =
    kfree-kmalloc one_slab 20 0 class_32 (4096 ∷ []) 4095 4136 (4168 ∷ [])
      (omega arith, omega arith, refl) one_slab-Settled (refl, λ e. absurd (omega (arith, e)), refl)
      (omega arith) refl
      (refl, λ e. absurd (omega (arith, e)), (refl, λ e. absurd (omega (arith, e)), refl))
