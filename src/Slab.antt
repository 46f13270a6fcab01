-- ===== src/Slab.antt =====
-- src/kernel/lib/memory/slab.cpp and slab.hpp, with `kmalloc` and `kfree` of src/kernel/lib/memory/memory.cpp:
-- chunks of fixed sizes in pages that the heap of the kernel gives. The header of a page and the first
-- words of its chunks are kept apart; Slab/Chunks shows that they do not overlap. A pointer that is
-- `nullptr` is 0.
pub mod Chunks
pub mod Turns
mod Tests
use Prim.Native.Nat.{bit_and}
use hltos.Base.{
  ℕ, zero, suc, ◌+◌, ◌-◌, ◌*◌, ◌/◌, ◌%◌, ◌^◌, Bool, true, false, not, ◌&&◌, ◌||◌, List, [], ◌∷◌,
  Option, none, some, ltb, leb, ◌==◌, if◌then◌else◌, set, get_elem?, add64, sub64,
}
use hltos.Base.Run.{Run, ok, panic, fault, ◌>>=◌, or_fault}
use hltos.Vmm.{Vmm, page_size}
use hltos.Vmm.Kheap.{Heap, alloc_kernel_page, free_kernel_page, alloc_kernel, free_kernel}

abbrev pub slab_magic : ℕ
slab_magic = 5884887134341124523

pub record Slab : Type 0 where
  pub magic : ℕ
  pub free_head : ℕ
  pub next_slab : ℕ
  pub prev_slab : ℕ
  pub size_class_index : ℕ
  pub free_chunks : ℕ

-- The size of `Slab` in bytes.
abbrev pub slab_header : ℕ
slab_header = 40

pub record SizeClass : Type 0 where
  pub index : ℕ
  pub size : ℕ
  pub num_slabs : ℕ
  pub first_slab : ℕ
  pub chunks_per_slab : ℕ

-- The allocator: its classes, what stands at the start of each page, the pointer at the start of each
-- chunk, and the heap of pages below.
pub record SlabHeap : Type 0 where
  pub classes : List SizeClass
  pub slab_at : ℕ → Slab
  pub word_at : ℕ → ℕ
  pub vmm : Vmm
  pub kheap : Heap

abbrev pub chunks_per_slab_of : ℕ → ℕ
chunks_per_slab_of chunk_size = (page_size - slab_header) / chunk_size % 2 ^ 8

abbrev pub new_class : ℕ → ℕ → SizeClass
new_class index size = record {
  index = index;
  size = size;
  num_slabs = 0;
  first_slab = 0;
  chunks_per_slab = chunks_per_slab_of size;
}

abbrev pub classes : List SizeClass
classes =
    new_class 0 32
    ∷ new_class 1 64
    ∷ new_class 2 128
    ∷ new_class 3 256
    ∷ new_class 4 512
    ∷ new_class 5 1024
    ∷ []

abbrev pub write_slab : SlabHeap → ℕ → Slab → SlabHeap
write_slab h a slab = record h { slab_at = λ b. if b == a then slab else h.slab_at b }

abbrev pub write_word : (ℕ → ℕ) → ℕ → ℕ → ℕ → ℕ
write_word words a value b = if b == a then value else words b

abbrev pub slab_page : ℕ → ℕ
slab_page addr = addr / page_size * page_size

unfoldable pub try_get_slab : SlabHeap → ℕ → ℕ
try_get_slab h addr =
    if addr == 0
    then 0
    else if (h.slab_at (slab_page addr)).magic == slab_magic
    then slab_page addr
    else 0

unfoldable pub is_slab : SlabHeap → ℕ → Bool
is_slab h addr = not (try_get_slab h addr == 0)

abbrev pub can_alloc : ℕ → Bool
can_alloc bytes = leb bytes 1024

-- The index of the class.
unfoldable pub get_size_class : ℕ → Option ℕ
get_size_class bytes =
    if leb bytes 32
    then some 0
    else if leb bytes 64
    then some 1
    else if leb bytes 128
    then some 2
    else if leb bytes 256
    then some 3
    else if leb bytes 512
    then some 4
    else if leb bytes 1024
    then some 5
    else none

-- The loop of `create_slab`, by the chunks left, and the last chunk behind it.
unfoldable pub link_chunks : ℕ → ℕ → ℕ → (ℕ → ℕ) → ℕ → ℕ
link_chunks zero chunk_size this_chunk words = write_word words this_chunk 0
link_chunks (suc chunks) chunk_size this_chunk words =
    link_chunks chunks chunk_size (add64 this_chunk chunk_size)
      (write_word words this_chunk (add64 this_chunk chunk_size))

-- The page becomes the first slab of the class.
unfoldable pub insert_slab : SlabHeap → SizeClass → ℕ → SlabHeap
insert_slab h sc page =
    let first_chunk = add64 page slab_header in
    let first = h.slab_at sc.first_slab in
    let behind =
      if sc.first_slab == 0
      then h
      else write_slab h sc.first_slab (record first { prev_slab = page }) in
    record (write_slab behind page (record {
      magic = slab_magic;
      free_head = first_chunk;
      next_slab = sc.first_slab;
      prev_slab = 0;
      size_class_index = sc.index;
      free_chunks = sc.chunks_per_slab;
    })) {
      word_at = link_chunks (sc.chunks_per_slab - 1) sc.size first_chunk h.word_at;
      classes =
          set h.classes sc.index
            (record sc { first_slab = page; num_slabs = add64 sc.num_slabs 1 });
    }

unfoldable pub create_slab : SlabHeap → SizeClass → Run (SlabHeap × ℕ)
create_slab h sc = alloc_kernel_page h.vmm h.kheap >>= λ r.
    let (vmm, kheap, page) = r in
    if page == 0
    then fault
    else ok (insert_slab (record h { vmm = vmm; kheap = kheap }) sc page, page)

-- The neighbours of the slab are joined.
unfoldable pub unlink_slab : SlabHeap → SizeClass → ℕ → SlabHeap
unlink_slab h sc a =
    let slab = h.slab_at a in
    let h1 =
      if slab.prev_slab == 0
      then h
      else write_slab h slab.prev_slab
          (record (h.slab_at slab.prev_slab) { next_slab = slab.next_slab }) in
    let h2 =
      if slab.next_slab == 0
      then h1
      else write_slab h1 slab.next_slab
          (record (h1.slab_at slab.next_slab) { prev_slab = slab.prev_slab }) in
    let first = if slab.prev_slab == 0 then slab.next_slab else sc.first_slab in
    record h2 {
      classes =
          set h.classes sc.index
            (record sc { first_slab = first; num_slabs = sub64 sc.num_slabs 1 });
    }

unfoldable pub destroy_slab : SlabHeap → SizeClass → ℕ → Run SlabHeap
destroy_slab h sc a =
    let slab = h.slab_at a in
    if a == 0 || slab.prev_slab == 0 && slab.next_slab == 0
    then ok h
    else (free_kernel_page h.vmm a >>= λ vmm. ok (record (unlink_slab h sc a) { vmm = vmm }))

-- The loop of `alloc`, by the slabs left. The answer 0 is the end of the list; `none` while it goes on.
unfoldable pub find_free : ℕ → SlabHeap → ℕ → Option ℕ
find_free rounds h zero = some 0
find_free zero h (suc a) = none
find_free (suc rounds) h (suc a) =
    let rest = find_free rounds h (h.slab_at (suc a)).next_slab in
    if (h.slab_at (suc a)).free_head == 0 then rest else some (suc a)

-- The first chunk of the slab.
unfoldable pub take_chunk : SlabHeap → ℕ → SlabHeap × ℕ
take_chunk h a =
    let slab = h.slab_at a in
    (
      write_slab h a (record slab {
        free_head = h.word_at slab.free_head;
        free_chunks = (slab.free_chunks + 255) % 2 ^ 8;
      }),
      slab.free_head,
    )

-- A list with more slabs than its class counts is left out.
unfoldable pub alloc_from : SlabHeap → SizeClass → Option ℕ → Run (SlabHeap × ℕ)
alloc_from h sc none = fault
alloc_from h sc (some zero) = create_slab h sc >>= λ r. ok (take_chunk r.0 r.1)
alloc_from h sc (some (suc a)) = ok (take_chunk h (suc a))

unfoldable pub alloc : SlabHeap → ℕ → Run (SlabHeap × ℕ)
alloc h size = or_fault (get_size_class size) >>= λ i. or_fault (get_elem? h.classes i) >>= λ sc.
    alloc_from h sc (find_free sc.num_slabs h sc.first_slab)

-- The chunk becomes the first of its slab.
unfoldable pub put_chunk : SlabHeap → ℕ → ℕ → SlabHeap
put_chunk h a addr =
    let slab = h.slab_at a in
    record (write_slab h a
      (record slab { free_head = addr; free_chunks = (slab.free_chunks + 1) % 2 ^ 8 })) {
        word_at = write_word h.word_at addr slab.free_head;
      }

unfoldable pub free : SlabHeap → ℕ → Run SlabHeap
free h addr =
    let a = try_get_slab h addr in
    let kept = put_chunk h a addr in
    if a == 0
    then ok h
    else (or_fault (get_elem? h.classes (h.slab_at a).size_class_index) >>= λ sc.
        if (kept.slab_at a).free_chunks == sc.chunks_per_slab && ltb 1 sc.num_slabs
        then destroy_slab kept sc a
        else ok kept)

unfoldable pub kmalloc : SlabHeap → ℕ → Run (SlabHeap × ℕ)
kmalloc h size =
    if size == 0
    then ok (h, 0)
    else if can_alloc size
    then alloc h size
    else (alloc_kernel h.vmm h.kheap size >>= λ r. ok (record h { vmm = r.0; kheap = r.1 }, r.2))

unfoldable pub kfree : SlabHeap → ℕ → Run SlabHeap
kfree h ptr =
    if ptr == 0
    then ok h
    else if is_slab h ptr
    then free h ptr
    else (free_kernel h.vmm ptr >>= λ vmm. ok (record h { vmm = vmm }))
