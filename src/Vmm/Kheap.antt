-- ===== src/Vmm/Kheap.antt =====
-- The heap cursor of vmm.cpp and the calls that map at it: `map_phys`, the pages and the sized blocks of
-- the kernel, and the heaps of user address spaces. The static `kheap` is passed and returned. The
-- indices fill disjoint bits of an address, so `|=` is a sum.
use Prim.Native.Nat.{bit_or}
use hltos.Base.{
  ℕ, zero, suc, ◌+◌, ◌-◌, ◌*◌, ◌/◌, ◌%◌, ◌^◌, Bool, not, ◌&&◌, none, some, set, get_or, leb, ltb,
  ◌==◌, if◌then◌else◌, add64,
}
use hltos.Base.Run.{Run, ok, panic, fault, ◌>>=◌}
use hltos.Pmm.{alloc_frame}
use hltos.Vmm.{
  Vmm, num_pt_entries, page_size, page_write, page_user, page_global, is_page_aligned, page_align,
  write_entry, populate_pte, get_kernel_pml4_index, find_pte, ensure_path, unmap_page, unmap_mem_at,
}

pub record Heap : Type 0 where
  pub pml4_idx : ℕ
  pub pdpt_idx : ℕ
  pub pd_idx : ℕ
  pub pt_idx : ℕ

-- An address whose bit 47 is set has all higher bits set.
abbrev pub canonical : ℕ → ℕ
canonical virt_page = if ltb virt_page (2 ^ 47) then virt_page else virt_page + 65535 * 2 ^ 48

unfoldable pub get_next_heap_virt_page : Heap → ℕ
get_next_heap_virt_page h = canonical (
    h.pml4_idx % 512 * 2 ^ 39
    + h.pdpt_idx % 512 * 2 ^ 30
    + h.pd_idx % 512 * 2 ^ 21
    + h.pt_idx % 512 * 2 ^ 12)

unfoldable pub advance_heap : Heap → Heap
advance_heap h =
    if ltb (h.pt_idx + 1) num_pt_entries
    then record h { pt_idx = h.pt_idx + 1 }
    else if ltb (h.pd_idx + 1) num_pt_entries
    then record h { pt_idx = 0; pd_idx = h.pd_idx + 1 }
    else if ltb (h.pdpt_idx + 1) num_pt_entries
    then record h { pt_idx = 0; pd_idx = 0; pdpt_idx = h.pdpt_idx + 1 }
    else record { pt_idx = 0; pd_idx = 0; pdpt_idx = 0; pml4_idx = h.pml4_idx + 1 }

-- An index behind the end of the root reads outside it.
unfoldable pub map_heap_page : Vmm → ℕ → Heap → ℕ → ℕ → Run (Vmm × Heap × ℕ)
map_heap_page m pml4 h phys_addr flags =
    let virt_page = get_next_heap_virt_page h in
    if not (is_page_aligned virt_page)
    then panic
    else if leb num_pt_entries h.pml4_idx
    then fault
    else (ensure_path m pml4 (h.pml4_idx, h.pdpt_idx, h.pd_idx) flags >>= λ r.
        let (m3, pt) = r in
        let e = populate_pte (m3.table pt h.pt_idx) (page_align phys_addr) flags in
        ok (
          record m3 { table = write_entry m3.table pt h.pt_idx e },
          advance_heap h,
          add64 virt_page (phys_addr % page_size),
        ))

unfoldable pub map_phys : Vmm → Heap → ℕ → ℕ → Run (Vmm × Heap × ℕ)
map_phys m kheap phys_addr flags =
    map_heap_page m m.kernel_pml4 kheap phys_addr (bit_or flags (page_write + page_global))

unfoldable pub alloc_kernel_page : Vmm → Heap → Run (Vmm × Heap × ℕ)
alloc_kernel_page m kheap = alloc_frame m.pmm >>= λ r. map_phys (record m { pmm = r.0 }) kheap r.1 0

unfoldable pub free_kernel_page : Vmm → ℕ → Run Vmm
free_kernel_page m virt_addr =
    if virt_addr == 0 then ok m else unmap_page m m.kernel_pml4 (page_align virt_addr)

-- The first word of the page at an address that is mapped.
unfoldable pub load : Vmm → ℕ → ℕ → Run ℕ
load m pml4 virt_page = elim (find_pte m pml4 virt_page) [
  | none ↦ fault
  | some place ↦ ok (get_or (m.page (m.table place.0 place.1).addr) 0 0)
]

unfoldable pub store : Vmm → ℕ → ℕ → ℕ → Run Vmm
store m pml4 virt_page value = elim (find_pte m pml4 virt_page) [
  | none ↦ fault
  | some place ↦
      let frame = (m.table place.0 place.1).addr in
      ok (record m { page = λ f. if f == frame then set (m.page frame) 0 value else m.page f })
]

-- The loop of `map_heap_pages`, by the pages left; it keeps the address of the first.
unfoldable pub map_heap_loop : ℕ → Vmm → ℕ → Heap → ℕ → ℕ → Run (Vmm × Heap × ℕ)
map_heap_loop zero m pml4 h flags first_page = ok (m, h, first_page)
map_heap_loop (suc pages) m pml4 h flags first_page = alloc_frame m.pmm >>= λ r.
    map_heap_page (record m { pmm = r.0 }) pml4 h r.1 flags >>= λ s.
    map_heap_loop pages s.0 pml4 s.1 flags (if first_page == 0 then s.2 else first_page)

unfoldable pub map_heap_pages : Vmm → ℕ → Heap → ℕ → ℕ → Run (Vmm × Heap × ℕ)
map_heap_pages m pml4 h bytes flags =
    let num_pages = add64 (add64 bytes 8) (page_size - 1) / page_size in
    map_heap_loop num_pages m pml4 h flags 0 >>= λ r.
    if r.2 == 0
    then panic
    else (store r.0 pml4 r.2 num_pages >>= λ stored. ok (stored, r.1, add64 r.2 8))

unfoldable pub alloc_kernel : Vmm → Heap → ℕ → Run (Vmm × Heap × ℕ)
alloc_kernel m kheap bytes = map_heap_pages m m.kernel_pml4 kheap bytes (page_write + page_global)

unfoldable pub free_kernel : Vmm → ℕ → Run Vmm
free_kernel m virt_addr =
    if virt_addr == 0
    then ok m
    else (load m m.kernel_pml4 (page_align virt_addr) >>= λ num_pages.
        if num_pages == 0
        then ok m
        else unmap_mem_at num_pages m m.kernel_pml4 (page_align virt_addr))

-- The tables for the first page of a heap.
unfoldable pub heap_at : Vmm → ℕ → Heap → ℕ → Run (Vmm × Heap)
heap_at m pml4 h flags =
    ensure_path m pml4 (h.pml4_idx, h.pdpt_idx, h.pd_idx) flags >>= λ r. ok (r.0, h)

unfoldable pub init_kheap : Vmm → Run (Vmm × Heap)
init_kheap m =
    let start = get_kernel_pml4_index m + 1 in
    if leb num_pt_entries start
    then fault
    else heap_at m m.kernel_pml4 (record { pml4_idx = start; pdpt_idx = 0; pd_idx = 0; pt_idx = 0 })
        0

unfoldable pub create_user_heap : Vmm → ℕ → Run (Vmm × Heap)
create_user_heap m pml4 =
    heap_at m pml4 (record { pml4_idx = 1; pdpt_idx = 0; pd_idx = 0; pt_idx = 0 }) page_user

unfoldable pub clone_user_heap : Vmm → Heap → ℕ → Run (Vmm × Heap)
clone_user_heap m existing pml4 =
    if leb num_pt_entries existing.pml4_idx then fault else heap_at m pml4 existing page_user

abbrev pub user_max_addr : ℕ
user_max_addr = 2 ^ 47

-- A range of user memory.
unfoldable pub is_user_addr : ℕ → ℕ → Bool
is_user_addr addr size = ltb addr user_max_addr && leb size (user_max_addr - addr)
