-- ===== src/Vmm.antt =====
-- src/kernel/arch/x64/memory/vmm.cpp and vmm.hpp: the four levels of page tables over the frames of
-- the physical memory manager. A table is named by the number of its frame, since the direct map
-- reaches each frame at one address; `invlpg` and the lock, under which each call is one step, have
-- no state here. `cr4` and the switch of `cr3` are left out.
pub mod Kheap
pub mod Spaces
pub mod Walk
pub mod Growth
pub mod Mapping
pub mod Paths
pub mod Translate
pub mod Pages
pub mod MapPages
pub mod Unmap
pub mod Ranges
pub mod Cursor
pub mod Fresh
mod Tests
use Prim.Native.Nat.{bit_and}
use hltos.Base.{
  ℕ, zero, suc, ◌+◌, ◌-◌, ◌*◌, ◌/◌, ◌%◌, ◌^◌, Bool, true, false, not, Option, none, some, ◌&&◌,
  List, set, leb, ltb, ◌==◌, if◌then◌else◌, add64, sub64,
}
use hltos.Base.Run.{Run, ok, panic, fault, ◌>>=◌}
use hltos.Pmm.{Pmm, alloc_frame, free_frame}

abbrev pub num_pt_entries : ℕ
num_pt_entries = 512

abbrev pub page_size : ℕ
page_size = 4096

abbrev pub page_write : ℕ
page_write = 2

abbrev pub page_user : ℕ
page_user = 4

abbrev pub page_cache_disable : ℕ
page_cache_disable = 8

abbrev pub page_global : ℕ
page_global = 16

abbrev pub page_nx : ℕ
page_nx = 32

-- An entry of a table: `PML4E`, `PDPTE`, `PDE` and `PTE` have one layout of bits. Bit 7 is `ps` of a
-- `PDPTE` or `PDE` and `pat` of a `PTE`; bits 6 and 8 are `d` and `g` of a `PTE`.
pub record Entry : Type 0 where
  pub p : Bool
  pub rw : Bool
  pub us : Bool
  pub pwt : Bool
  pub pcd : Bool
  pub a : Bool
  pub d : Bool
  pub bit_7 : Bool
  pub g : Bool
  pub avl : ℕ
  pub addr : ℕ
  pub mpk : ℕ
  pub nx : Bool

abbrev pub empty_entry : Entry
empty_entry = record {
  p = false;
  rw = false;
  us = false;
  pwt = false;
  pcd = false;
  a = false;
  d = false;
  bit_7 = false;
  g = false;
  avl = 0;
  addr = 0;
  mpk = 0;
  nx = false;
}

-- The memory: the entries of the frames that serve as tables, the words of those that hold data, and
-- the static variables of the module.
pub record Vmm : Type 0 where
  pub table : ℕ → ℕ → Entry
  pub page : ℕ → List ℕ
  pub pmm : Pmm
  pub kernel_pml4 : ℕ
  pub hhdm_offset : ℕ

abbrev pub has_flag : ℕ → ℕ → Bool
has_flag flags flag = not (bit_and flags flag == 0)

abbrev pub is_page_aligned : ℕ → Bool
is_page_aligned addr = addr % page_size == 0

abbrev pub page_align : ℕ → ℕ
page_align addr = addr - addr % page_size

-- The field `addr` has 40 bits.
abbrev pub addr_of : ℕ → ℕ
addr_of phys_frame = phys_frame / page_size % 2 ^ 40

abbrev pub populate_pml4e : Entry → ℕ → ℕ → Entry
populate_pml4e e phys_frame flags = record e {
  p = true;
  rw = true;
  us = has_flag flags page_user;
  pwt = false;
  pcd = false;
  a = false;
  addr = addr_of phys_frame;
}

-- `populate_pdpte` and `populate_pde`
abbrev pub populate_pdpte : Entry → ℕ → ℕ → Entry
populate_pdpte e phys_frame flags = record e {
  p = true;
  rw = true;
  us = has_flag flags page_user;
  pwt = false;
  pcd = false;
  a = false;
  bit_7 = false;
  addr = addr_of phys_frame;
}

abbrev pub populate_pte : Entry → ℕ → ℕ → Entry
populate_pte e phys_frame flags = record e {
  p = true;
  rw = has_flag flags page_write;
  us = has_flag flags page_user;
  pwt = false;
  pcd = has_flag flags page_cache_disable;
  a = false;
  d = false;
  bit_7 = false;
  g = has_flag flags page_global;
  addr = addr_of phys_frame;
  nx = has_flag flags page_nx;
}

abbrev pub pml4_idx_of : ℕ → ℕ
pml4_idx_of virt = virt / 2 ^ 39 % 512

abbrev pub pdpt_idx_of : ℕ → ℕ
pdpt_idx_of virt = virt / 2 ^ 30 % 512

abbrev pub pd_idx_of : ℕ → ℕ
pd_idx_of virt = virt / 2 ^ 21 % 512

abbrev pub pt_idx_of : ℕ → ℕ
pt_idx_of virt = virt / 2 ^ 12 % 512

abbrev pub get_kernel_pml4_index : Vmm → ℕ
get_kernel_pml4_index m = pml4_idx_of m.hhdm_offset

abbrev pub write_entry : (ℕ → ℕ → Entry) → ℕ → ℕ → Entry → ℕ → ℕ → Entry
write_entry table t i e s j = if s == t && j == i then e else table s j

abbrev pub zero_page : (ℕ → ℕ → Entry) → ℕ → ℕ → ℕ → Entry
zero_page table t s j = if s == t then empty_entry else table s j

-- A place in a table, as a pointer to an entry.
abbrev pub Place : Type 0
Place = ℕ × ℕ

unfoldable pub find_pte : Vmm → ℕ → ℕ → Option Place
find_pte m pml4 virt =
    let pml4e = m.table pml4 (pml4_idx_of virt) in
    let pdpte = m.table pml4e.addr (pdpt_idx_of virt) in
    let pde = m.table pdpte.addr (pd_idx_of virt) in
    if not pml4e.p
    then none
    else if not pdpte.p
    then none
    else if not pde.p
    then none
    else if not (m.table pde.addr (pt_idx_of virt)).p
    then none
    else some (pde.addr, pt_idx_of virt)

-- `ensure_pdpte_present`, `ensure_pde_present` and `ensure_pte_present`, by the way to fill the entry.
unfoldable pub ensure_present : (Entry → ℕ → ℕ → Entry) → Vmm → ℕ → ℕ → ℕ → Run (Vmm × ℕ)
ensure_present populate m t i flags =
    if (m.table t i).p
    then ok (m, (m.table t i).addr)
    else (alloc_frame m.pmm >>= λ r.
        let (pmm, phys_frame) = r in
        let e = populate (m.table t i) phys_frame flags in
        if is_page_aligned phys_frame
        then (let table = zero_page (write_entry m.table t i e) (phys_frame / page_size) in
            ok (record m { pmm = pmm; table = table }, (table t i).addr))
        else panic)

-- The three `ensure` calls that lead from a root to the table of the last level.
unfoldable pub ensure_path : Vmm → ℕ → (ℕ × ℕ × ℕ) → ℕ → Run (Vmm × ℕ)
ensure_path m pml4 (pml4_idx, pdpt_idx, pd_idx) flags = do
  (m1, pdpt) ← ensure_present populate_pml4e m pml4 pml4_idx flags
  (m2, pd) ← ensure_present populate_pdpte m1 pdpt pdpt_idx flags
  ensure_present populate_pdpte m2 pd pd_idx flags

unfoldable pub map_page_to_frame : Vmm → ℕ → ℕ → ℕ → ℕ → Run Vmm
map_page_to_frame m pml4 virt_page phys_frame flags =
    if is_page_aligned virt_page && is_page_aligned phys_frame
    then (ensure_path m pml4 (pml4_idx_of virt_page, pdpt_idx_of virt_page, pd_idx_of virt_page)
          flags
        >>= λ r.
            let (m3, pt) = r in
            let e = populate_pte (m3.table pt (pt_idx_of virt_page)) phys_frame flags in
            ok (record m3 { table = write_entry m3.table pt (pt_idx_of virt_page) e }))
    else panic

-- The loop of `map_pages`, by the pages left.
unfoldable pub map_pages_loop : ℕ → Vmm → ℕ → ℕ → ℕ → Run Vmm
map_pages_loop zero m pml4 virt_page flags = ok m
map_pages_loop (suc pages) m pml4 virt_page flags = alloc_frame m.pmm >>= λ r.
    map_page_to_frame (record m { pmm = r.0 }) pml4 virt_page r.1 flags >>= λ mapped.
    map_pages_loop pages mapped pml4 (add64 virt_page page_size) flags

-- `bytes` is not 0, and the range starts below its end, or an assertion fails.
unfoldable pub map_pages : Vmm → ℕ → ℕ → ℕ → ℕ → Run Vmm
map_pages m pml4 virt_addr bytes flags =
    let page_start = page_align virt_addr in
    let page_end = page_align (add64 (add64 virt_addr bytes) (page_size - 1)) in
    if ltb 0 bytes && ltb page_start page_end
    then map_pages_loop ((page_end - page_start) / page_size) m pml4 page_start flags
    else panic

abbrev pub map_user_pages : Vmm → ℕ → ℕ → ℕ → Run Vmm
map_user_pages m pml4 virt bytes = map_pages m pml4 virt bytes (page_user + page_write)

unfoldable pub unmap_page : Vmm → ℕ → ℕ → Run Vmm
unmap_page m pml4 virt_page =
    if is_page_aligned virt_page
    then elim (find_pte m pml4 virt_page) [
      | none ↦ ok m
      | some place ↦ free_frame m.pmm ((m.table place.0 place.1).addr * page_size) >>= λ pmm.
          ok (record m { pmm = pmm; table = write_entry m.table place.0 place.1 empty_entry })
    ]
    else panic

-- The loop of `unmap_mem_at` and of `free_kernel`, by the pages left.
unfoldable pub unmap_mem_at : ℕ → Vmm → ℕ → ℕ → Run Vmm
unmap_mem_at zero m pml4 virt_page = ok m
unmap_mem_at (suc num_pages) m pml4 virt_page = unmap_page m pml4 virt_page >>= λ unmapped.
    unmap_mem_at num_pages unmapped pml4 (add64 virt_page page_size)
