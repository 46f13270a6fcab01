-- ===== src/Vmm/Cursor.antt =====
-- The heap cursor of vmm.cpp walks the address space page by page.
use hltos.Base.{ℕ, ◌+◌, ◌*◌, ◌%◌, ◌^◌, ◌≤◌, ◌<◌, ◌≡◌, ◌≢◌, sym, ap, ◌∙◌, ◌↔◌, true, arith}
use hltos.Vmm.{is_page_aligned, page_size, pml4_idx_of, pdpt_idx_of, pd_idx_of, pt_idx_of}
use hltos.Vmm.Kheap.{
  Heap, canonical, get_next_heap_virt_page, advance_heap, is_user_addr, user_max_addr,
}

-- Every index lies in its table.
abbrev pub InTables : Heap → Type 0
InTables h = (h.pml4_idx < 512) × (h.pdpt_idx < 512) × (h.pd_idx < 512) × (h.pt_idx < 512)

-- The number of pages before the cursor.
abbrev pub position : Heap → ℕ
position h = ((h.pml4_idx * 512 + h.pdpt_idx) * 512 + h.pd_idx) * 512 + h.pt_idx

pub advance_heap-position : (h : Heap) → InTables h → position (advance_heap h) ≡ position h + 1
unfolding advance_heap
advance_heap-position h b = ground (arith, b)

pub advance_heap-InTables :
    (h : Heap) → InTables h → position h + 1 < 2 ^ 36 → InTables (advance_heap h)
unfolding advance_heap
advance_heap-InTables h b more = ground (arith, b, more)

virt_page-position :
    (h : Heap) → InTables h → get_next_heap_virt_page h ≡ canonical (position h * page_size)
unfolding get_next_heap_virt_page
virt_page-position h b =
    let whole : h.pml4_idx % 512 * 2 ^ 39
          + h.pdpt_idx % 512 * 2 ^ 30
          + h.pd_idx % 512 * 2 ^ 21
          + h.pt_idx % 512 * 2 ^ 12
        ≡ position h * page_size =
      omega (arith, b) in
    ap canonical whole

-- The address of a cursor whose indices lie in their tables is aligned to a page and selects the
-- entries that the cursor names.
pub virt_page-indices :
    (h : Heap)
    → InTables h
    → (is_page_aligned (get_next_heap_virt_page h) ≡ true)
      × (pml4_idx_of (get_next_heap_virt_page h) ≡ h.pml4_idx)
      × (pdpt_idx_of (get_next_heap_virt_page h) ≡ h.pdpt_idx)
      × (pd_idx_of (get_next_heap_virt_page h) ≡ h.pd_idx)
      × (pt_idx_of (get_next_heap_virt_page h) ≡ h.pt_idx)
virt_page-indices h b = rw (virt_page-position h b) (ground (arith, b))

-- The cursor moves by one page, and stays in the tables, unless it is on the last page of the lower
-- half or of the address space: so a block of pages is contiguous.
pub advance_heap-page :
    (h : Heap)
    → InTables h
    → position h + 1 < 2 ^ 36
    → position h + 1 ≢ 2 ^ 35
    → InTables (advance_heap h)
      × (get_next_heap_virt_page (advance_heap h) ≡ get_next_heap_virt_page h + page_size)
advance_heap-page h b more low =
    let next = advance_heap-InTables h b more in
    (
      next,
      virt_page-position (advance_heap h) next
          ∙ ap (λ p. canonical (p * page_size)) (advance_heap-position h b)
          ∙ step (position h) more low
          ∙ ap (λ v. v + page_size) (sym (virt_page-position h b)),
    )
  where
    step :
        (p : ℕ)
        → p + 1 < 2 ^ 36
        → p + 1 ≢ 2 ^ 35
        → canonical ((p + 1) * page_size) ≡ canonical (p * page_size) + page_size
    step p m l = ground arith

-- The test of a range is exact: every byte of it lies below the end of user memory.
pub is_user_addr-range :
    (addr size : ℕ)
    → (is_user_addr addr size ≡ true) ↔ ((addr < user_max_addr) × (addr + size ≤ user_max_addr))
unfolding is_user_addr
is_user_addr-range addr size = ground arith
