-- ===== src/Vmm/Tests.antt =====
-- Page tables of vmm.cpp at work, and the theorems at inputs.
use hltos.Base.{
  ℕ, ◌+◌, ◌-◌, ◌^◌, ◌≡◌, refl, sym, ap, ◌∙◌, true, some, [], ◌∷◌, arith, ◌==◌, if◌then◌else◌,
}
use hltos.Base.Run.{ok}
use hltos.Pmm.{Pmm}
use hltos.Pmm.Bitmap.{frame_bit, HasBit}
use hltos.Pmm.Supply.{supply, free_among}
use hltos.Vmm.{Entry, Vmm, empty_entry, find_pte, unmap_page, map_pages}
use hltos.Vmm.Kheap.{Heap, get_next_heap_virt_page, advance_heap}
use hltos.Vmm.Spaces.{create_user_pml4}
use hltos.Vmm.Walk.{page_number, walk}
use hltos.Vmm.Growth.{Ready, Tree}
use hltos.Vmm.Translate.{translate}
use hltos.Vmm.Unmap.{Unmapped, unmap_page-Unmapped}
use hltos.Vmm.MapPages.{RangeOutcome, map_pages-RangeMapped}
use hltos.Vmm.Cursor.{InTables, advance_heap-page}
use hltos.Vmm.Fresh.{FreshSpace, create_user_pml4-FreshSpace}

-- Frames 0 to 4 are used, the others up to 15 are free.
abbrev frames : Pmm
frames = record {
  frame_bitmap = 31 ∷ [];
  frame_bitmap_start = 5;
  frame_bitmap_end = 16;
  total_memory = 65536;
  total_frames = 16;
  free_frames = 11;
}

abbrev leads_to : ℕ → Entry
leads_to frame = record empty_entry { p = true; addr = frame }

-- Page 0 is mapped to frame 4 through the tables 0, 1, 2 and 3.
abbrev tables : ℕ → ℕ → Entry
tables t i =
    if i == 0
    then (if t == 0
        then leads_to 1
        else if t == 1
        then leads_to 2
        else if t == 2
        then leads_to 3
        else if t == 3
        then leads_to 4
        else empty_entry)
    else empty_entry

abbrev memory : Vmm
memory = record {
  table = tables;
  page = λ f. [];
  pmm = frames;
  kernel_pml4 = 0;
  hhdm_offset = 2 ^ 64 - 2 ^ 47;
}

abbrev keys : ℕ → ℕ
keys s =
    if s == 0
    then 1
    else if s == 1
    then 512
    else if s == 2
    then 262144
    else if s == 3
    then 134217728
    else 0

frames_left : supply frames ≡ 11
unfolding supply free_among frame_bit
frames_left = refl

frames-Ready : Ready keys frames
frames-Ready = record {
  valid = omega arith;
  small = omega arith;
  fresh = λ g b1 b2 free. ground (arith, b1);
}

memory-Tree : Tree 0 256 0 keys memory
memory-Tree = record {
  top = refl;
  tree = λ t i k1 k2 b area present. ground (arith, k1, k2, present);
  ready = frames-Ready;
}

found_page : find_pte memory 0 17 ≡ some (3, 0)
unfolding find_pte
found_page = refl

page_0 : translate tables 0 (page_number 0) ≡ some (leads_to 4)
unfolding walk
page_0 = refl

same_entry : (d e : Entry) → some d ≡ some e → d ≡ e
same_entry d e h = cc

page_0_data :
    (e : Entry)
    → translate tables 0 (page_number 0) ≡ some e
    → (keys e.addr ≡ 0) × HasBit frames e.addr
page_0_data e h =
    let same : leads_to 4 ≡ e = same_entry (leads_to 4) e (sym page_0 ∙ h) in
    let addr : e.addr ≡ 4 = ap (λ (w : Entry). w.addr) (sym same) in
    (ap keys addr, omega (arith, addr))

unmap_page-Unmapped_example :
    (m' : Vmm) × (unmap_page memory 0 0 ≡ ok m') × Unmapped 0 256 0 (page_number 0) keys memory m'
unmap_page-Unmapped_example =
    unmap_page-Unmapped 0 256 0 0 keys memory memory-Tree (omega arith) refl page_0_data

map_pages-RangeMapped_example :
    RangeOutcome 0 256 0 4096 2 6 keys memory (map_pages memory 0 5000 5000 6)
map_pages-RangeMapped_example =
    map_pages-RangeMapped 0 256 0 5000 5000 6 keys memory (omega arith) (omega arith)
      (refl, omega arith, omega arith, (λ j h. omega (arith, h))) memory-Tree
      (omega (arith, frames_left))

abbrev cursor : Heap
cursor = record { pml4_idx = 257; pdpt_idx = 0; pd_idx = 3; pt_idx = 511 }

advance_heap-page_example :
    InTables (advance_heap cursor)
    × (get_next_heap_virt_page (advance_heap cursor) ≡ get_next_heap_virt_page cursor + 4096)
advance_heap-page_example = advance_heap-page cursor (omega arith) (omega arith) (omega arith)

frame_0_used : frame_bit frames 0 ≡ 1
unfolding frame_bit
frame_0_used = refl

create_user_pml4-FreshSpace_example :
    (m' : Vmm) × (root : ℕ) × (create_user_pml4 memory ≡ ok (m', root)) × FreshSpace memory m' root
create_user_pml4-FreshSpace_example =
    create_user_pml4-FreshSpace memory
      (record { valid = omega arith; small = omega arith; fresh = λ g b1 b2 free. refl })
      frame_0_used (omega (arith, frames_left))
