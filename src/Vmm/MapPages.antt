-- ===== src/Vmm/MapPages.antt =====
-- The loop of `map_pages` of vmm.cpp, and `map_pages`.
use hltos.Base.{
  ℕ, zero, suc, ◌+◌, ◌-◌, ◌*◌, ◌/◌, ◌≤◌, ◌<◌, ◌≡◌, refl, true, ◌&&◌, arith, ltb, add64, u64_mod,
}
use hltos.Base.Run.{Run, ok}
use hltos.Pmm.{Pmm, alloc_frame}
use hltos.Pmm.Alloc.{Allocated}
use hltos.Pmm.Supply.{supply, supply-Allocated, alloc_frame-supply}
use hltos.Vmm.{Vmm, page_align, page_size, map_page_to_frame, map_pages_loop, map_pages}
use hltos.Vmm.Walk.{page_number}
use hltos.Vmm.Growth.{Tree}
use hltos.Vmm.Pages.{Mapped, map_page_to_frame-Mapped}
use hltos.Vmm.Ranges.{InRange, RangeMapped, RangeMapped-cons, InRange-next, Ready-Allocated}

-- What the loop of `map_pages` gives.
abbrev pub RangeOutcome : ℕ → ℕ → ℕ → ℕ → ℕ → ℕ → (ℕ → ℕ) → Vmm → Run Vmm → Type 0
RangeOutcome lo hi root virt pages flags own m r =
    (m' : Vmm) × (r ≡ ok m') × RangeMapped lo hi root virt pages flags own m m'

loop_step :
    (pages root virt flags addr : ℕ) (m m1 m2 : Vmm) (q : Pmm)
    → alloc_frame m.pmm ≡ ok (q, addr)
    → map_page_to_frame (record m { pmm = q }) root virt addr flags ≡ ok m1
    → map_pages_loop pages m1 root (add64 virt page_size) flags ≡ ok m2
    → map_pages_loop (suc pages) m root virt flags ≡ ok m2
unfolding map_pages_loop
loop_step pages root virt flags addr m m1 m2 q got mapped rest = rw (got, mapped) rest

-- The loop on the pages behind the first.
abbrev LaterPages : ℕ → ℕ → ℕ → ℕ → ℕ → ℕ → Type 0
LaterPages lo hi root virt pages flags =
    (own : ℕ → ℕ) (m : Vmm)
    → Tree lo hi root own m
    → 4 * pages ≤ supply m.pmm
    → RangeOutcome lo hi root virt pages flags own m (map_pages_loop pages m root virt flags)

module _ (pages lo hi root virt flags : ℕ) (own : ℕ → ℕ) (m : Vmm)
    (range : InRange lo hi virt (suc pages)) (t : Tree lo hi root own m) where
  after_rest :
      (q : Pmm) (addr : ℕ) (m1 : Vmm)
      → alloc_frame m.pmm ≡ ok (q, addr)
      → Allocated m.pmm m.pmm.frame_bitmap_start q addr
      → map_page_to_frame (record m { pmm = q }) root virt addr flags ≡ ok m1
      → (first : Mapped lo hi root (page_number virt) addr flags own (record m { pmm = q }) m1)
      → RangeOutcome lo hi root
          (add64 virt page_size)
          pages
          flags
          first.own'
          m1
          (map_pages_loop pages m1 root (add64 virt page_size) flags)
      → RangeOutcome lo hi root virt
          (suc pages)
          flags
          own
          m
          (map_pages_loop (suc pages) m root virt flags)
  after_rest q addr m1 got a mapped first (m2, done, r) = (
    m2,
    loop_step pages root virt flags addr m m1 m2 q got mapped done,
    RangeMapped-cons lo hi root virt pages flags addr own m m1 m2 q range t a first r,
  )

  after_map :
      (q : Pmm) (addr : ℕ)
      → 4 * suc pages ≤ supply m.pmm
      → LaterPages lo hi root (add64 virt page_size) pages flags
      → alloc_frame m.pmm ≡ ok (q, addr)
      → Allocated m.pmm m.pmm.frame_bitmap_start q addr
      → (m1 : Vmm) × (map_page_to_frame (record m { pmm = q }) root virt addr flags ≡ ok m1)
        × Mapped lo hi root (page_number virt) addr flags own (record m { pmm = q }) m1
      → RangeOutcome lo hi root virt
          (suc pages)
          flags
          own
          m
          (map_pages_loop (suc pages) m root virt flags)
  after_map q addr left later got a (m1, mapped, first) = after_rest q addr m1 got a mapped first (
      later first.own' m1 first.is_tree
        (omega (arith, left, supply-Allocated m.pmm q addr a, first.supplied)))

  after_alloc :
      4 * suc pages ≤ supply m.pmm
      → LaterPages lo hi root (add64 virt page_size) pages flags
      → (q : Pmm) × (addr : ℕ) × (alloc_frame m.pmm ≡ ok (q, addr))
        × Allocated m.pmm m.pmm.frame_bitmap_start q addr
      → RangeOutcome lo hi root virt
          (suc pages)
          flags
          own
          m
          (map_pages_loop (suc pages) m root virt flags)
  after_alloc left later (q, addr, got, a) = after_map q addr left later got a (
      map_page_to_frame-Mapped lo hi root virt addr flags own (record m { pmm = q })
        (record { top = t.top; tree = t.tree; ready = Ready-Allocated own m.pmm q addr t.ready a })
        (omega (arith, range.3 0 (omega arith))) range.0 (ground (arith, a.address))
        (omega (arith, left, supply-Allocated m.pmm q addr a)))

pub map_pages_loop-RangeMapped :
    (pages lo hi root virt flags : ℕ) (own : ℕ → ℕ) (m : Vmm)
    → InRange lo hi virt pages
    → Tree lo hi root own m
    → 4 * pages ≤ supply m.pmm
    → RangeOutcome lo hi root virt pages flags own m (map_pages_loop pages m root virt flags)
unfolding map_pages_loop
map_pages_loop-RangeMapped zero lo hi root virt flags own m range t left = (
  m,
  refl,
  record {
    own' = own;
    is_tree = t;
    frame = λ j. 0;
    mapped = λ j h. absurd (omega (arith, h));
    was_free = λ j h. absurd (omega (arith, h));
    is_data = λ j h. absurd (omega (arith, h));
    distinct = λ i j h b. absurd (omega (arith, b));
    others = λ k c off. refl;
    used = λ s h. (refl, h);
  },
)
map_pages_loop-RangeMapped (suc pages) lo hi root virt flags own m range t left =
    after_alloc pages lo hi root virt flags own m range t left
      (λ own1 m1 t1 left1.
        map_pages_loop-RangeMapped pages lo hi root (add64 virt page_size) flags own1 m1
          (InRange-next lo hi virt pages range) t1 left1)
      (alloc_frame-supply m.pmm t.ready.valid (omega (arith, left)))

-- The pages that the bytes lie on.
abbrev pub page_count : ℕ → ℕ → ℕ
page_count virt bytes = (virt + bytes - 1) / page_size + 1 - virt / page_size

-- Bytes in a region of a tree of page tables, with four frames left for each of their pages: `map_pages`
-- maps every page that the bytes lie on, with the flags, each to a frame of its own that was free, and
-- leaves every other page of the region as it is.
pub map_pages-RangeMapped :
    (lo hi root virt bytes flags : ℕ) (own : ℕ → ℕ) (m : Vmm)
    → 0 < bytes
    → virt + bytes + page_size ≤ u64_mod
    → InRange lo hi (page_align virt) (page_count virt bytes)
    → Tree lo hi root own m
    → 4 * page_count virt bytes ≤ supply m.pmm
    → RangeOutcome lo hi root
        (page_align virt)
        (page_count virt bytes)
        flags
        own
        m
        (map_pages m root virt bytes flags)
unfolding map_pages
map_pages-RangeMapped lo hi root virt bytes flags own m some_bytes fits range t left =
    let start = page_align virt in
    let end = page_align (add64 (add64 virt bytes) (page_size - 1)) in
    let pages : (end - start) / page_size ≡ page_count virt bytes =
      omega (arith, some_bytes, fits) in
    let test : (ltb 0 bytes && ltb start end) ≡ true = ground (arith, some_bytes, fits, below) in
    rw (test, pages)
      (map_pages_loop-RangeMapped (page_count virt bytes) lo hi root start flags own m range t left)
  where
    below : page_align virt < page_align (add64 (add64 virt bytes) (page_size - 1))
    below = omega (arith, some_bytes, fits)
