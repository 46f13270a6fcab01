-- ===== src/Vmm/Unmap.antt =====
-- `unmap_page` of vmm.cpp against the map from pages to entries.
use hltos.Base.{
  ℕ, ◌*◌, ◌/◌, ◌%◌, ◌≡◌, refl, sym, ap, ◌∙◌, true, Option, none, some, ◌&&◌, arith, ◌==◌,
  if◌then◌else◌, Bool-cases, inl, inr,
}
use hltos.Base.Run.{ok}
use hltos.Pmm.{Pmm, frame_size, free_frame, set_frame_free}
use hltos.Pmm.Bitmap.{frame_bit, HasBit, Marks, set_frame_free-Marks}
use hltos.Vmm.{
  Entry, Vmm, Place, empty_entry, write_entry, is_page_aligned, page_size, find_pte, unmap_page,
}
use hltos.Vmm.Walk.{page_number, up, walk, find_pte-walk, Covers, walk-place, walk-cleared}
use hltos.Vmm.Growth.{Ready, Tree}
use hltos.Vmm.Translate.{entry_at, translate, Tree-leaf, translate-leaf_other, write_entry-other}
use hltos.Vmm.Pages.{Updated}

-- The frame of the page, if it is mapped, is no table and has a bit in the bitmap.
abbrev pub IsData : (ℕ → ℕ) → ℕ → ℕ → Vmm → Type 0
IsData own root n m =
    (e : Entry) → translate m.table root n ≡ some e → (own e.addr ≡ 0) × HasBit m.pmm e.addr

pub record Unmapped (lo hi root n : ℕ) (own : ℕ → ℕ) (m m' : Vmm) : Type 0 where
  pub is_tree : Tree lo hi root own m'
  pub updated : Updated lo hi root n m m' none
  -- The frame is free again.
  pub freed :
      (e : Entry)
      → translate m.table root n ≡ some e
      → (g : ℕ) → frame_bit m'.pmm g ≡ (if e.addr == g then 0 else frame_bit m.pmm g)

unmap_absent :
    (m : Vmm) (root virt : ℕ)
    → is_page_aligned virt ≡ true
    → find_pte m root virt ≡ none
    → unmap_page m root virt ≡ ok m
unfolding unmap_page
unmap_absent m root virt aligned absent = rw (aligned, absent) refl

unmap_present :
    (m : Vmm) (root virt t i : ℕ) (q : Pmm)
    → is_page_aligned virt ≡ true
    → find_pte m root virt ≡ some (t, i)
    → free_frame m.pmm ((m.table t i).addr * page_size) ≡ ok q
    → unmap_page m root virt
      ≡ ok (record m { pmm = q; table = write_entry m.table t i empty_entry })
unfolding unmap_page
unmap_present m root virt t i q aligned found freed = rw (aligned, found, freed) refl

-- A frame that is no table may be free.
Ready-freed :
    (own : ℕ → ℕ) (p q : Pmm) (frame : ℕ)
    → Ready own p
    → Marks p q frame 0
    → own frame ≡ 0
    → Ready own q
Ready-freed own p q frame r marks no_table = record {
  valid = omega (arith, r.valid, marks.end, marks.size);
  small = omega (arith, r.small, marks.end);
  fresh = λ g b1 b2 clear. elim (Bool-cases (frame == g)) [
    | inl here ↦ let same : frame ≡ g = ground (arith, here) in ap own (sym same) ∙ no_table
    | inr other ↦
        r.fresh g (omega (arith, b1, marks.start)) (omega (arith, b2, marks.end))
          (sym (marks.bits g ∙ rw other refl) ∙ clear)
  ];
}

same_addr :
    (p : Pmm) (d e : Entry)
    → some d ≡ some e
    → (g : ℕ)
    → (if d.addr == g then 0 else frame_bit p g) ≡ (if e.addr == g then 0 else frame_bit p g)
same_addr p d e h g =
    let same : d ≡ e = cc in ap (λ (w : Entry). if w.addr == g then 0 else frame_bit p g) same

module _ (lo hi root virt s : ℕ) (own : ℕ → ℕ) (m : Vmm) where
  abbrev n : ℕ
  n = page_number virt

  abbrev cleared : ℕ → ℕ → Entry
  cleared = write_entry m.table s (n % 512) empty_entry

  Updated-cleared :
      Tree lo hi root own m
      → Covers lo hi n
      → own s ≡ up 1 n
      → walk m.table 3 root n ≡ some (s, n % 512)
      → (q : Pmm) → Updated lo hi root n m (record m { pmm = q; table = cleared }) none
  Updated-cleared t c key found q = (
    ap (entry_at cleared) (
        walk-cleared lo hi own m.table cleared s 3 root n t.tree
          (λ u j h off. write_entry-other m.table s (n % 512) u j empty_entry off) c key
          (rw here refl) (omega arith) (omega (arith, t.top, c)) found),
    λ k ck other. translate-leaf_other lo hi root n s own m empty_entry k t c ck key other,
  )
    where
      here : (s == s && n % 512 == n % 512) ≡ true
      here = ground arith

  unmap_found :
      Tree lo hi root own m
      → Covers lo hi n
      → is_page_aligned virt ≡ true
      → IsData own root n m
      → own s ≡ up 1 n
      → walk m.table 3 root n ≡ some (s, n % 512)
      → (m' : Vmm) × (unmap_page m root virt ≡ ok m') × Unmapped lo hi root n own m m'
  unfolding free_frame
  unmap_found t c aligned safe key found =
      let frame = (m.table s (n % 512)).addr in
      let mapped : translate m.table root n ≡ some (m.table s (n % 512)) =
        ap (entry_at m.table) found in
      let (no_table, bit) = safe (m.table s (n % 512)) mapped in
      let (q, freed, marks, counted) = set_frame_free-Marks m.pmm frame bit in
      let index : frame * page_size / frame_size ≡ frame = omega arith in
      (
        record m { pmm = q; table = cleared },
        unmap_present m root virt s (n % 512) q aligned (find_pte-walk m root virt ∙ found)
            (ap (set_frame_free m.pmm) index ∙ freed),
        record {
          is_tree =
              Tree-leaf lo hi root n s own m empty_entry t c key q
                (Ready-freed own m.pmm q frame t.ready marks no_table);
          updated = Updated-cleared t c key found q;
          freed =
              λ e h g. marks.bits g ∙ same_addr m.pmm (m.table s (n % 512)) e (sym mapped ∙ h) g;
        },
      )

  unmap_missing :
      Tree lo hi root own m
      → is_page_aligned virt ≡ true
      → walk m.table 3 root n ≡ none
      → (m' : Vmm) × (unmap_page m root virt ≡ ok m') × Unmapped lo hi root n own m m'
  unmap_missing t aligned absent = (
    m,
    unmap_absent m root virt aligned (find_pte-walk m root virt ∙ absent),
    record {
      is_tree = t;
      updated = (ap (entry_at m.table) absent, (λ k ck other. refl));
      freed = λ e h g. absurd (none_some (sym (ap (entry_at m.table) absent) ∙ h));
    },
  )
    where
      none_some : {e : Entry} → none ≡ some e → ⊥
      none_some h = cc

-- `unmap_page` takes the page out of the map, gives its frame back, and leaves every other page of the
-- region as it is. A page that is not mapped changes nothing.
pub unmap_page-Unmapped :
    (lo hi root virt : ℕ) (own : ℕ → ℕ) (m : Vmm)
    → Tree lo hi root own m
    → Covers lo hi (page_number virt)
    → is_page_aligned virt ≡ true
    → IsData own root (page_number virt) m
    → (m' : Vmm) × (unmap_page m root virt ≡ ok m')
      × Unmapped lo hi root (page_number virt) own m m'
unmap_page-Unmapped lo hi root virt own m t c aligned safe =
    cases (walk m.table 3 root (page_number virt)) refl
  where
    cases :
        (found : Option Place)
        → walk m.table 3 root (page_number virt) ≡ found
        → (m' : Vmm) × (unmap_page m root virt ≡ ok m')
          × Unmapped lo hi root (page_number virt) own m m'
    cases none e = unmap_missing lo hi root virt 0 own m t aligned e
    cases (some (s, i)) e =
        let (key, index, present) =
          walk-place lo hi own m.table 3 root (page_number virt) s i t.tree c (omega arith)
            (omega (arith, t.top, c)) e in
        unmap_found lo hi root virt s own m t c aligned safe key (e ∙ ap (λ j. some (s, j)) index)
