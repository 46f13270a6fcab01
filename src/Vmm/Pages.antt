-- ===== src/Vmm/Pages.antt =====
-- `map_page_to_frame` and `unmap_page` of vmm.cpp against the map from pages to entries.
use hltos.Base.{
  ℕ, ◌+◌, ◌/◌, ◌%◌, ◌^◌, ◌≤◌, ◌<◌, ◌≡◌, ◌≢◌, refl, ap, ◌∙◌, inl, inr, true, false, Option, none,
  some, ◌&&◌, arith, ◌==◌, Bool-cases,
}
use hltos.Base.Run.{ok}
use hltos.Pmm.Supply.{supply}
use hltos.Vmm.{
  Entry, Vmm, Place, write_entry, addr_of, is_page_aligned, has_flag, page_write, page_user,
  page_nx, page_cache_disable, page_global, populate_pte, ensure_path, map_page_to_frame,
}
use hltos.Vmm.Walk.{page_number, up, walk, Covers, walk-place, walk_leaf}
use hltos.Vmm.Growth.{Tree, SameRest, UsedKept}
use hltos.Vmm.Paths.{Reached, PathOutcome, ensure_path-Reached}
use hltos.Vmm.Translate.{entry_at, translate, Tree-leaf, translate-leaf_other, write_entry-other}

-- The entry of a page that is mapped to the frame at `phys` with these flags, each of which sets its bit;
-- the other bits of the entry that the processor reads are clear.
pub record Maps (e : Entry) (phys flags : ℕ) : Type 0 where
  pub present : e.p ≡ true
  pub addr : e.addr ≡ addr_of phys
  pub rw : e.rw ≡ has_flag flags page_write
  pub us : e.us ≡ has_flag flags page_user
  pub nx : e.nx ≡ has_flag flags page_nx
  pub pcd : e.pcd ≡ has_flag flags page_cache_disable
  pub g : e.g ≡ has_flag flags page_global
  pub pwt : e.pwt ≡ false
  pub pat : e.bit_7 ≡ false
  pub not_accessed : e.a ≡ false
  pub not_dirty : e.d ≡ false

-- `m'` maps page `n` by `e` and every other page of the region as `m` does.
abbrev pub Updated : ℕ → ℕ → ℕ → ℕ → Vmm → Vmm → Option Entry → Type 0
Updated lo hi root n m m' e =
    (translate m'.table root n ≡ e)
    × ((k : ℕ) → Covers lo hi k → k ≢ n → translate m'.table root k ≡ translate m.table root k)

pub record Mapped (lo hi root n phys flags : ℕ) (own : ℕ → ℕ) (m m' : Vmm) : Type 0 where
  pub own' : ℕ → ℕ
  pub known : (s : ℕ) → 0 < own s → own' s ≡ own s
  pub is_tree : Tree lo hi root own' m'
  pub entry : Entry
  pub maps : Maps entry phys flags
  pub updated : Updated lo hi root n m m' (some entry)
  pub used : UsedKept own m.pmm own' m'.pmm
  pub supplied : supply m.pmm ≤ 3 + supply m'.pmm
  pub rest : SameRest m m'

other_key : (own : ℕ → ℕ) (t i s j : ℕ) → own s ≢ own t → (s == t && j == i) ≡ false
other_key own t i s j other = elim (Bool-cases (s == t && j == i)) [
  | inl both ↦ let tables : s ≡ t = ground (arith, both) in absurd (other (ap own tables))
  | inr h ↦ h
]

module _ (lo hi root n : ℕ) (own : ℕ → ℕ) (m : Vmm) where
  -- `ensure_path` alone leaves the map as it is.
  translate-Reached :
      (m' : Vmm) (pt k : ℕ)
      → Tree lo hi root own m
      → Covers lo hi k
      → Reached lo hi root n own m m' pt
      → translate m'.table root k ≡ translate m.table root k
  translate-Reached m' pt k t c r =
      ap (entry_at m'.table) (r.walks k c) ∙ same_entry (walk m.table 3 root k) refl
    where
      same_entry :
          (found : Option Place)
          → walk m.table 3 root k ≡ found
          → entry_at m'.table found ≡ entry_at m.table found
      same_entry none e = refl
      same_entry (some (s, i)) e =
          let (key, index, present) =
            walk-place lo hi own m.table 3 root k s i t.tree c (omega arith)
              (omega (arith, t.top, c)) e in
          ap some (r.leaves s i (omega (arith, key, c)))

  Mapped-write :
      (m3 : Vmm) (pt phys flags : ℕ)
      → Tree lo hi root own m
      → Covers lo hi n
      → Reached lo hi root n own m m3 pt
      → Mapped lo hi root n phys flags own m (record m3 {
        table = write_entry m3.table pt (n % 512) (populate_pte (m3.table pt (n % 512)) phys flags);
      })
  Mapped-write m3 pt phys flags t c r =
      let e = populate_pte (m3.table pt (n % 512)) phys flags in
      let table' = write_entry m3.table pt (n % 512) e in
      let here : table' pt (n % 512) ≡ e = written_here m3.table pt (n % 512) e in
      let inner = λ (s j : ℕ) (k1 : 0 < r.own' s) (k2 : r.own' s < 2 ^ 27).
        write_entry-other m3.table pt (n % 512) s j e
          (other_key r.own' pt (n % 512) s j (λ h. omega (arith, h, r.key, c, k2))) in
      record {
        own' = r.own';
        known = r.known;
        is_tree = Tree-leaf lo hi root n pt r.own' m3 e r.is_tree c r.key m3.pmm r.is_tree.ready;
        entry = e;
        maps = record {
          present = refl;
          addr = refl;
          rw = refl;
          us = refl;
          nx = refl;
          pcd = refl;
          g = refl;
          pwt = refl;
          pat = refl;
          not_accessed = refl;
          not_dirty = refl;
        };
        updated = (
          ap (entry_at table')
                (r.leads table' inner ∙ walk_leaf table' pt n (ap (λ (w : Entry). w.p) here))
              ∙ ap some here,
          λ k ck other.
              translate-leaf_other lo hi root n pt r.own' m3 e k r.is_tree c ck r.key other
              ∙ translate-Reached m3 pt k t ck r,
        );
        used = r.used;
        supplied = r.supplied;
        rest = record {
          page = r.rest.page;
          kernel_pml4 = r.rest.kernel_pml4;
          hhdm_offset = r.rest.hhdm_offset;
        };
      }
    where
      written_here : (table : ℕ → ℕ → Entry) (s j : ℕ) (e : Entry) → write_entry table s j e s j ≡ e
      written_here table s j e = let same : (s == s && j == j) ≡ true = ground arith in rw same refl

-- While three frames are left, `map_page_to_frame` maps the page to the frame with the flags, and every
-- other page of the region is mapped as before.
map_with :
    (lo hi root virt phys flags : ℕ) (own : ℕ → ℕ) (m m3 : Vmm) (pt : ℕ)
    → is_page_aligned virt ≡ true
    → is_page_aligned phys ≡ true
    → ensure_path m root
        (
          up 3 (page_number virt) % 512,
          up 2 (page_number virt) % 512,
          up 1 (page_number virt) % 512,
        )
        flags
      ≡ ok (m3, pt)
    → map_page_to_frame m root virt phys flags
      ≡ ok (record m3 {
        table =
            write_entry m3.table pt
              (page_number virt % 512)
              (populate_pte (m3.table pt (page_number virt % 512)) phys flags);
      })
unfolding map_page_to_frame
map_with lo hi root virt phys flags own m m3 pt v_ok p_ok done =
    let e3 : virt / 2 ^ 39 % 512 ≡ up 3 (page_number virt) % 512 = omega arith in
    let e2 : virt / 2 ^ 30 % 512 ≡ up 2 (page_number virt) % 512 = omega arith in
    let e1 : virt / 2 ^ 21 % 512 ≡ up 1 (page_number virt) % 512 = omega arith in
    let e0 : virt / 2 ^ 12 % 512 ≡ page_number virt % 512 = omega arith in
    rw (v_ok, p_ok, e3, e2, e1, done, e0) refl

pub map_page_to_frame-Mapped :
    (lo hi root virt phys flags : ℕ) (own : ℕ → ℕ) (m : Vmm)
    → Tree lo hi root own m
    → Covers lo hi (page_number virt)
    → is_page_aligned virt ≡ true
    → is_page_aligned phys ≡ true
    → 3 ≤ supply m.pmm
    → (m' : Vmm) × (map_page_to_frame m root virt phys flags ≡ ok m')
      × Mapped lo hi root (page_number virt) phys flags own m m'
map_page_to_frame-Mapped lo hi root virt phys flags own m t c v_ok p_ok left =
    finish (ensure_path-Reached lo hi root (page_number virt) flags own m t c left)
  where
    finish :
        PathOutcome lo hi root (page_number virt) flags own m
        → (m' : Vmm) × (map_page_to_frame m root virt phys flags ≡ ok m')
          × Mapped lo hi root (page_number virt) phys flags own m m'
    finish (m3, pt, done, r) = (
      _,
      map_with lo hi root virt phys flags own m m3 pt v_ok p_ok done,
      Mapped-write lo hi root (page_number virt) own m m3 pt phys flags t c r,
    )
