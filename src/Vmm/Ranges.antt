-- ===== src/Vmm/Ranges.antt =====
-- `map_pages` of vmm.cpp: a range of pages, each on a frame of its own.
use hltos.Base.{
  ℕ, zero, suc, ◌+◌, ◌*◌, ◌%◌, ◌^◌, ◌≤◌, ◌<◌, ◌≡◌, ◌≢◌, refl, sym, ap, ◌∙◌, true, some, arith, ◌==◌,
  add64, u64_mod, Bool-cases, inl, inr,
}
use mathlib.Core.Path.{subst}
use hltos.Pmm.{Pmm}
use hltos.Pmm.Bitmap.{frame_bit, frame_bit_bound}
use hltos.Pmm.Alloc.{Allocated}
use hltos.Vmm.{Entry, Vmm, is_page_aligned, page_size}
use hltos.Vmm.Walk.{page_number, Covers}
use hltos.Vmm.Growth.{Ready, Tree, UsedKept}
use hltos.Vmm.Translate.{translate}
use hltos.Vmm.Pages.{Maps, Mapped}

-- The pages from `virt` on.
abbrev pub page_at : ℕ → ℕ → ℕ
page_at virt j = page_number virt + j

-- The range lies in the region.
abbrev pub InRange : ℕ → ℕ → ℕ → ℕ → Type 0
InRange lo hi virt pages =
    (is_page_aligned virt ≡ true)
    × (virt + pages * page_size ≤ u64_mod)
    × (virt % 2 ^ 48 + pages * page_size ≤ 2 ^ 48)
    × ((j : ℕ) → j < pages → Covers lo hi (page_at virt j))

-- Page `j` of the range is mapped with the flags to `frame j`, which was free before, is used now and is
-- no table; no two pages share a frame; all other pages of the region are mapped as before.
pub record RangeMapped (lo hi root virt pages flags : ℕ) (own : ℕ → ℕ) (m m' : Vmm) : Type 0 where
  pub own' : ℕ → ℕ
  pub is_tree : Tree lo hi root own' m'
  pub frame : ℕ → ℕ
  pub mapped :
      (j : ℕ)
      → j < pages
      → (e : Entry) × (translate m'.table root (page_at virt j) ≡ some e)
        × Maps e (frame j * page_size) flags
  pub was_free : (j : ℕ) → j < pages → frame_bit m.pmm (frame j) ≡ 0
  pub is_data : (j : ℕ) → j < pages → (frame_bit m'.pmm (frame j) ≡ 1) × (own' (frame j) ≡ 0)
  pub distinct : (i j : ℕ) → i < j → j < pages → frame i ≢ frame j
  pub others :
      (k : ℕ)
      → Covers lo hi k
      → ((j : ℕ) → j < pages → k ≢ page_at virt j)
      → translate m'.table root k ≡ translate m.table root k
  pub used : UsedKept own m.pmm own' m'.pmm

pub Ready-Allocated :
    (own : ℕ → ℕ) (p q : Pmm) (addr : ℕ)
    → Ready own p
    → Allocated p p.frame_bitmap_start q addr
    → Ready own q
Ready-Allocated own p q addr r a = record {
  valid = omega (arith, r.valid, a.end, a.size);
  small = omega (arith, r.small, a.end);
  fresh = λ g b1 b2 bit.
      r.fresh g (omega (arith, a.start, a.above, b1)) (omega (arith, a.end, b2))
        (ground (arith, a.bits g, bit));
}

UsedKept-Allocated :
    (own : ℕ → ℕ) (p q : Pmm) (addr : ℕ)
    → Allocated p p.frame_bitmap_start q addr
    → UsedKept own p own q
UsedKept-Allocated own p q addr a = λ s h. (refl, ground (arith, a.bits s, h))

UsedKept-trans :
    (own own1 own2 : ℕ → ℕ) (p q r : Pmm)
    → UsedKept own p own1 q
    → UsedKept own1 q own2 r
    → UsedKept own p own2 r
UsedKept-trans own own1 own2 p q r u v =
    λ s h. let (k1, h1) = u s h in let (k2, h2) = v s h1 in (k2 ∙ k1, h2)

-- A frame that is free later was free before.
was_free_before :
    (own own1 : ℕ → ℕ) (p q : Pmm) (s : ℕ)
    → UsedKept own p own1 q
    → frame_bit q s ≡ 0
    → frame_bit p s ≡ 0
was_free_before own own1 p q s u free = elim (Bool-cases (frame_bit p s == 0)) [
  | inl h ↦ ground (arith, h)
  | inr h ↦ absurd (omega (arith, free, (u s (ground (arith, h, frame_bit_bound p s))).1))
]

next_page :
    (virt pages j : ℕ)
    → is_page_aligned virt ≡ true
    → virt + suc pages * page_size ≤ u64_mod
    → virt % 2 ^ 48 + suc pages * page_size ≤ 2 ^ 48
    → j < pages
    → page_at (add64 virt page_size) j ≡ page_at virt (suc j)
next_page virt pages j aligned fits low h = omega arith

pub InRange-next :
    (lo hi virt pages : ℕ)
    → InRange lo hi virt (suc pages)
    → InRange lo hi (add64 virt page_size) pages
InRange-next lo hi virt pages (aligned, fits, low, covered) = (
  ground (arith, aligned),
  omega (arith, fits),
  next_low,
  λ j h. omega (arith, next_page virt pages j aligned fits low h, covered (suc j) (omega arith)),
)
  where
    next_low : add64 virt page_size % 2 ^ 48 + pages * page_size ≤ 2 ^ 48
    next_low = omega (arith, fits, low)

abbrev frames_from : ℕ → (ℕ → ℕ) → ℕ → ℕ
frames_from f rest zero = f
frames_from f rest (suc j) = rest j

distinct_from :
    (f : ℕ) (rest : ℕ → ℕ) (pages : ℕ)
    → ((j : ℕ) → j < pages → f ≢ rest j)
    → ((i j : ℕ) → i < j → j < pages → rest i ≢ rest j)
    → (i j : ℕ) → i < j
    → j < suc pages
    → frames_from f rest i ≢ frames_from f rest j
distinct_from f rest pages new apart i zero h b = absurd (omega (arith, h))
distinct_from f rest pages new apart zero (suc j) h b = new j (omega (arith, b))
distinct_from f rest pages new apart (suc i) (suc j) h b =
    apart i j (omega (arith, h)) (omega (arith, b))

plus_zero : (n : ℕ) → n + 0 ≡ n
plus_zero n = omega arith

-- What holds of the first page and of the later ones.
below-suc :
    (P : ℕ → Type 0) (pages : ℕ)
    → P 0
    → ((j : ℕ) → j < pages → P (suc j))
    → (j : ℕ) → j < suc pages
    → P j
below-suc P pages z s zero h = z
below-suc P pages z s (suc j) h = s j (omega (arith, h))

-- One page, and then the others.
pub RangeMapped-cons :
    (lo hi root virt pages flags addr : ℕ) (own : ℕ → ℕ) (m m1 m2 : Vmm) (q : Pmm)
    → InRange lo hi virt (suc pages)
    → Tree lo hi root own m
    → (a : Allocated m.pmm m.pmm.frame_bitmap_start q addr)
    → (first : Mapped lo hi root (page_number virt) addr flags own (record m { pmm = q }) m1)
    → RangeMapped lo hi root (add64 virt page_size) pages flags first.own' m1 m2
    → RangeMapped lo hi root virt (suc pages) flags own m m2
RangeMapped-cons lo hi root virt pages flags addr own m m1 m2 q (aligned, fits, low, covered) t a
      first r =
    let bit_q : frame_bit q a.frame ≡ 1 = ground (arith, a.bits a.frame) in
    let (key1, bit1) = first.used a.frame bit_q in
    let (key2, bit2) = r.used a.frame bit1 in
    let next = λ (j : ℕ) (h : j < pages). next_page virt pages j aligned fits low h in
    let until =
      UsedKept-trans own own first.own' m.pmm q m1.pmm (UsedKept-Allocated own m.pmm q addr a)
        first.used in
    record {
      own' = r.own';
      is_tree = r.is_tree;
      frame = frames_from a.frame r.frame;
      mapped =
          below-suc
            (λ j.
              (e : Entry) × (translate m2.table root (page_at virt j) ≡ some e)
              × Maps e (frames_from a.frame r.frame j * page_size) flags)
            pages
            (
              first.entry,
              r.others (page_at virt 0) (covered 0 (omega arith))
                    (λ j h e. omega (arith, e, next j h))
                  ∙ ap (translate m1.table root) (plus_zero (page_number virt))
                  ∙ first.updated.0,
              subst (λ x. Maps first.entry x flags) a.address first.maps,
            )
            λ j h.
              let (e, found, maps) = r.mapped j h in
              (e, ap (translate m2.table root) (sym (next j h)) ∙ found, maps);
      was_free =
          below-suc (λ j. frame_bit m.pmm (frames_from a.frame r.frame j) ≡ 0) pages a.was_free
            λ j h. was_free_before own first.own' m.pmm m1.pmm (r.frame j) until (r.was_free j h);
      is_data =
          below-suc
            (λ j.
              (frame_bit m2.pmm (frames_from a.frame r.frame j) ≡ 1)
              × (r.own' (frames_from a.frame r.frame j) ≡ 0))
            pages (bit2, key2 ∙ key1 ∙ t.ready.fresh a.frame a.above a.below a.was_free) r.is_data;
      distinct =
          distinct_from a.frame r.frame pages
            (λ j h e. omega (arith, bit1, r.was_free j h, ap (frame_bit m1.pmm) e)) r.distinct;
      others = λ k c off.
          r.others k c (λ j h e. off (suc j) (omega (arith, h)) (e ∙ next j h))
          ∙ first.updated.1 k c (λ e. off 0 (omega arith) (omega (arith, e)));
      used = UsedKept-trans own first.own' r.own' m.pmm m1.pmm m2.pmm until r.used;
    }
