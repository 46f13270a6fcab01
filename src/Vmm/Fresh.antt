-- ===== src/Vmm/Fresh.antt =====
-- `create_user_pml4` of vmm.cpp: a new address space has the entries of the kernel and no user page.
use hltos.Base.{
  ℕ, zero, suc, ◌+◌, ◌-◌, ◌/◌, ◌%◌, ◌≤◌, ◌<◌, ◌≡◌, ◌≢◌, refl, sym, ap, ◌∙◌, inl, inr, true, false,
  none, ◌&&◌, arith, ◌==◌, if◌then◌else◌, leb, ltb, Bool-cases,
}
use hltos.Base.Run.{ok}
use hltos.Pmm.{Pmm, alloc_frame}
use hltos.Pmm.Bitmap.{frame_bit}
use hltos.Pmm.Alloc.{Allocated}
use hltos.Pmm.Supply.{supply, alloc_frame-supply}
use hltos.Vmm.{
  Entry, Vmm, empty_entry, write_entry, zero_page, num_pt_entries, page_size, get_kernel_pml4_index,
}
use hltos.Vmm.Spaces.{copy_entries, new_root, create_user_pml4}
use hltos.Vmm.Walk.{up, walk, Covers, IsTree}
use hltos.Vmm.Growth.{Ready, Tree}
use hltos.Vmm.Translate.{entry_at, translate}
use hltos.Vmm.Ranges.{Ready-Allocated}

copy_entries-entry :
    (rounds from to i : ℕ) (table : ℕ → ℕ → Entry) (s j : ℕ)
    → (from == to) ≡ false
    → copy_entries rounds from to i table s j
      ≡ (if s == to && (leb i j && ltb j (i + rounds)) then table from j else table s j)
unfolding copy_entries
copy_entries-entry zero from to i table s j other =
    let out : (s == to && (leb i j && ltb j (i + 0))) ≡ false = ground arith in rw out refl
copy_entries-entry (suc rounds) from to i table s j other =
    copy_entries-entry rounds from to (i + 1) (write_entry table to i (table from i)) s j other
    ∙ ground (arith, other)

-- The ghost map of a new tree.
abbrev own_root : ℕ → ℕ → ℕ
own_root root s = if s == root then 1 else 0

-- A new root whose entries are all empty below the first entry of the kernel.
pub record FreshSpace (m m' : Vmm) (root : ℕ) : Type 0 where
  pub own : ℕ → ℕ
  pub is_tree : Tree 0 (get_kernel_pml4_index m) root own m'
  pub unmapped : (n : ℕ) → Covers 0 (get_kernel_pml4_index m) n → translate m'.table root n ≡ none
  pub kernel :
      (i : ℕ)
      → get_kernel_pml4_index m ≤ i
      → i < num_pt_entries
      → m'.table root i ≡ m.table m.kernel_pml4 i
  pub others : (s i : ℕ) → s ≢ root → m'.table s i ≡ m.table s i

-- The table of the new root: its kernel half is that of `from`, its other entries are empty.
abbrev root_table : Vmm → ℕ → ℕ → ℕ → ℕ → Entry
root_table m from root =
    let start = get_kernel_pml4_index m in
    copy_entries (num_pt_entries - start) from root start (zero_page m.table root)

module _ (m : Vmm) (root from : ℕ) (apart : (from == root) ≡ false) where
  root_table-low :
      (i : ℕ) → i < get_kernel_pml4_index m → root_table m from root root i ≡ empty_entry
  root_table-low i h =
      let start = get_kernel_pml4_index m in
      let same : (root == root) ≡ true = ground arith in
      let low : leb start i ≡ false = ground (arith, h) in
      copy_entries-entry (num_pt_entries - start) from root start (zero_page m.table root) root i
        apart
      ∙ rw (same, low) refl

  root_table-high :
      (i : ℕ)
      → get_kernel_pml4_index m ≤ i
      → i < num_pt_entries
      → root_table m from root root i ≡ m.table from i
  root_table-high i h b =
      let start = get_kernel_pml4_index m in
      let same : (root == root) ≡ true = ground arith in
      let high : (leb start i && ltb i (start + (num_pt_entries - start))) ≡ true =
        ground (arith, h, b) in
      copy_entries-entry (num_pt_entries - start) from root start (zero_page m.table root) root i
        apart
      ∙ rw (same, high, apart) refl

  root_table-other : (s i : ℕ) → s ≢ root → root_table m from root s i ≡ m.table s i
  root_table-other s i h =
      let start = get_kernel_pml4_index m in
      let other : (s == root) ≡ false = ground (arith, h) in
      copy_entries-entry (num_pt_entries - start) from root start (zero_page m.table root) s i apart
      ∙ rw other refl

IsTree-root :
    (m : Vmm) (root from : ℕ)
    → (from == root) ≡ false
    → IsTree 0 (get_kernel_pml4_index m) (own_root root) (root_table m from root)
IsTree-root m root from apart t i k1 k2 b area present = elim (Bool-cases (t == root)) [
  | inl here ↦
      let same : t ≡ root = ground (arith, here) in
      let key : own_root root t ≡ 1 = rw here refl in
      let low : i < get_kernel_pml4_index m = omega (arith, key, area (omega (arith, key, b))) in
      let empty : (root_table m from root t i).p ≡ false =
        ap (λ s. (root_table m from root s i).p) same
        ∙ ap (λ (e : Entry). e.p) (root_table-low m root from apart i low) in
      absurd (true_false (sym present ∙ empty))
  | inr other ↦ let key : own_root root t ≡ 0 = rw other refl in absurd (omega (arith, key, k1))
]
  where
    true_false : true ≡ false → ⊥
    true_false h = cc

Ready-root :
    (p q : Pmm) (addr : ℕ)
    → Ready (λ s. 0) p
    → (a : Allocated p p.frame_bitmap_start q addr) → Ready (own_root a.frame) q
Ready-root p q addr r a =
    let later = Ready-Allocated (λ s. 0) p q addr r a in
    record {
      valid = later.valid;
      small = later.small;
      fresh = λ g b1 b2 free.
          let above : (g == a.frame) ≡ false = ground (arith, a.start, b1) in rw above refl;
    }

walk-low :
    (m : Vmm) (root from n : ℕ)
    → (from == root) ≡ false
    → Covers 0 (get_kernel_pml4_index m) n
    → walk (root_table m from root) 3 root n ≡ none
unfolding walk
walk-low m root from n apart c =
    let empty : (root_table m from root root (up 3 n % 512)).p ≡ false =
      ap (λ (e : Entry). e.p)
        (root_table-low m root from apart (up 3 n % 512) (omega (arith, c))) in
    rw empty refl

fresh_space :
    (m : Vmm)
    → Ready (λ s. 0) m.pmm
    → frame_bit m.pmm m.kernel_pml4 ≡ 1
    → (q : Pmm) × (addr : ℕ) × (alloc_frame m.pmm ≡ ok (q, addr))
      × Allocated m.pmm m.pmm.frame_bitmap_start q addr
    → (m' : Vmm) × (root : ℕ) × (create_user_pml4 m ≡ ok (m', root)) × FreshSpace m m' root
unfolding create_user_pml4 new_root
fresh_space m r used (q, addr, got, a) =
    let from = m.kernel_pml4 in
    let apart : (from == a.frame) ≡ false = elim (Bool-cases (from == a.frame)) [
      | inl e ↦
          let same : from ≡ a.frame = ground (arith, e) in
          absurd (omega (arith, ap (frame_bit m.pmm) same, used, a.was_free))
      | inr e ↦ e
    ] in
    let index : addr / page_size ≡ a.frame = omega (arith, a.address) in
    (
      record m { pmm = q; table = root_table m from a.frame },
      a.frame,
      rw (got, index) refl,
      record {
        own = own_root a.frame;
        is_tree = record {
          top = ground arith;
          tree = IsTree-root m a.frame from apart;
          ready = Ready-root m.pmm q addr r a;
        };
        unmapped =
            λ n c. ap (entry_at (root_table m from a.frame)) (walk-low m a.frame from n apart c);
        kernel = root_table-high m a.frame from apart;
        others = root_table-other m a.frame from apart;
      },
    )

-- With a frame left, and the root of the kernel in a used frame, `create_user_pml4` makes a tree of
-- tables that maps no page below the kernel and has the entries of the kernel.
pub create_user_pml4-FreshSpace :
    (m : Vmm)
    → Ready (λ s. 0) m.pmm
    → frame_bit m.pmm m.kernel_pml4 ≡ 1
    → 0 < supply m.pmm
    → (m' : Vmm) × (root : ℕ) × (create_user_pml4 m ≡ ok (m', root)) × FreshSpace m m' root
create_user_pml4-FreshSpace m r used left =
    fresh_space m r used (alloc_frame-supply m.pmm r.valid left)
