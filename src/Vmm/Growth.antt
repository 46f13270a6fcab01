-- ===== src/Vmm/Growth.antt =====
-- A new table in a tree of page tables, as the `ensure` functions of vmm.cpp add one.
use hltos.Base.{
  ℕ, suc, ◌+◌, ◌*◌, ◌^◌, ◌≤◌, ◌<◌, ◌≡◌, refl, sym, ap, ◌∙◌, inl, inr, true, false, ◌&&◌, arith,
  ◌==◌, if◌then◌else◌, Bool-cases,
}
use hltos.Pmm.{Pmm}
use hltos.Pmm.Bitmap.{frame_bit}
use hltos.Pmm.Alloc.{IsValid, Allocated}
use hltos.Pmm.Supply.{supply}
use hltos.Vmm.{Entry, Vmm, write_entry, zero_page, addr_of}
use hltos.Vmm.Walk.{walk, Covers, IsTree, AgreeOff}

-- The frames that the allocator can still hand out are no tables.
pub record Ready (own : ℕ → ℕ) (p : Pmm) : Type 0 where
  pub valid : IsValid p
  pub small : p.frame_bitmap_end ≤ 2 ^ 40
  pub fresh :
      (g : ℕ) → p.frame_bitmap_start ≤ g → g < p.frame_bitmap_end → frame_bit p g ≡ 0 → own g ≡ 0

-- A tree of tables below `root`, whose entries from `lo` to `hi - 1` are looked at.
pub record Tree (lo hi root : ℕ) (own : ℕ → ℕ) (m : Vmm) : Type 0 where
  pub top : own root ≡ 1
  pub tree : IsTree lo hi own m.table
  pub ready : Ready own m.pmm

-- What stays as it is beside the tables and the frames.
pub record SameRest (m m' : Vmm) : Type 0 where
  pub page : m'.page ≡ m.page
  pub kernel_pml4 : m'.kernel_pml4 ≡ m.kernel_pml4
  pub hhdm_offset : m'.hhdm_offset ≡ m.hhdm_offset

-- A frame that is used stays so, and stays a table or none.
abbrev pub UsedKept : (ℕ → ℕ) → Pmm → (ℕ → ℕ) → Pmm → Type 0
UsedKept own p own' q = (s : ℕ) → frame_bit p s ≡ 1 → (own' s ≡ own s) × (frame_bit q s ≡ 1)

-- Entry `i` of table `x` leads to table `child` now, and no walk ends elsewhere.
pub record Ensured (lo hi root x i : ℕ) (own : ℕ → ℕ) (m m' : Vmm) (child : ℕ) : Type 0 where
  pub own' : ℕ → ℕ
  pub known : (s : ℕ) → 0 < own s → own' s ≡ own s
  pub key : own' child ≡ own x * 512 + i
  pub is_tree : Tree lo hi root own' m'
  pub agree : AgreeOff own x i m.table m'.table
  pub present : (m'.table x i).p ≡ true
  pub addr : (m'.table x i).addr ≡ child
  pub walks : (n : ℕ) → Covers lo hi n → walk m'.table 3 root n ≡ walk m.table 3 root n
  pub used : UsedKept own m.pmm own' m'.pmm
  pub supplied : supply m.pmm ≤ suc (supply m'.pmm)
  pub rest : SameRest m m'

-- The ways to fill an entry of an inner table.
abbrev pub IsPopulate : (Entry → ℕ → ℕ → Entry) → Type 0
IsPopulate populate =
    (e : Entry) (phys flags : ℕ)
    → ((populate e phys flags).p ≡ true) × ((populate e phys flags).addr ≡ addr_of phys)

-- The ghost map with a new table.
pub own_with : (ℕ → ℕ) → ℕ → ℕ → ℕ → ℕ
own_with own frame k s = if s == frame then k else own s

pub own_with-frame : (own : ℕ → ℕ) (frame k : ℕ) → own_with own frame k frame ≡ k
unfolding own_with
own_with-frame own frame k = ground arith

pub other_frame : (own : ℕ → ℕ) (frame s : ℕ) → own frame ≡ 0 → 0 < own s → (s == frame) ≡ false
other_frame own frame s free known = elim (Bool-cases (s == frame)) [
  | inl h ↦
      let same : s ≡ frame = ground (arith, h) in absurd (omega (arith, ap own same, free, known))
  | inr h ↦ h
]

pub own_with-other :
    (own : ℕ → ℕ) (frame k s : ℕ) → (s == frame) ≡ false → own_with own frame k s ≡ own s
unfolding own_with
own_with-other own frame k s h = rw h refl

abbrev pub new_table : Vmm → ℕ → ℕ → Entry → ℕ → ℕ → ℕ → Entry
new_table m x i e frame = zero_page (write_entry m.table x i e) frame

pub new_table-bare :
    (m : Vmm) (x i : ℕ) (e : Entry) (frame j : ℕ) → (new_table m x i e frame frame j).p ≡ false
new_table-bare m x i e frame j = let same : (frame == frame) ≡ true = ground arith in rw same refl

pub new_table-entry :
    (m : Vmm) (x i : ℕ) (e : Entry) (frame : ℕ)
    → (x == frame) ≡ false
    → new_table m x i e frame x i ≡ e
new_table-entry m x i e frame h =
    let here : (x == x && i == i) ≡ true = ground arith in rw (h, here) refl

pub new_table-agree :
    (own : ℕ → ℕ) (m : Vmm) (x i : ℕ) (e : Entry) (frame : ℕ)
    → own frame ≡ 0
    → AgreeOff own x i m.table (new_table m x i e frame)
new_table-agree own m x i e frame free s j known off =
    let other = other_frame own frame s free known in rw (other, off) refl

-- A new child keeps the tree.
pub IsTree-new_table :
    (lo hi : ℕ) (own : ℕ → ℕ) (m : Vmm) (x i : ℕ) (e : Entry) (frame : ℕ)
    → IsTree lo hi own m.table
    → own frame ≡ 0
    → 0 < own x
    → e.addr ≡ frame
    → IsTree lo hi (own_with own frame (own x * 512 + i)) (new_table m x i e frame)
IsTree-new_table lo hi own m x i e frame tree free known leads t j k1 k2 b area present =
    elim (Bool-cases (t == frame)) [
      | inl new ↦
          let same : t ≡ frame = ground (arith, new) in
          let bare = new_table-bare m x i e frame j in
          let there : (new_table m x i e frame frame j).p ≡ true =
            ap (λ s. (new_table m x i e frame s j).p) (sym same) ∙ present in
          cc
      | inr old ↦ elim (Bool-cases (t == x && j == i)) [
        | inl here ↦
            let table_same : t ≡ x = ground (arith, here) in
            let index_same : j ≡ i = ground (arith, here) in
            let entry = new_table-entry m x i e frame (other_frame own frame x free known) in
            rw (table_same, index_same, entry, leads)
              (own_with-frame own frame (own x * 512 + i)
                ∙ sym (
                    ap (λ q. q * 512 + i)
                      (own_with-other own frame (own x * 512 + i) x
                        (other_frame own frame x free known))))
        | inr off ↦
            let key = own_with-other own frame (own x * 512 + i) t old in
            let same : new_table m x i e frame t j ≡ m.table t j = rw (old, off) refl in
            let child : own (m.table t j).addr ≡ own t * 512 + j =
              tree t j (omega (arith, key, k1)) (omega (arith, key, k2)) b
                (λ small. omega (arith, key, area (omega (arith, key, small))))
                (ap (λ (q : Entry). q.p) (sym same) ∙ present) in
            let child_old =
              other_frame own frame (m.table t j).addr free (omega (arith, child, key, k1)) in
            rw (same, key)
              (own_with-other own frame (own x * 512 + i) (m.table t j).addr child_old ∙ child)
      ]
    ]

pub Ready-new_table :
    (own : ℕ → ℕ) (p q : Pmm) (addr k : ℕ)
    → Ready own p
    → (a : Allocated p p.frame_bitmap_start q addr) → Ready (own_with own a.frame k) q
Ready-new_table own p q addr k r a = record {
  valid = omega (arith, r.valid, a.end, a.size);
  small = omega (arith, r.small, a.end);
  fresh = λ g b1 b2 bit.
      let before : frame_bit p g ≡ 0 = ground (arith, a.bits g, bit) in
      own_with-other own a.frame k g (ground (arith, a.start, b1))
      ∙ r.fresh g (omega (arith, a.start, a.above, b1)) (omega (arith, a.end, b2)) before;
}

pub UsedKept-new_table :
    (own : ℕ → ℕ) (p q : Pmm) (addr k : ℕ) (a : Allocated p p.frame_bitmap_start q addr)
    → UsedKept own p (own_with own a.frame k) q
UsedKept-new_table own p q addr k a s bit = elim (Bool-cases (s == a.frame)) [
  | inl e ↦
      let same : s ≡ a.frame = ground (arith, e) in
      absurd (omega (arith, bit, ap (frame_bit p) same, a.was_free))
  | inr e ↦ (own_with-other own a.frame k s e, ground (arith, a.bits s, bit, e))
]
