-- ===== src/Vmm/Mapping.antt =====
-- `ensure_path` and `map_page_to_frame` of vmm.cpp against the map from pages to entries that the tables
-- stand for.
use hltos.Base.{
  ℕ, ◌+◌, ◌*◌, ◌/◌, ◌^◌, ◌<◌, ◌≡◌, refl, ap, ◌∙◌, inl, inr, true, false, arith, Bool-cases,
}
use hltos.Base.Run.{ok}
use hltos.Pmm.{Pmm, alloc_frame}
use hltos.Pmm.Alloc.{Allocated}
use hltos.Pmm.Supply.{supply, supply-Allocated, alloc_frame-supply}
use hltos.Vmm.{Entry, Vmm, is_page_aligned, page_size, ensure_present}
use hltos.Vmm.Walk.{InRegion, walk-grown}
use hltos.Vmm.Growth.{
  Tree, Ensured, IsPopulate, own_with, own_with-frame, other_frame, own_with-other, new_table,
  new_table-bare, new_table-entry, new_table-agree, IsTree-new_table, Ready-new_table,
  UsedKept-new_table,
}

-- The child is there already.
Ensured-present :
    (lo hi root x i : ℕ) (own : ℕ → ℕ) (m : Vmm)
    → Tree lo hi root own m
    → 0 < own x
    → own x < 2 ^ 27
    → i < 512
    → InRegion lo hi (own x * 512 + i)
    → (m.table x i).p ≡ true
    → Ensured lo hi root x i own m m (m.table x i).addr
Ensured-present lo hi root x i own m t k1 k2 b area present = record {
  own' = own;
  known = λ s h. refl;
  key = t.tree x i k1 k2 b area present;
  is_tree = t;
  agree = λ s j h off. refl;
  present = present;
  addr = refl;
  walks = λ n c. refl;
  used = λ s h. (refl, h);
  supplied = omega arith;
  rest = record { page = refl; kernel_pml4 = refl; hhdm_offset = refl };
}

Ensured-new :
    (lo hi root x i : ℕ) (own : ℕ → ℕ) (m : Vmm) (q : Pmm) (addr : ℕ) (e : Entry)
    → Tree lo hi root own m
    → 0 < own x
    → own x < 2 ^ 27
    → (m.table x i).p ≡ false
    → (a : Allocated m.pmm m.pmm.frame_bitmap_start q addr) → e.addr ≡ a.frame
    → e.p ≡ true
    → Ensured lo hi root x i own m (record m { pmm = q; table = new_table m x i e a.frame }) a.frame
Ensured-new lo hi root x i own m q addr e t k1 k2 absent a leads filled =
    let free = t.ready.fresh a.frame a.above a.below a.was_free in
    let k = own x * 512 + i in
    let entry = new_table-entry m x i e a.frame (other_frame own a.frame x free k1) in
    let agree = new_table-agree own m x i e a.frame free in
    record {
      own' = own_with own a.frame k;
      known = λ s h. own_with-other own a.frame k s (other_frame own a.frame s free h);
      key = own_with-frame own a.frame k;
      is_tree = record {
        top =
            own_with-other own a.frame k root
              (other_frame own a.frame root free (omega (arith, t.top)))
            ∙ t.top;
        tree = IsTree-new_table lo hi own m x i e a.frame t.tree free k1 leads;
        ready = Ready-new_table own m.pmm q addr k t.ready a;
      };
      agree = agree;
      present = ap (λ (w : Entry). w.p) entry ∙ filled;
      addr = ap (λ (w : Entry). w.addr) entry ∙ leads;
      walks = λ n c.
          walk-grown lo hi own m.table (new_table m x i e a.frame) x i 3 root n t.tree agree c k2
            absent
            (λ j.
              ap (λ s. (new_table m x i e a.frame s j).p) (ap (λ (q : Entry). q.addr) entry ∙ leads)
              ∙ new_table-bare m x i e a.frame j)
            (omega arith) (omega (arith, t.top, c));
      used = UsedKept-new_table own m.pmm q addr k a;
      supplied = omega (arith, supply-Allocated m.pmm q addr a);
      rest = record { page = refl; kernel_pml4 = refl; hhdm_offset = refl };
    }

ensure_present-absent :
    (populate : Entry → ℕ → ℕ → Entry) (m : Vmm) (x i flags : ℕ) (q : Pmm) (addr frame : ℕ)
    → (m.table x i).p ≡ false
    → alloc_frame m.pmm ≡ ok (q, addr)
    → is_page_aligned addr ≡ true
    → addr / page_size ≡ frame
    → ensure_present populate m x i flags
      ≡ ok (
        record m { pmm = q; table = new_table m x i (populate (m.table x i) addr flags) frame },
        (new_table m x i (populate (m.table x i) addr flags) frame x i).addr,
      )
unfolding ensure_present
ensure_present-absent populate m x i flags q addr frame absent got aligned f =
    simp (absent, got, aligned, f) refl

-- A call of one of the `ensure` functions, while a frame is left.
pub ensure_present-Ensured :
    (populate : Entry → ℕ → ℕ → Entry) (lo hi root x i flags : ℕ) (own : ℕ → ℕ) (m : Vmm)
    → IsPopulate populate
    → Tree lo hi root own m
    → 0 < own x
    → own x < 2 ^ 27
    → i < 512
    → InRegion lo hi (own x * 512 + i)
    → 0 < supply m.pmm
    → (m' : Vmm) × (child : ℕ) × (ensure_present populate m x i flags ≡ ok (m', child))
      × Ensured lo hi root x i own m m' child
unfolding ensure_present
ensure_present-Ensured populate lo hi root x i flags own m fills t k1 k2 b area left =
    elim (Bool-cases (m.table x i).p) [
      | inl present ↦ (
        m,
        (m.table x i).addr,
        rw present refl,
        Ensured-present lo hi root x i own m t k1 k2 b area present,
      )
      | inr absent ↦
          let (q, addr, got, a) = alloc_frame-supply m.pmm t.ready.valid left in
          let e = populate (m.table x i) addr flags in
          let frame : addr / page_size ≡ a.frame = omega (arith, a.address) in
          let aligned : is_page_aligned addr ≡ true = ground (arith, a.address) in
          let leads : e.addr ≡ a.frame =
            (fills (m.table x i) addr flags).1 ∙ omega (arith, frame, a.below, t.ready.small) in
          let free = t.ready.fresh a.frame a.above a.below a.was_free in
          let entry = new_table-entry m x i e a.frame (other_frame own a.frame x free k1) in
          (
            record m { pmm = q; table = new_table m x i e a.frame },
            a.frame,
            ensure_present-absent populate m x i flags q addr a.frame absent got aligned frame
                ∙ ap (λ c. ok (record m { pmm = q; table = new_table m x i e a.frame }, c))
                    (ap (λ (q : Entry). q.addr) entry ∙ leads),
            Ensured-new lo hi root x i own m q addr e t k1 k2 absent a leads
                (fills (m.table x i) addr flags).0,
          )
    ]
