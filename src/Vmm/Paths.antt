-- ===== src/Vmm/Paths.antt =====
-- `ensure_path`, the three calls of vmm.cpp that lead from a root to the table of the last level.
use hltos.Base.{
  ℕ, ◌+◌, ◌%◌, ◌^◌, ◌≤◌, ◌<◌, ◌≡◌, ◌≢◌, refl, ap, ◌∙◌, inl, inr, true, arith, ◌==◌, Bool-cases,
}
use hltos.Base.Run.{ok}
use hltos.Pmm.Supply.{supply}
use hltos.Vmm.{Entry, Vmm, populate_pml4e, populate_pdpte, ensure_present, ensure_path}
use hltos.Vmm.Walk.{up, walk, Covers, AgreeOff, walk_present}
use hltos.Vmm.Growth.{Tree, SameRest, UsedKept, Ensured}
use hltos.Vmm.Mapping.{ensure_present-Ensured}

-- `pt` is the table of the last level for page `n` now, and the tables stand for the same map.
pub record Reached (lo hi root n : ℕ) (own : ℕ → ℕ) (m m' : Vmm) (pt : ℕ) : Type 0 where
  pub own' : ℕ → ℕ
  pub known : (s : ℕ) → 0 < own s → own' s ≡ own s
  pub key : own' pt ≡ up 1 n
  pub is_tree : Tree lo hi root own' m'
  pub walks : (k : ℕ) → Covers lo hi k → walk m'.table 3 root k ≡ walk m.table 3 root k
  -- The tables of the last level are as before.
  pub leaves : (s j : ℕ) → 2 ^ 27 ≤ own s → m'.table s j ≡ m.table s j
  -- A walk to `n` leads through `pt` as long as the tables above stay as they are.
  pub leads :
      (table : ℕ → ℕ → Entry)
      → ((s j : ℕ) → 0 < own' s → own' s < 2 ^ 27 → table s j ≡ m'.table s j)
      → walk table 3 root n ≡ walk table 0 pt n
  pub used : UsedKept own m.pmm own' m'.pmm
  pub supplied : supply m.pmm ≤ 3 + supply m'.pmm
  pub rest : SameRest m m'

-- An entry of a table with another key.
AgreeOff-other :
    (own : ℕ → ℕ) (x i s j : ℕ) (table table' : ℕ → ℕ → Entry)
    → AgreeOff own x i table table'
    → 0 < own s
    → own s ≢ own x
    → table' s j ≡ table s j
AgreeOff-other own x i s j table table' agree h other = agree s j h (elim (Bool-cases (s == x)) [
  | inl e ↦ let same : s ≡ x = ground (arith, e) in absurd (other (ap own same))
  | inr e ↦ ground (arith, e)
])

-- A walk whose three inner entries are present.
walk-down :
    (table : ℕ → ℕ → Entry) (root pdpt pd pt n : ℕ)
    → (table root (up 3 n % 512)).p ≡ true
    → (table root (up 3 n % 512)).addr ≡ pdpt
    → (table pdpt (up 2 n % 512)).p ≡ true
    → (table pdpt (up 2 n % 512)).addr ≡ pd
    → (table pd (up 1 n % 512)).p ≡ true
    → (table pd (up 1 n % 512)).addr ≡ pt
    → walk table 3 root n ≡ walk table 0 pt n
walk-down table root pdpt pd pt n p3 a3 p2 a2 p1 a1 =
    walk_present table 2 root n pdpt p3 a3
    ∙ walk_present table 1 pdpt n pd p2 a2
    ∙ walk_present table 0 pd n pt p1 a1

-- Three `ensure` calls that succeeded, one after the other.
Reached-three :
    (lo hi root n : ℕ) (own : ℕ → ℕ) (m m1 m2 m3 : Vmm) (pdpt pd pt : ℕ)
    → own root ≡ 1
    → Covers lo hi n
    → (e1 : Ensured lo hi root root (up 3 n % 512) own m m1 pdpt)
    → (e2 : Ensured lo hi root pdpt (up 2 n % 512) e1.own' m1 m2 pd)
    → Ensured lo hi root pd (up 1 n % 512) e2.own' m2 m3 pt
    → Reached lo hi root n own m m3 pt
Reached-three lo hi root n own m m1 m2 m3 pdpt pd pt top c e1 e2 e3 =
    let key1 : e1.own' pdpt ≡ up 3 n = omega (arith, e1.key, top, c) in
    let key2 : e2.own' pd ≡ up 2 n = omega (arith, e2.key, key1) in
    let known2 : (s : ℕ) → 0 < own s → e2.own' s ≡ own s =
      λ s h. omega (arith, h, e1.known s h, e2.known s (omega (arith, h, e1.known s h))) in
    record {
      own' = e3.own';
      known = λ s h. omega (arith, h, known2 s h, e3.known s (omega (arith, h, known2 s h)));
      key = omega (arith, e3.key, key2);
      is_tree = e3.is_tree;
      walks = λ k ck. e3.walks k ck ∙ e2.walks k ck ∙ e1.walks k ck;
      leaves = λ s j h.
          let k1 = e1.known s (omega (arith, h)) in
          let k2 = known2 s (omega (arith, h)) in
          AgreeOff-other e2.own' pd (up 1 n % 512) s j m2.table m3.table e3.agree
            (omega (arith, h, k2)) (λ e. omega (arith, e, h, k2, key2, c))
          ∙ AgreeOff-other e1.own' pdpt (up 2 n % 512) s j m1.table m2.table e2.agree
              (omega (arith, h, k1)) (λ e. omega (arith, e, h, k1, key1, c))
          ∙ AgreeOff-other own root (up 3 n % 512) s j m.table m1.table e1.agree (omega (arith, h))
              (λ e. omega (arith, e, h, top));
      leads = λ table inner.
          let root1 = e1.known root (omega (arith, top)) in
          let root2 = known2 root (omega (arith, top)) in
          let root3 = e3.is_tree.top in
          let pdpt2 = e2.known pdpt (omega (arith, key1, c)) in
          let pdpt3 = e3.known pdpt (omega (arith, pdpt2, key1, c)) in
          let pd3 = e3.known pd (omega (arith, key2, c)) in
          let at_root =
            inner root (up 3 n % 512) (omega (arith, root3)) (omega (arith, root3))
            ∙ AgreeOff-other e2.own' pd (up 1 n % 512) root (up 3 n % 512) m2.table m3.table
                e3.agree (omega (arith, root2, top)) (λ e. omega (arith, e, root2, top, key2, c))
            ∙ AgreeOff-other e1.own' pdpt (up 2 n % 512) root (up 3 n % 512) m1.table m2.table
                e2.agree (omega (arith, root1, top)) (λ e. omega (arith, e, root1, top, key1, c)) in
          let at_pdpt =
            inner pdpt (up 2 n % 512) (omega (arith, pdpt3, pdpt2, key1, c))
              (omega (arith, pdpt3, pdpt2, key1, c))
            ∙ AgreeOff-other e2.own' pd (up 1 n % 512) pdpt (up 2 n % 512) m2.table m3.table
                e3.agree (omega (arith, pdpt2, key1, c))
                (λ e. omega (arith, e, pdpt2, key1, key2, c)) in
          let at_pd =
            inner pd (up 1 n % 512) (omega (arith, pd3, key2, c)) (omega (arith, pd3, key2, c)) in
          walk-down table root pdpt pd pt n (ap (λ (w : Entry). w.p) at_root ∙ e1.present)
            (ap (λ (w : Entry). w.addr) at_root ∙ e1.addr)
            (ap (λ (w : Entry). w.p) at_pdpt ∙ e2.present)
            (ap (λ (w : Entry). w.addr) at_pdpt ∙ e2.addr)
            (ap (λ (w : Entry). w.p) at_pd ∙ e3.present)
            (ap (λ (w : Entry). w.addr) at_pd ∙ e3.addr);
      used = λ s h.
          let (k1, h1) = e1.used s h in
          let (k2, h2) = e2.used s h1 in let (k3, h3) = e3.used s h2 in (k3 ∙ k2 ∙ k1, h3);
      supplied = omega (arith, e1.supplied, e2.supplied, e3.supplied);
      rest = record {
        page = e3.rest.page ∙ e2.rest.page ∙ e1.rest.page;
        kernel_pml4 = e3.rest.kernel_pml4 ∙ e2.rest.kernel_pml4 ∙ e1.rest.kernel_pml4;
        hhdm_offset = e3.rest.hhdm_offset ∙ e2.rest.hhdm_offset ∙ e1.rest.hhdm_offset;
      };
    }

ensure_path-steps :
    (m m1 m2 m3 : Vmm) (root i3 i2 i1 flags pdpt pd pt : ℕ)
    → ensure_present populate_pml4e m root i3 flags ≡ ok (m1, pdpt)
    → ensure_present populate_pdpte m1 pdpt i2 flags ≡ ok (m2, pd)
    → ensure_present populate_pdpte m2 pd i1 flags ≡ ok (m3, pt)
    → ensure_path m root (i3, i2, i1) flags ≡ ok (m3, pt)
unfolding ensure_path
ensure_path-steps m m1 m2 m3 root i3 i2 i1 flags pdpt pd pt r1 r2 r3 = rw (r1, r2) r3

-- The outcome of a call that succeeds.
abbrev pub PathOutcome : ℕ → ℕ → ℕ → ℕ → ℕ → (ℕ → ℕ) → Vmm → Type 0
PathOutcome lo hi root n flags own m =
    (m' : Vmm) × (pt : ℕ) × (ensure_path m root (up 3 n % 512, up 2 n % 512, up 1 n % 512) flags
      ≡ ok (m', pt))
    × Reached lo hi root n own m m' pt

-- What one call of an `ensure` function gives.
abbrev StepOutcome : (Entry → ℕ → ℕ → Entry) → ℕ → ℕ → ℕ → ℕ → ℕ → ℕ → (ℕ → ℕ) → Vmm → Type 0
StepOutcome populate lo hi root x i flags own m =
    (m' : Vmm) × (child : ℕ) × (ensure_present populate m x i flags ≡ ok (m', child))
    × Ensured lo hi root x i own m m' child

module _ (lo hi root n flags : ℕ) (own : ℕ → ℕ) (m : Vmm) where
  after_two :
      (m1 m2 : Vmm) (pdpt pd : ℕ)
      → own root ≡ 1
      → Covers lo hi n
      → ensure_present populate_pml4e m root (up 3 n % 512) flags ≡ ok (m1, pdpt)
      → ensure_present populate_pdpte m1 pdpt (up 2 n % 512) flags ≡ ok (m2, pd)
      → (e1 : Ensured lo hi root root (up 3 n % 512) own m m1 pdpt)
      → (e2 : Ensured lo hi root pdpt (up 2 n % 512) e1.own' m1 m2 pd)
      → StepOutcome populate_pdpte lo hi root pd (up 1 n % 512) flags e2.own' m2
      → PathOutcome lo hi root n flags own m
  after_two m1 m2 pdpt pd top c r1 r2 e1 e2 (m3, pt, r3, e3) = (
    m3,
    pt,
    ensure_path-steps m m1 m2 m3 root (up 3 n % 512) (up 2 n % 512) (up 1 n % 512) flags pdpt pd pt
        r1 r2 r3,
    Reached-three lo hi root n own m m1 m2 m3 pdpt pd pt top c e1 e2 e3,
  )

  after_one :
      (m1 : Vmm) (pdpt : ℕ)
      → own root ≡ 1
      → Covers lo hi n
      → 3 ≤ supply m.pmm
      → ensure_present populate_pml4e m root (up 3 n % 512) flags ≡ ok (m1, pdpt)
      → (e1 : Ensured lo hi root root (up 3 n % 512) own m m1 pdpt)
      → StepOutcome populate_pdpte lo hi root pdpt (up 2 n % 512) flags e1.own' m1
      → PathOutcome lo hi root n flags own m
  after_one m1 pdpt top c left r1 e1 (m2, pd, r2, e2) =
      let key : e2.own' pd ≡ up 2 n = omega (arith, e2.key, e1.key, top, c) in
      after_two m1 m2 pdpt pd top c r1 r2 e1 e2 (
        ensure_present-Ensured populate_pdpte lo hi root pd (up 1 n % 512) flags e2.own' m2
          (λ e phys f. (refl, refl)) e2.is_tree (omega (arith, key, c)) (omega (arith, key, c))
          (omega arith) (λ small. absurd (omega (arith, small, key, c)))
          (omega (arith, left, e1.supplied, e2.supplied)))

  start :
      Covers lo hi n
      → own root ≡ 1
      → 3 ≤ supply m.pmm
      → StepOutcome populate_pml4e lo hi root root (up 3 n % 512) flags own m
      → PathOutcome lo hi root n flags own m
  start c top left (m1, pdpt, r1, e1) =
      let key : e1.own' pdpt ≡ up 3 n = omega (arith, e1.key, top, c) in
      after_one m1 pdpt top c left r1 e1 (
        ensure_present-Ensured populate_pdpte lo hi root pdpt (up 2 n % 512) flags e1.own' m1
          (λ e phys f. (refl, refl)) e1.is_tree (omega (arith, key, c)) (omega (arith, key, c))
          (omega arith) (λ small. absurd (omega (arith, small, key, c)))
          (omega (arith, left, e1.supplied)))

  -- While three frames are left, `ensure_path` succeeds.
  pub ensure_path-Reached :
      Tree lo hi root own m
      → Covers lo hi n
      → 3 ≤ supply m.pmm
      → PathOutcome lo hi root n flags own m
  ensure_path-Reached t c left = start c t.top left (
      ensure_present-Ensured populate_pml4e lo hi root root (up 3 n % 512) flags own m
        (λ e phys f. (refl, refl)) t (omega (arith, t.top)) (omega (arith, t.top)) (omega arith)
        (λ small. omega (arith, t.top, c)) (omega (arith, left)))
