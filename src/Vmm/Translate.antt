-- ===== src/Vmm/Translate.antt =====
-- The map from pages to entries that the tables of vmm.cpp stand for, and `map_page_to_frame` and
-- `unmap_page` against it.
use hltos.Base.{
  ℕ, zero, suc, ◌+◌, ◌*◌, ◌%◌, ◌^◌, ◌≤◌, ◌<◌, ◌≡◌, ◌≢◌, refl, sym, ap, ◌∙◌, inl, inr, false, Option,
  none, some, ◌&&◌, arith, ◌==◌, Bool-cases,
}
use hltos.Pmm.{Pmm}
use hltos.Vmm.{Entry, Vmm, Place, write_entry}
use hltos.Vmm.Walk.{up, walk, Covers, walk-place, walk-kept}
use hltos.Vmm.Growth.{Ready, Tree}

abbrev pub entry_at : (ℕ → ℕ → Entry) → Option Place → Option Entry
entry_at table none = none
entry_at table (some (t, i)) = some (table t i)

-- The entry of a page, if the page is mapped.
abbrev pub translate : (ℕ → ℕ → Entry) → ℕ → ℕ → Option Entry
translate table root n = entry_at table (walk table 3 root n)

up-below : (k n l : ℕ) → k < 2 ^ 37 → 2 ^ 36 ≤ n → k ≢ n → l ≤ 3 → up l k ≢ n
up-below k n zero h b other c = other
up-below k n (suc zero) h b other c = λ e. omega arith
up-below k n (suc (suc zero)) h b other c = λ e. omega arith
up-below k n (suc (suc (suc zero))) h b other c = λ e. omega arith
up-below k n (suc (suc (suc (suc l)))) h b other c = absurd (omega arith)

pub write_entry-other :
    (table : ℕ → ℕ → Entry) (t i s j : ℕ) (e : Entry)
    → (s == t && j == i) ≡ false
    → write_entry table t i e s j ≡ table s j
write_entry-other table t i s j e h = rw h refl

-- Places with different keys.
pub other_place :
    (own : ℕ → ℕ) (t i s j : ℕ) → own s * 512 + j ≢ own t * 512 + i → (s == t && j == i) ≡ false
other_place own t i s j other = elim (Bool-cases (s == t && j == i)) [
  | inl both ↦
      let tables : s ≡ t = ground (arith, both) in
      let indices : j ≡ i = ground (arith, both) in
      absurd (other (omega (arith, ap own tables, indices)))
  | inr h ↦ h
]

-- A write to the entry of page `n` in a table of the last level.
module _ (lo hi root n pt : ℕ) (own : ℕ → ℕ) (m : Vmm) (e : Entry) where
  abbrev pub written : ℕ → ℕ → Entry
  written = write_entry m.table pt (n % 512) e

  pub Tree-leaf :
      Tree lo hi root own m
      → Covers lo hi n
      → own pt ≡ up 1 n
      → (q : Pmm) → Ready own q
      → Tree lo hi root own (record m { pmm = q; table = written })
  Tree-leaf t c key q ready = record {
    top = t.top;
    tree = λ s j k1 k2 b area present.
        let same =
          write_entry-other m.table pt (n % 512) s j e
            (other_place own pt (n % 512) s j (λ h. omega (arith, h, key, c, k2, b))) in
        ap (λ (w : Entry). own w.addr) same
        ∙ t.tree s j k1 k2 b area (ap (λ (w : Entry). w.p) (sym same) ∙ present);
    ready = ready;
  }

  pub translate-leaf_other :
      (k : ℕ)
      → Tree lo hi root own m
      → Covers lo hi n
      → Covers lo hi k
      → own pt ≡ up 1 n
      → k ≢ n
      → translate written root k ≡ translate m.table root k
  translate-leaf_other k t c ck key other =
      let whole : own pt * 512 + n % 512 ≡ n = omega (arith, key) in
      let kept =
        walk-kept lo hi own m.table written pt (n % 512) 3 root k t.tree
          (λ s j h off. write_entry-other m.table pt (n % 512) s j e off) ck
          (λ l b h.
            up-below k n l (omega (arith, ck)) (omega (arith, c)) other b (omega (arith, h, whole)))
          (omega arith) (omega (arith, t.top, ck)) in
      ap (entry_at written) kept ∙ same_entry (walk m.table 3 root k) refl
    where
      same_entry :
          (found : Option Place)
          → walk m.table 3 root k ≡ found
          → entry_at written found ≡ entry_at m.table found
      same_entry none e = refl
      same_entry (some (s, i)) e =
          let (key_s, index, present) =
            walk-place lo hi own m.table 3 root k s i t.tree ck (omega arith)
              (omega (arith, t.top, ck)) e in
          ap some (
            write_entry-other m.table pt (n % 512) s i _
              (other_place own pt (n % 512) s i (λ h. other (omega (arith, h, key_s, index, key)))))
