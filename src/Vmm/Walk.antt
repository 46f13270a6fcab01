-- ===== src/Vmm/Walk.antt =====
-- The page tables of vmm.cpp as a tree. A ghost map gives each table its key: the root has key 1, and
-- the table behind entry `i` of a table with key `k` has key `512 * k + i`. So the key of a table
-- names the path that leads to it, and no two paths share a table.
use hltos.Base.{
  ℕ, zero, suc, ◌+◌, ◌*◌, ◌/◌, ◌%◌, ◌^◌, ◌≤◌, ◌<◌, ◌≡◌, ◌≢◌, refl, ap, ◌∙◌, ◌⊎◌, inl, inr, Bool,
  true, false, Option, none, some, ◌&&◌, arith, ◌==◌, if◌then◌else◌, Bool-cases,
}
use hltos.Vmm.{Entry, Vmm, Place, find_pte}

abbrev Table : Type 0
Table = ℕ → ℕ → Entry

-- The number of a page, behind a leading one.
abbrev pub page_number : ℕ → ℕ
page_number virt = 2 ^ 36 + virt / 2 ^ 12 % 2 ^ 36

abbrev pub IsNumber : ℕ → Type 0
IsNumber n = (2 ^ 36 ≤ n) × (n < 2 ^ 37)

abbrev pub up : ℕ → ℕ → ℕ
up zero n = n
up (suc l) n = up l n / 512

-- A walk from a table of level `l` down to an entry of the last level.
unfoldable pub walk : (ℕ → ℕ → Entry) → ℕ → ℕ → ℕ → Option Place
walk table zero t n = if (table t (n % 512)).p then some (t, n % 512) else none
walk table (suc l) t n =
    let e = table t (up (suc l) n % 512) in
    let below = walk table l e.addr n in if e.p then below else none

pub find_pte-walk :
    (m : Vmm) (pml4 virt : ℕ) → find_pte m pml4 virt ≡ walk m.table 3 pml4 (page_number virt)
unfolding find_pte walk
find_pte-walk m pml4 virt =
    let e3 : virt / 2 ^ 39 % 512 ≡ page_number virt / 512 / 512 / 512 % 512 = omega arith in
    let e2 : virt / 2 ^ 30 % 512 ≡ page_number virt / 512 / 512 % 512 = omega arith in
    let e1 : virt / 2 ^ 21 % 512 ≡ page_number virt / 512 % 512 = omega arith in
    let e0 : virt / 2 ^ 12 % 512 ≡ page_number virt % 512 = omega arith in
    ground (arith, e3, e2, e1, e0)

-- The keys of the part of the tree that is looked at: the entries `lo` to `hi - 1` of the root, and
-- all below them.
abbrev pub InRegion : ℕ → ℕ → ℕ → Type 0
InRegion lo hi k = k < 1024 → (512 + lo ≤ k) × (k < 512 + hi)

-- A page below one of these entries of the root.
abbrev pub Covers : ℕ → ℕ → ℕ → Type 0
Covers lo hi n = IsNumber n × (512 + lo ≤ up 3 n) × (up 3 n < 512 + hi)

pub Covers-InRegion : (lo hi n l : ℕ) → Covers lo hi n → l ≤ 3 → InRegion lo hi (up l n)
Covers-InRegion lo hi n zero c h = λ small. absurd (omega arith)
Covers-InRegion lo hi n (suc zero) c h = λ small. absurd (omega arith)
Covers-InRegion lo hi n (suc (suc zero)) c h = λ small. absurd (omega arith)
Covers-InRegion lo hi n (suc (suc (suc zero))) c h = λ small. (c.1, c.2)
Covers-InRegion lo hi n (suc (suc (suc (suc l)))) c h = absurd (omega arith)

-- A table of the tree that is not of the last level, with a present entry, has its child in the tree.
abbrev pub IsTree : ℕ → ℕ → (ℕ → ℕ) → (ℕ → ℕ → Entry) → Type 0
IsTree lo hi own table =
    (t i : ℕ)
    → 0 < own t
    → own t < 2 ^ 27
    → i < 512
    → InRegion lo hi (own t * 512 + i)
    → (table t i).p ≡ true
    → own (table t i).addr ≡ own t * 512 + i

-- Outside one entry, the tables of the tree are the same.
abbrev pub AgreeOff : (ℕ → ℕ) → ℕ → ℕ → (ℕ → ℕ → Entry) → (ℕ → ℕ → Entry) → Type 0
AgreeOff own t i table table' =
    (s j : ℕ) → 0 < own s → (s == t && j == i) ≡ false → table' s j ≡ table s j

up-positive : (n l : ℕ) → IsNumber n → l ≤ 3 → (0 < up (suc l) n) × (up (suc l) n < 2 ^ 28)
up-positive n zero h b = omega arith
up-positive n (suc zero) h b = omega arith
up-positive n (suc (suc zero)) h b = omega arith
up-positive n (suc (suc (suc zero))) h b = omega arith
up-positive n (suc (suc (suc (suc l)))) h b = absurd (omega arith)

up-inner : (n l : ℕ) → IsNumber n → suc l ≤ 3 → up (suc (suc l)) n < 2 ^ 27
up-inner n zero h b = omega arith
up-inner n (suc zero) h b = omega arith
up-inner n (suc (suc zero)) h b = omega arith
up-inner n (suc (suc (suc l))) h b = absurd (omega arith)

-- The entry that a walk reads is another one than entry `i` of `x`, if the key behind that is not on
-- the path.
elsewhere :
    (own : ℕ → ℕ) (x i t k : ℕ)
    → own t ≡ k / 512
    → k ≢ own x * 512 + i
    → (t == x && k % 512 == i) ≡ false
elsewhere own x i t k e off = elim (Bool-cases (t == x && k % 512 == i)) [
  | inl both ↦
      let table_same : t ≡ x = ground (arith, both) in
      let index_same : k % 512 ≡ i = ground (arith, both) in
      absurd (off (omega (arith, e, ap own table_same, index_same)))
  | inr other ↦ other
]

module _ (lo hi : ℕ) (own : ℕ → ℕ) where
  -- The child that a walk goes on to.
  child_key :
      (table : ℕ → ℕ → Entry) (l t n : ℕ)
      → IsTree lo hi own table
      → Covers lo hi n
      → suc l ≤ 3
      → own t ≡ up (suc (suc l)) n
      → (table t (up (suc l) n % 512)).p ≡ true
      → own (table t (up (suc l) n % 512)).addr ≡ up (suc l) n
  child_key table l t n tree c b e present =
      let whole : own t * 512 + up (suc l) n % 512 ≡ up (suc l) n = omega (arith, e) in
      let area = Covers-InRegion lo hi n (suc l) c b in
      tree t (up (suc l) n % 512) (omega (arith, e, up-positive n (suc l) c.0 b))
        (omega (arith, e, up-inner n l c.0 b)) (omega arith)
        (λ small. omega (arith, whole, area (omega (arith, whole)))) present
      ∙ whole

  -- A walk ends at the table whose key is the path of the page.
  pub walk-place :
      (table : ℕ → ℕ → Entry) (l t n s i : ℕ)
      → IsTree lo hi own table
      → Covers lo hi n
      → l ≤ 3
      → own t ≡ up (suc l) n
      → walk table l t n ≡ some (s, i)
      → (own s ≡ up 1 n) × (i ≡ n % 512) × ((table s i).p ≡ true)
  unfolding walk
  walk-place table zero t n s i tree c b e found = ground (arith, e, found)
  walk-place table (suc l) t n s i tree c b e found =
      let present : (table t (up (suc l) n % 512)).p ≡ true = ground (arith, found) in
      walk-place table l (table t (up (suc l) n % 512)).addr n s i tree c (omega (arith, b))
        (child_key table l t n tree c b e present) (ground (arith, found, present))

  -- A write to an entry that is on no walk to the page.
  pub walk-kept :
      (table table' : ℕ → ℕ → Entry) (x i l t n : ℕ)
      → IsTree lo hi own table
      → AgreeOff own x i table table'
      → Covers lo hi n
      → ((k : ℕ) → k ≤ 3 → up k n ≢ own x * 512 + i)
      → l ≤ 3
      → own t ≡ up (suc l) n
      → walk table' l t n ≡ walk table l t n
  unfolding walk
  walk-kept table table' x i zero t n tree agree c off b e =
      let same : table' t (n % 512) ≡ table t (n % 512) =
        agree t (n % 512) (omega (arith, e, up-positive n 0 c.0 b))
          (elsewhere own x i t n e (off 0 b)) in
      rw same refl
  walk-kept table table' x i (suc l) t n tree agree c off b e =
      let positive = up-positive n (suc l) c.0 b in
      let same : table' t (up (suc l) n % 512) ≡ table t (up (suc l) n % 512) =
        agree t (up (suc l) n % 512) (omega (arith, e, positive))
          (elsewhere own x i t (up (suc l) n) e (off (suc l) b)) in
      elim (Bool-cases (table t (up (suc l) n % 512)).p) [
        | inl present ↦
            rw (same, present)
              (walk-kept table table' x i l (table t (up (suc l) n % 512)).addr n tree agree c off
                (omega (arith, b)) (child_key table l t n tree c b e present))
        | inr absent ↦ rw (same, absent) refl
      ]

walk-empty :
    (table : ℕ → ℕ → Entry) (l t n : ℕ)
    → ((j : ℕ) → (table t j).p ≡ false)
    → walk table l t n ≡ none
unfolding walk
walk-empty table zero t n h = rw (h (n % 512)) refl
walk-empty table (suc l) t n h = rw (h (up (suc l) n % 512)) refl

module _ (lo hi : ℕ) (own : ℕ → ℕ) where
  -- An entry of an inner table that was not present comes to lead to an empty table.
  pub walk-grown :
      (table table' : ℕ → ℕ → Entry) (x i l t n : ℕ)
      → IsTree lo hi own table
      → AgreeOff own x i table table'
      → Covers lo hi n
      → own x < 2 ^ 27
      → (table x i).p ≡ false
      → ((j : ℕ) → (table' (table' x i).addr j).p ≡ false)
      → l ≤ 3
      → own t ≡ up (suc l) n
      → walk table' l t n ≡ walk table l t n
  unfolding walk
  walk-grown table table' x i zero t n tree agree c inner absent bare b e =
      let other : (t == x) ≡ false = not_leaf (Bool-cases (t == x)) in
      let same : table' t (n % 512) ≡ table t (n % 512) =
        agree t (n % 512) (omega (arith, e, c)) (ground (arith, other)) in
      rw same refl
    where
      not_leaf : ((t == x) ≡ true) ⊎ ((t == x) ≡ false) → (t == x) ≡ false
      not_leaf (inl h) =
          let same : t ≡ x = ground (arith, h) in absurd (omega (arith, ap own same, e, c, inner))
      not_leaf (inr h) = h
  walk-grown table table' x i (suc l) t n tree agree c inner absent bare b e =
      elim (Bool-cases (t == x && up (suc l) n % 512 == i)) [
        | inl here ↦
            let table_same : t ≡ x = ground (arith, here) in
            let index_same : up (suc l) n % 512 ≡ i = ground (arith, here) in
            let none_below = walk-empty table' l (table' x i).addr n bare in
            rw (table_same, index_same, absent, none_below) (both_none (table' x i).p)
        | inr off ↦
            let same : table' t (up (suc l) n % 512) ≡ table t (up (suc l) n % 512) =
              agree t (up (suc l) n % 512) (omega (arith, e, up-positive n (suc l) c.0 b)) off in
            elim (Bool-cases (table t (up (suc l) n % 512)).p) [
              | inl present ↦
                  rw (same, present)
                    (walk-grown table table' x i l (table t (up (suc l) n % 512)).addr n tree agree
                      c inner absent bare (omega (arith, b))
                      (child_key lo hi own table l t n tree c b e present))
              | inr none_there ↦ rw (same, none_there) refl
            ]
      ]
    where
      both_none : (q : Bool) → ◌≡◌ {A = Option Place} (if q then none else none) none
      both_none true = refl
      both_none false = refl

pub walk_present :
    (table : ℕ → ℕ → Entry) (l t n s : ℕ)
    → (table t (up (suc l) n % 512)).p ≡ true
    → (table t (up (suc l) n % 512)).addr ≡ s
    → walk table (suc l) t n ≡ walk table l s n
unfolding walk
walk_present table l t n s h a = ground (arith, h, ap (λ u. walk table l u n) a)

pub walk_leaf :
    (table : ℕ → ℕ → Entry) (s n : ℕ)
    → (table s (n % 512)).p ≡ true
    → walk table 0 s n ≡ some (s, n % 512)
unfolding walk
walk_leaf table s n h = rw h refl

module _ (lo hi : ℕ) (own : ℕ → ℕ) where
  -- The entry that a walk found is not present any more.
  pub walk-cleared :
      (table table' : ℕ → ℕ → Entry) (s l t n : ℕ)
      → IsTree lo hi own table
      → AgreeOff own s (n % 512) table table'
      → Covers lo hi n
      → own s ≡ up 1 n
      → (table' s (n % 512)).p ≡ false
      → l ≤ 3
      → own t ≡ up (suc l) n
      → walk table l t n ≡ some (s, n % 512)
      → walk table' l t n ≡ none
  unfolding walk
  walk-cleared table table' s zero t n tree agree c key clear b e found =
      let same : t ≡ s = ground (arith, found) in
      let here : (table' t (n % 512)).p ≡ false = ap (λ u. (table' u (n % 512)).p) same ∙ clear in
      rw here refl
  walk-cleared table table' s (suc l) t n tree agree c key clear b e found =
      let other : (t == s) ≡ false = inner (Bool-cases (t == s)) in
      let same : table' t (up (suc l) n % 512) ≡ table t (up (suc l) n % 512) =
        agree t (up (suc l) n % 512) (omega (arith, e, up-positive n (suc l) c.0 b))
          (rw other refl) in
      let present : (table t (up (suc l) n % 512)).p ≡ true = ground (arith, found) in
      rw (same, present)
        (walk-cleared table table' s l (table t (up (suc l) n % 512)).addr n tree agree c key clear
          (omega (arith, b)) (child_key lo hi own table l t n tree c b e present)
          (ground (arith, found, present)))
    where
      inner : ((t == s) ≡ true) ⊎ ((t == s) ≡ false) → (t == s) ≡ false
      inner (inl h) =
          let same : t ≡ s = ground (arith, h) in
          absurd (omega (arith, ap own same, e, key, c, up-inner n l c.0 b))
      inner (inr h) = h
