-- ===== src/Tmpfs/Directory.antt =====
-- The directories of src/kernel/lib/fs/tmpfs/tmpfs.cpp: the children in the order of creation, and the
-- counter of inode numbers of the mount point.
use mathlib.Core.Path.{subst}
use hltos.Base.{
  ℕ, ◌+◌, ◌-◌, ◌^◌, ◌<◌, ◌≤◌, ◌≡◌, ◌≢◌, refl, ap, ◌∙◌, sym, true, false, not, Option, none, some,
  List, [], ◌∷◌, ◌++◌, arith, ltb, if◌then◌else◌, length, count, None, All, count-append, text_eq,
  text_eq_refl, text_eq_iff, Bool-cases, Option-cases, inl, inr, ◌==◌, ◌⊎◌, ◌∷◌,
}
use hltos.Base.Int.{ℤ, pos, negsuc}
use hltos.Base.Run.{Run, ok, fault}

pub data FileType : Type 0 where
  no_type regular directory char_device : FileType

-- An inode as its directory sees it.
pub record Child : Type 0 where
  pub name : List ℕ
  pub type : FileType
  pub ino : ℕ

-- A `TmpDirectoryInode` with the `next_ino` of its mount point, an `int`.
pub record Directory : Type 0 where
  pub children : List Child
  pub next_ino : ℕ

-- The loop of `lookup`.
unfoldable pub lookup_loop : List ℕ → List Child → Option Child
lookup_loop name [] = none
lookup_loop name (c ∷ children) =
    let rest = lookup_loop name children in if text_eq c.name name then some c else rest

unfoldable pub lookup : Directory → List ℕ → Option Child
lookup d name = lookup_loop name d.children

-- The largest `int`.
abbrev pub int_max : ℕ
int_max = 2 ^ 31 - 1

-- The directory with one more child, which took the number from the counter.
abbrev pub with_child : Directory → List ℕ → FileType → Directory
with_child d name type = record {
  children = d.children ++ record { name = name; type = type; ino = d.next_ino } ∷ [];
  next_ino = d.next_ino + 1;
}

-- The new inode of `mkdir` and `create`, which differ in its type. Its constructor counts on, and at the
-- largest `int` that overflows, of which C++ promises nothing.
unfoldable pub add_child : Directory → List ℕ → FileType → Run (ℤ × Directory)
add_child d name type = if ltb d.next_ino int_max then ok (pos 0, with_child d name type) else fault

unfoldable pub mkdir : Directory → List ℕ → Run (ℤ × Directory)
mkdir d name = elim (lookup d name) [
  | some c ↦ ok (negsuc 0, d)
  | none ↦ add_child d name directory
]

unfoldable pub create : Directory → List ℕ → Run (ℤ × Directory)
create d name = elim (lookup d name) [ some c ↦ ok (negsuc 0, d) | none ↦ add_child d name regular ]

-- The loop of `readdir`: what it appends to the entries.
abbrev entries_of : List Child → List (List ℕ × FileType)
entries_of [] = []
entries_of (c ∷ children) = (c.name, c.type) ∷ entries_of children

unfoldable pub readdir : Directory → List (List ℕ × FileType) → ℕ × List (List ℕ × FileType)
readdir d entries = (length d.children, entries ++ entries_of d.children)

-- No two children have one name, and every inode number was handed out once.
pub record IsValid (d : Directory) : Type 0 where
  pub name_once : (name : List ℕ) → count (λ c. text_eq c.name name) d.children ≤ 1
  pub ino_once : (n : ℕ) → count (λ c. c.ino == n) d.children ≤ 1
  pub ino_below : All (λ c. ltb c.ino d.next_ino) d.children

lookup_loop-none :
    (name : List ℕ) (children : List Child)
    → lookup_loop name children ≡ none
    → None (λ c. text_eq c.name name) children
unfolding lookup_loop
lookup_loop-none name [] h = refl
lookup_loop-none name (c ∷ children) h = ground (arith, h, lookup_loop-none name children)

lookup_loop-fresh :
    (name : List ℕ) (children : List Child) (c : Child)
    → lookup_loop name children ≡ none
    → text_eq c.name name ≡ true
    → lookup_loop name (children ++ c ∷ []) ≡ some c
unfolding lookup_loop
lookup_loop-fresh name [] c h e = rw e refl
lookup_loop-fresh name (b ∷ children) c h e = elim (Bool-cases (text_eq b.name name)) [
  | inl s ↦ ground (arith, h, s)
  | inr s ↦ rw s (lookup_loop-fresh name children c (ground (arith, h, s)) e)
]

lookup_loop-other :
    (name : List ℕ) (children : List Child) (c : Child)
    → text_eq c.name name ≡ false
    → lookup_loop name (children ++ c ∷ []) ≡ lookup_loop name children
unfolding lookup_loop
lookup_loop-other name [] c e = rw e refl
lookup_loop-other name (b ∷ children) c e = elim (Bool-cases (text_eq b.name name)) [
  | inl s ↦ rw s refl
  | inr s ↦ rw s (lookup_loop-other name children c e)
]

no_number :
    (children : List Child) (n : ℕ)
    → All (λ c. ltb c.ino n) children
    → None (λ c. c.ino == n) children
no_number [] n h = refl
no_number (c ∷ children) n h = ground (arith, h, no_number children n)

below_suc :
    (children : List Child) (n : ℕ)
    → All (λ c. ltb c.ino n) children
    → All (λ c. ltb c.ino (n + 1)) children
below_suc [] n h = refl
below_suc (c ∷ children) n h = ground (arith, h, below_suc children n)

with_child-IsValid :
    (d : Directory) (name : List ℕ) (type : FileType)
    → IsValid d
    → lookup d name ≡ none
    → IsValid (with_child d name type)
unfolding lookup
with_child-IsValid d name type v h =
    let c : Child = record { name = name; type = type; ino = d.next_ino } in
    record {
      name_once = λ other. elim (Bool-cases (text_eq name other)) [
        | inl e ↦
            let same = (text_eq_iff name other).0 e in
            let free : None (λ b. text_eq b.name other) d.children =
              ap (λ t. count (λ (b : Child). text_eq b.name t) d.children) (sym same)
              ∙ lookup_loop-none name d.children h in
            ground (arith, count-append (λ b. text_eq b.name other) d.children (c ∷ []), free, e)
        | inr e ↦ ground (
          arith,
          count-append (λ b. text_eq b.name other) d.children (c ∷ []),
          v.name_once other,
          e,
        )
      ];
      ino_once = λ n.
          let once = count-append (λ b. b.ino == n) d.children (c ∷ []) in
          elim (Bool-cases (d.next_ino == n)) [
            | inl e ↦
                let same : d.next_ino ≡ n = ground (arith, e) in
                let free : None (λ b. b.ino == n) d.children =
                  ap (λ m. count (λ (b : Child). b.ino == m) d.children) (sym same)
                  ∙ no_number d.children d.next_ino v.ino_below in
                ground (arith, once, free)
            | inr e ↦ ground (arith, once, v.ino_once n, e)
          ];
      ino_below = ground (
        arith,
        count-append (λ b. not (ltb b.ino (d.next_ino + 1))) d.children (c ∷ []),
        below_suc d.children d.next_ino v.ino_below,
      );
    }

-- The directory with a new child: it is valid, finds the child by its name, and finds every other
-- name as before.
pub record Added (d d' : Directory) (name : List ℕ) (type : FileType) : Type 0 where
  pub valid : IsValid d'
  pub found : lookup d' name ≡ some (record { name = name; type = type; ino = d.next_ino })
  pub others : (other : List ℕ) → other ≢ name → lookup d' other ≡ lookup d other

with_child-Added :
    (d : Directory) (name : List ℕ) (type : FileType)
    → IsValid d
    → lookup d name ≡ none
    → Added d (with_child d name type) name type
unfolding lookup
with_child-Added d name type v h =
    let c : Child = record { name = name; type = type; ino = d.next_ino } in
    record {
      valid = with_child-IsValid d name type v h;
      found = lookup_loop-fresh name d.children c h (text_eq_refl name);
      others = λ other ne.
          let apart : text_eq name other ≡ false = elim (Bool-cases (text_eq name other)) [
            | inl e ↦ absurd (ne (sym ((text_eq_iff name other).0 e)))
            | inr e ↦ e
          ] in
          lookup_loop-other other d.children c apart;
    }

-- What a call that adds a child of the type does: on a name that is there it answers -1 and changes
-- nothing; on any other name it answers 0 and adds the child, or the counter has reached its largest
-- value and overflows.
abbrev pub AddOutcome : Directory → List ℕ → FileType → Run (ℤ × Directory) → Type 0
AddOutcome d name type r =
    ((c : Child) × (lookup d name ≡ some c) × (r ≡ ok (negsuc 0, d)))
    ⊎ (((lookup d name ≡ none)
          × (d.next_ino < int_max)
          × (d' : Directory) × (r ≡ ok (pos 0, d'))
          × Added d d' name type)
        ⊎ ((lookup d name ≡ none) × (int_max ≤ d.next_ino) × (r ≡ fault)))

add_child-Outcome :
    (d : Directory) (name : List ℕ) (type : FileType)
    → IsValid d
    → lookup d name ≡ none
    → AddOutcome d name type (add_child d name type)
unfolding add_child
add_child-Outcome d name type v e = elim (Bool-cases (ltb d.next_ino int_max)) [
  | inl room ↦ inr (
      inl (
        e,
        ground (arith, room),
        with_child d name type,
        rw room refl,
        with_child-Added d name type v e,
      ))
  | inr full ↦ inr (inr (e, ground (arith, full), rw full refl))
]

create_new :
    (d : Directory) (name : List ℕ)
    → lookup d name ≡ none
    → create d name ≡ add_child d name regular
unfolding create
create_new d name e = rw (create, e) refl

create_there :
    (d : Directory) (name : List ℕ) (c : Child)
    → lookup d name ≡ some c
    → create d name ≡ ok (negsuc 0, d)
unfolding create
create_there d name c e = rw (create, e) refl

-- `create` on a name that is there answers -1 and changes nothing. On any other name, while the counter
-- of inode numbers is below the largest `int`, it answers 0 and adds a regular file with a fresh
-- inode number, and nothing else; at the largest `int` the counter overflows.
pub create-Added :
    (d : Directory) (name : List ℕ) → IsValid d → AddOutcome d name regular (create d name)
create-Added d name v = elim (Option-cases (lookup d name)) [
  | inl e ↦
      subst (AddOutcome d name regular) (sym (create_new d name e))
        (add_child-Outcome d name regular v e)
  | inr (c, e) ↦ inl (c, e, create_there d name c e)
]
