-- ===== src/SysFd/Table.antt =====
-- Opening and closing in the table of src/kernel/lib/syscall/sys_fd.cpp.
use hltos.Base.{
  ℕ, zero, suc, ◌+◌, ◌<◌, ◌≡◌, ◌≢◌, refl, ap, ◌∙◌, true, false, Option, none, some, List, [], ◌∷◌,
  ◌++◌, arith, leb, if◌then◌else◌, length, length-append, length-set, get_or, get_or-set,
  get_or-append, set, Bool-cases, inl, inr,
}
use hltos.Base.Int.{ℤ, pos, negsuc}
use hltos.Base.Run.{ok, fault}
use hltos.SysFd.{Files, alloc_loop, alloc_fd, get_fd, sys_open, sys_close}

-- Every entry is a descriptor with an inode.
abbrev pub IsFull : (ℕ → Option ℕ) → List (Option ℕ) → Type 0
IsFull inode_of [] = Unit {0}
IsFull inode_of (none ∷ fds) = ⊥
IsFull inode_of (some d ∷ fds) = ((i : ℕ) × (inode_of d ≡ some i)) × IsFull inode_of fds

alloc_loop-full :
    (inode_of : ℕ → Option ℕ) (fds : List (Option ℕ)) (i : ℕ)
    → IsFull inode_of fds
    → alloc_loop inode_of fds i ≡ ok none
unfolding alloc_loop
alloc_loop-full inode_of [] i h = refl
alloc_loop-full inode_of (none ∷ fds) i h = absurd h
alloc_loop-full inode_of (some d ∷ fds) i ((inode, e), h) =
    rw (alloc_loop, e) (alloc_loop-full inode_of fds (i + 1) h)

set-last :
    (fds : List (Option ℕ)) (d : Option ℕ) → set (fds ++ none ∷ []) (length fds) d ≡ fds ++ d ∷ []
set-last [] d = refl
set-last (x ∷ fds) d = ap (λ t. x ∷ t) (set-last fds d)

get_or-last : (fds : List (Option ℕ)) (d : Option ℕ) → get_or (fds ++ d ∷ []) (length fds) none ≡ d
get_or-last [] d = refl
get_or-last (x ∷ fds) d = get_or-last fds d

-- A new last entry is seen at its own index only.
get_or-longer :
    (fds : List (Option ℕ)) (d : Option ℕ) (n : ℕ)
    → n ≢ length fds
    → (if leb (length (fds ++ d ∷ [])) n then none else get_or (fds ++ d ∷ []) n none)
      ≡ (if leb (length fds) n then none else get_or fds n none)
get_or-longer fds d n ne =
    let longer = length-append fds (d ∷ []) in
    elim (Bool-cases (leb (length fds) n)) [
      | inl e ↦
          let out : leb (length (fds ++ d ∷ [])) n ≡ true = ground (arith, e, ne, longer) in
          rw (e, out) refl
      | inr e ↦
          let inside : leb (length (fds ++ d ∷ [])) n ≡ false = ground (arith, e, longer) in
          rw (e, inside) (get_or-append fds (d ∷ []) n none (ground (arith, e)))
    ]

get_fd-longer :
    (p : Files) (d : Option ℕ) (fd : ℤ)
    → fd ≢ pos (length p.fd_table)
    → get_fd (record p { fd_table = p.fd_table ++ d ∷ [] }) fd ≡ get_fd p fd
unfolding get_fd
get_fd-longer p d (negsuc n) ne = refl
get_fd-longer p d (pos n) ne = get_or-longer p.fd_table d n (λ e. ne (ap pos e))

get_fd-last :
    (p : Files) (d : Option ℕ)
    → get_fd (record p { fd_table = p.fd_table ++ d ∷ [] }) (pos (length p.fd_table)) ≡ d
unfolding get_fd
get_fd-last p d =
    let longer = length-append p.fd_table (d ∷ []) in
    let inside : leb (length (p.fd_table ++ d ∷ [])) (length p.fd_table) ≡ false =
      ground (arith, longer) in
    rw inside (get_or-last p.fd_table d)

-- `open` on a table in which every entry is a descriptor with an inode appends the new descriptor and
-- returns its index: `get_fd` finds it there, and finds every other number as before.
pub get_fd-sys_open :
    (p : Files) (desc : ℕ)
    → IsFull p.inode_of p.fd_table
    → (q : Files) × (sys_open p (some desc) ≡ ok (pos (length p.fd_table), q))
      × (get_fd q (pos (length p.fd_table)) ≡ some desc)
      × ((fd : ℤ) → fd ≢ pos (length p.fd_table) → get_fd q fd ≡ get_fd p fd)
unfolding sys_open alloc_fd
get_fd-sys_open p desc h =
    let e = alloc_loop-full p.inode_of p.fd_table 0 h in
    let q = record p { fd_table = p.fd_table ++ some desc ∷ [] } in
    (
      q,
      rw (e, set-last p.fd_table (some desc)) refl,
      get_fd-last p (some desc),
      λ fd ne. get_fd-longer p (some desc) fd ne,
    )

alloc_loop-null :
    (inode_of : ℕ → Option ℕ) (fds : List (Option ℕ)) (n i : ℕ)
    → IsFull inode_of fds
    → n < length fds
    → alloc_loop inode_of (set fds n none) i ≡ fault
unfolding alloc_loop
alloc_loop-null inode_of [] n i h p = absurd (omega (arith, p))
alloc_loop-null inode_of (none ∷ fds) n i h p = absurd h
alloc_loop-null inode_of (some d ∷ fds) zero i h p = refl
alloc_loop-null inode_of (some d ∷ fds) (suc n) i ((inode, e), h) p =
    rw (alloc_loop, e) (alloc_loop-null inode_of fds n (i + 1) h (omega (arith, p)))

full-entry :
    (inode_of : ℕ → Option ℕ) (fds : List (Option ℕ)) (n : ℕ)
    → IsFull inode_of fds
    → n < length fds
    → (d : ℕ) × (get_or fds n none ≡ some d)
full-entry inode_of [] n h p = absurd (omega (arith, p))
full-entry inode_of (none ∷ fds) n h p = absurd h
full-entry inode_of (some d ∷ fds) zero h p = (d, refl)
full-entry inode_of (some d ∷ fds) (suc n) (_, h) p = full-entry inode_of fds n h (omega (arith, p))

-- In a table of which every entry is a descriptor with an inode, closing a number below its length
-- returns what the inode answers; after that the number is free, but every `open` of a path that is
-- there dereferences the null pointer that `close` has left.
pub sys_close-sys_open :
    (close : ℕ → ℤ) (p : Files) (n desc : ℕ)
    → IsFull p.inode_of p.fd_table
    → n < length p.fd_table
    → (d : ℕ) × (q : Files) × (get_fd p (pos n) ≡ some d)
      × (sys_close close p (pos n) ≡ (close d, q))
      × (get_fd q (pos n) ≡ none)
      × (sys_open q (some desc) ≡ fault)
unfolding sys_open sys_close alloc_fd get_fd
sys_close-sys_open close p n desc h inside =
    let (d, e) = full-entry p.inode_of p.fd_table n h inside in
    let below : leb (length p.fd_table) n ≡ false = ground (arith, inside) in
    let still : leb (length (set p.fd_table n none)) n ≡ false =
      ground (arith, inside, length-set p.fd_table n none) in
    let cleared : get_or (set p.fd_table n none) n none ≡ none =
      get_or-set p.fd_table n n none none inside ∙ ground arith in
    (
      d,
      record p { fd_table = set p.fd_table n none },
      rw below e,
      rw (below, sys_close, e) refl,
      rw still cleared,
      rw (alloc_loop-null p.inode_of p.fd_table n 0 h inside) refl,
    )
