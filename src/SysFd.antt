-- ===== src/SysFd.antt =====
-- The table of file descriptors of src/kernel/lib/syscall/sys_fd.cpp. Descriptors are addresses, `none`
-- is `nullptr`, and `inode_of` is the memory that holds their inodes. What `fs::open` and the virtual
-- functions of the inodes answer is a parameter.
pub mod Table
mod Tests
use hltos.Base.{
  ℕ, zero, suc, ◌+◌, ◌≡◌, refl, Bool, true, false, ◌||◌, Option, none, some, List, [], ◌∷◌, ◌++◌,
  leb, if◌then◌else◌, length, get_or, set,
}
use hltos.Base.Int.{ℤ, pos, negsuc, is_negative}
use hltos.Base.Run.{Run, ok, panic, fault, ◌>>=◌}

-- The part of `Process` that the calls use.
pub record Files : Type 0 where
  pub fd_table : List (Option ℕ)
  pub inode_of : ℕ → Option ℕ

-- The loop of `alloc_fd` from an index on: the first descriptor without an inode. A null entry is
-- dereferenced.
unfoldable pub alloc_loop : (ℕ → Option ℕ) → List (Option ℕ) → ℕ → Run (Option ℕ)
alloc_loop inode_of [] i = ok none
alloc_loop inode_of (none ∷ fds) i = fault
alloc_loop inode_of (some d ∷ fds) i =
    let rest = alloc_loop inode_of fds (i + 1) in
    elim (inode_of d) [ none ↦ ok (some i) | some inode ↦ rest ]

-- The index and the table.
unfoldable pub alloc_fd : Files → Run (ℕ × Files)
alloc_fd p = alloc_loop p.inode_of p.fd_table 0 >>= λ r. ok (elim r [
  | some i ↦ (i, p)
  | none ↦ (length p.fd_table, record p { fd_table = p.fd_table ++ none ∷ [] })
])

-- A file descriptor number, an `int`, as an index.
abbrev pub index_of : ℤ → ℕ
index_of (pos n) = n
index_of (negsuc n) = 0

unfoldable pub get_fd : Files → ℤ → Option ℕ
get_fd p fd =
    if is_negative fd || leb (length p.fd_table) (index_of fd)
    then none
    else get_or p.fd_table (index_of fd) none

-- `-ENOENT`
abbrev pub no_entry : ℤ
no_entry = negsuc 1

-- `-EBADF`
abbrev pub bad_file : ℤ
bad_file = negsuc 8

-- `sys_open`, by the descriptor that `fs::open` answers.
unfoldable pub sys_open : Files → Option ℕ → Run (ℤ × Files)
sys_open p none = ok (no_entry, p)
sys_open p (some desc) =
    alloc_fd p >>= λ (fd, q). ok (pos fd, record q { fd_table = set q.fd_table fd (some desc) })

-- `sys_close`, by what the inode's `close` answers for a descriptor.
unfoldable pub sys_close : (ℕ → ℤ) → Files → ℤ → ℤ × Files
sys_close close p fd = elim (get_fd p fd) [
  | none ↦ (bad_file, p)
  | some desc ↦ (close desc, record p { fd_table = set p.fd_table (index_of fd) none })
]

-- `sys_read`, `sys_write`, `sys_ioctl`, `sys_fstat` and `sys_lseek` hand the descriptor to the inode.
unfoldable pub with_fd : (ℕ → ℤ) → Files → ℤ → ℤ
with_fd operation p fd = elim (get_fd p fd) [ none ↦ bad_file | some desc ↦ operation desc ]
