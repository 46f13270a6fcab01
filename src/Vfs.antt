-- ===== src/Vfs.antt =====
-- Path resolution and mounting of src/kernel/lib/fs/fs.cpp. Inodes and mount points are known by their
-- addresses; `inode_at` and `mount_at` are the memory that holds them. The virtual functions of the
-- file systems, `Inode::lookup`, `stat`, `readdir`, `mkdir` and `FileSystem::mount`, are parameters
-- or, for the lookup of names, a part of the state. A text is the list of its characters.
pub mod Tree
mod Tests
use hltos.Base.{
  ℕ, zero, suc, ◌+◌, ◌-◌, Bool, true, false, not, ◌&&◌, ◌||◌, Option, none, some, List, [], ◌∷◌,
  ◌++◌, ◌==◌, if◌then◌else◌, length, is_empty, get_or, init, text_eq,
}
use hltos.Base.Int.{ℤ, pos, negsuc}
use hltos.Base.Run.{Run, ok, panic, fault, ◌>>=◌}
use hltos.Algo.{split, join_list}

pub data FileType : Type 0 where
  no_type regular directory char_device : FileType

pub record Inode : Type 0 where
  pub mountpoint : ℕ
  pub parent : Option ℕ
  pub type : FileType
  pub name : List ℕ

pub record MountPoint : Type 0 where
  pub path : List ℕ
  pub mounted_on : Option ℕ
  pub root_inode : ℕ

pub record Vfs : Type 0 where
  pub inode_at : ℕ → Inode
  pub mount_at : ℕ → MountPoint
  pub lookup : ℕ → List ℕ → Option ℕ
  pub root_mountpoint : Option ℕ
  pub mountpoints : List ℕ
  -- The current process's `cwd_inode`, if there is a current process and it has one.
  pub cwd_inode : Option ℕ

abbrev pub slash : ℕ
slash = 47

abbrev pub dot : List ℕ
dot = 46 ∷ []

abbrev pub dotdot : List ℕ
dotdot = 46 ∷ 46 ∷ []

abbrev pub is_address : Option ℕ → ℕ → Bool
is_address none i = false
is_address (some j) i = j == i

-- The loop of `getcwd`, with the names in front of the path so far. `none` is fuel run out, which the
-- source, that follows the parents to the root, does not have.
unfoldable pub getcwd_loop : ℕ → Vfs → Option ℕ → List (List ℕ) → Option (List (List ℕ))
getcwd_loop fuel v none path = some path
getcwd_loop zero v (some i) path = none
getcwd_loop (suc fuel) v (some i) path =
    let inode = v.inode_at i in
    getcwd_loop fuel v inode.parent (if is_empty inode.name then path else inode.name ∷ path)

unfoldable pub getcwd : ℕ → Vfs → Option ℕ → Option (List ℕ)
getcwd fuel v inode = elim (getcwd_loop fuel v inode []) [
  | none ↦ none
  | some path ↦ some (slash ∷ join_list path slash)
]

unfoldable pub find_mount_loop : Vfs → List ℕ → ℕ → Option ℕ
find_mount_loop v [] inode = none
find_mount_loop v (m ∷ mountpoints) inode =
    let rest = find_mount_loop v mountpoints inode in
    if is_address (v.mount_at m).mounted_on inode then some m else rest

unfoldable pub find_mount_at : Vfs → ℕ → Option ℕ
find_mount_at v inode = find_mount_loop v v.mountpoints inode

-- `..`: out of the root of a mounted file system, or to the parent if there is one.
unfoldable pub go_up : Vfs → ℕ → Option ℕ
go_up v current =
    let mp = v.mount_at (v.inode_at current).mountpoint in
    let up : Option ℕ = elim (v.inode_at current).parent [
      | none ↦ some current
      | some p ↦ some p
    ] in
    if current == mp.root_inode
    then elim mp.mounted_on [ none ↦ up | some on ↦ (v.inode_at on).parent ]
    else up

-- Down into a child, or into what is mounted on it.
unfoldable pub go_down : Vfs → ℕ → List ℕ → Option ℕ
go_down v current token = elim (v.lookup current token) [
  | none ↦ none
  | some next ↦ elim (find_mount_at v next) [
    | none ↦ some next
    | some m ↦ some (v.mount_at m).root_inode
  ]
]

-- A name that is not there ends the search.
abbrev pub or_missing : Option ℕ → Run (Option ℕ) → Run (Option ℕ)
or_missing none down = ok none
or_missing (some next) down = down

-- The loop of `resolve_path`. The current inode is `none` after a `..` to a missing parent: then the
-- next token, if it is not empty or `.`, dereferences a null pointer.
unfoldable pub resolve_loop : Vfs → Option ℕ → List (List ℕ) → Run (Option ℕ)
resolve_loop v current [] = ok current
resolve_loop v none (token ∷ tokens) =
    let rest = resolve_loop v none tokens in
    if is_empty token || text_eq token dot then rest else fault
resolve_loop v (some current) (token ∷ tokens) =
    let stay = resolve_loop v (some current) tokens in
    let up = resolve_loop v (go_up v current) tokens in
    let down = resolve_loop v (go_down v current token) tokens in
    if is_empty token || text_eq token dot
    then stay
    else if text_eq token dotdot
    then up
    else or_missing (go_down v current token) down

-- The inode that the tokens start from.
abbrev pub start_of : Vfs → ℕ → List ℕ → ℕ
start_of v root path =
    if get_or path 0 0 == slash then root else elim v.cwd_inode [ none ↦ root | some i ↦ i ]

-- The search below the root mount point, if there is one.
unfoldable pub resolve_from : Vfs → List ℕ → List (List ℕ) → Option ℕ → Run (Option ℕ)
resolve_from v path tokens none = panic
resolve_from v path tokens (some m) =
    resolve_loop v (some (start_of v (v.mount_at m).root_inode path)) tokens

-- `resolve_path` with tokens. `front` of an empty path reads its terminating zero.
unfoldable pub resolve_tokens : Vfs → List ℕ → List (List ℕ) → Run (Option ℕ)
unfolding resolve_from
resolve_tokens v path tokens = resolve_from v path tokens v.root_mountpoint

unfoldable pub resolve_path : Vfs → List ℕ → Run (Option ℕ)
resolve_path v path = resolve_tokens v path (split path slash)

-- `register_mount` of a mount point at its address.
unfoldable pub register_mount : Vfs → List ℕ → ℕ → Vfs
register_mount v path m = record v {
  mount_at = λ a. if a == m then record (v.mount_at m) { path = path } else v.mount_at a;
  root_mountpoint = elim v.root_mountpoint [ none ↦ some m | some r ↦ some r ];
  mountpoints = v.mountpoints ++ m ∷ [];
}

-- `mount`, of the mount point `m` that `fs->mount(source)` made.
unfoldable pub mount : Vfs → List ℕ → ℕ → Run Vfs
mount v path m = resolve_path v path >>= λ on.
    let mp = record (v.mount_at m) { mounted_on = on } in
    let root = record (v.inode_at mp.root_inode) { parent = on } in
    let linked = record v {
      mount_at = λ a. if a == m then mp else v.mount_at a;
      inode_at = λ a. if a == mp.root_inode then root else v.inode_at a;
    } in
    ok (register_mount linked path m)

pub record FileDescriptor : Type 0 where
  pub inode : ℕ
  pub path : List ℕ
  pub offset : ℕ
  pub flags : ℕ

-- The descriptor that `open` allocates, `none` for `nullptr`.
unfoldable pub open_path : Vfs → List ℕ → ℕ → Run (Option FileDescriptor)
open_path v path flags = resolve_path v path >>= λ r. elim r [
  | none ↦ ok none
  | some i ↦ ok (some (record { inode = i; path = path; offset = 0; flags = flags }))
]

abbrev pub is_directory : FileType → Bool
is_directory directory = true
is_directory _ = false

-- `readdir`, with the directory's own function as a parameter.
unfoldable pub readdir : (ℕ → ℤ) → Vfs → List ℕ → Run ℤ
readdir entries v path = resolve_path v path >>= λ r. elim r [
  | none ↦ ok (negsuc 0)
  | some i ↦ ok (if is_directory (v.inode_at i).type then entries i else negsuc 0)
]

-- `mkdir`, with the directory's own function as a parameter. `back` of an empty vector reads in front
-- of its array.
unfoldable pub mkdir : (ℕ → List ℕ → ℤ) → Vfs → List ℕ → Run ℤ
mkdir make v path =
    let tokens = split path slash in
    if is_empty tokens
    then fault
    else (resolve_tokens v path (init tokens) >>= λ r. elim r [
      | none ↦ ok (negsuc 0)
      | some i ↦ ok (
          if is_directory (v.inode_at i).type
          then make i (get_or tokens (length tokens - 1) [])
          else negsuc 0)
    ])
