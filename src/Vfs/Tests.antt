-- ===== src/Vfs/Tests.antt =====
-- A small tree of inodes for fs.cpp, and the theorems at it.
use hltos.Base.{
  ℕ, ◌≡◌, refl, List, [], ◌∷◌, arith, Option, none, some, ◌==◌, if◌then◌else◌, text_eq, ◌&&◌,
}
use hltos.Base.Int.{pos}
use hltos.Base.Run.{ok, fault}
use hltos.Vfs.{
  Vfs, Inode, MountPoint, directory, getcwd, find_mount_at, find_mount_loop, go_up, go_down,
  resolve_loop, resolve_from, resolve_tokens, resolve_path, dotdot, slash, mkdir,
}
use hltos.Vfs.Tree.{Reached, root, child, mounted, resolve_path-getcwd, mkdir-fault}

abbrev tmp : List ℕ
tmp = 116 ∷ 109 ∷ 112 ∷ []

-- The root 1 of mount point 10, its directory "tmp" at 2, on which mount point 20 with the root 3 is
-- mounted, and a directory "a" at 4 in that.
abbrev inodes : ℕ → Inode
inodes a =
    if a == 1
    then record { mountpoint = 10; parent = none; type = directory; name = [] }
    else if a == 2
    then record { mountpoint = 10; parent = some 1; type = directory; name = tmp }
    else if a == 3
    then record { mountpoint = 20; parent = some 2; type = directory; name = [] }
    else record { mountpoint = 20; parent = some 3; type = directory; name = 97 ∷ [] }

abbrev mounts : ℕ → MountPoint
mounts a =
    if a == 10
    then record { path = slash ∷ []; mounted_on = none; root_inode = 1 }
    else record { path = slash ∷ tmp; mounted_on = some 2; root_inode = 3 }

abbrev lookups : ℕ → List ℕ → Option ℕ
lookups d name =
    if d == 1 && text_eq name tmp
    then some 2
    else if d == 3 && text_eq name (97 ∷ [])
    then some 4
    else none

abbrev tree : Vfs
tree = record {
  inode_at = inodes;
  mount_at = mounts;
  lookup = lookups;
  root_mountpoint = some 10;
  mountpoints = 10 ∷ 20 ∷ [];
  cwd_inode = some 4;
}

tree-Reached : Reached tree 4 (tmp ∷ (97 ∷ []) ∷ [])
unfolding find_mount_at find_mount_loop
tree-Reached =
    child 3 4 (tmp ∷ []) (97 ∷ [])
      (mounted 1 2 20 3 [] tmp (root 10 1 refl refl refl refl refl)
        (record {
          not_empty = refl;
          no_slash = refl;
          no_zero = refl;
          not_dot = refl;
          not_dotdot = refl;
        })
        refl refl refl refl refl refl refl refl refl)
      (record {
        not_empty = refl;
        no_slash = refl;
        no_zero = refl;
        not_dot = refl;
        not_dotdot = refl;
      })
      refl refl refl refl refl

-- "../a" from the current directory.
relative : resolve_tokens tree (46 ∷ 46 ∷ slash ∷ 97 ∷ []) (dotdot ∷ (97 ∷ []) ∷ []) ≡ ok (some 4)
unfolding resolve_tokens resolve_from resolve_loop go_up go_down find_mount_at find_mount_loop
relative = refl

resolve_path-getcwd_example :
    (path : List ℕ) × (getcwd 9 tree (some 4) ≡ some path) × (resolve_path tree path ≡ ok (some 4))
resolve_path-getcwd_example =
    resolve_path-getcwd tree 4 (tmp ∷ (97 ∷ []) ∷ []) 9 tree-Reached (omega arith)

mkdir-fault_example : mkdir (λ i name. pos 0) tree (slash ∷ []) ≡ fault
mkdir-fault_example = mkdir-fault (λ i name. pos 0) tree (slash ∷ []) refl
