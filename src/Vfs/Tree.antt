-- ===== src/Vfs/Tree.antt =====
-- Path resolution of src/kernel/lib/fs/fs.cpp against the tree of inodes.
use mathlib.Core.Path.{subst}
use hltos.Base.{
  ℕ, zero, suc, ◌+◌, ◌*◌, ◌≤◌, ◌≡◌, refl, sym, ap, ◌∙◌, true, false, Option, none, some, List, [],
  ◌∷◌, ◌++◌, arith, ◌==◌, ==_iff, All, length, length-append, is_empty, init, init-concat, None,
  text_eq, Bool-cases, inl, inr, append_assoc, append-nil,
}
use hltos.Base.Int.{ℤ}
use hltos.Base.Run.{ok, fault}
use hltos.Algo.{split, join, join_list}
use hltos.Algo.RoundTrip.{
  IsParts, WithoutZero, join_list-join, split-join, split-delim, split-delims,
}
use hltos.Vfs.{
  Vfs, slash, dot, dotdot, getcwd, getcwd_loop, find_mount_at, go_up, go_down, resolve_loop,
  resolve_from, resolve_tokens, resolve_path, mkdir,
}

-- A name that can stand in a path: not empty, without a slash or a zero character, which ends a text
-- in C, and neither `.` nor `..`.
pub record IsName (name : List ℕ) : Type 0 where
  pub not_empty : is_empty name ≡ false
  pub no_slash : None (λ c. c == slash) name
  pub no_zero : None (λ c. c == 0) name
  pub not_dot : text_eq name dot ≡ false
  pub not_dotdot : text_eq name dotdot ≡ false

-- The inode is found from the root by these names, through mounted file systems, and the links to
-- the parents agree.
pub data Reached (v : Vfs) : ℕ → List (List ℕ) → Type 0 where
  root :
      (m r : ℕ)
      → v.root_mountpoint ≡ some m
      → (v.mount_at m).root_inode ≡ r
      → (v.mount_at (v.inode_at r).mountpoint).mounted_on ≡ none
      → (v.inode_at r).parent ≡ none
      → (v.inode_at r).name ≡ []
      → Reached v r []
  child :
      (d c : ℕ) (names : List (List ℕ)) (name : List ℕ)
      → Reached v d names
      → IsName name
      → v.lookup d name ≡ some c
      → find_mount_at v c ≡ none
      → (v.inode_at c).name ≡ name
      → (v.inode_at c).parent ≡ some d
      → (c == (v.mount_at (v.inode_at c).mountpoint).root_inode) ≡ false
      → Reached v c (names ++ name ∷ [])
  mounted :
      (d c m r : ℕ) (names : List (List ℕ)) (name : List ℕ)
      → Reached v d names
      → IsName name
      → v.lookup d name ≡ some c
      → find_mount_at v c ≡ some m
      → (v.inode_at c).name ≡ name
      → (v.inode_at c).parent ≡ some d
      → (v.mount_at m).root_inode ≡ r
      → (v.mount_at m).mounted_on ≡ some c
      → (v.inode_at r).mountpoint ≡ m
      → (v.inode_at r).name ≡ []
      → (v.inode_at r).parent ≡ some c
      → Reached v r (names ++ name ∷ [])

-- Two steps up for each name and one for the root are enough fuel.
getcwd_loop-Reached :
    (v : Vfs) (i : ℕ) (names path : List (List ℕ)) (fuel : ℕ)
    → Reached v i names
    → 2 * length names + 1 ≤ fuel
    → getcwd_loop fuel v (some i) path ≡ some (names ++ path)
unfolding getcwd_loop
getcwd_loop-Reached v _ _ path zero h p = absurd (omega (arith, p))
getcwd_loop-Reached v _ _ path (suc fuel) (root m r e e' on parent name) p = rw (name, parent) refl
getcwd_loop-Reached v _ _ path (suc fuel) (child d c names name h n down free same parent inner) p =
    rw (same, parent, n.not_empty)
      (getcwd_loop-Reached v d names (name ∷ path) fuel h
          (omega (arith, p, length-append names (name ∷ [])))
        ∙ ap (λ x. some x) (sym (append_assoc names (name ∷ []) path)))
getcwd_loop-Reached v _ _ path (suc zero)
      (mounted d c m r names name h n down at same parent inode on mp bare up) p =
    absurd (omega (arith, p, length-append names (name ∷ [])))
getcwd_loop-Reached v _ _ path (suc (suc fuel))
      (mounted d c m r names name h n down at same parent inode on mp bare up) p =
    rw (bare, up, same, parent, n.not_empty)
      (getcwd_loop-Reached v d names (name ∷ path) fuel h
          (omega (arith, p, length-append names (name ∷ [])))
        ∙ ap (λ x. some x) (sym (append_assoc names (name ∷ []) path)))

-- A name that is not special goes down.
resolve_name :
    (v : Vfs) (d c : ℕ) (name : List ℕ) (tokens : List (List ℕ))
    → IsName name
    → go_down v d name ≡ some c
    → resolve_loop v (some d) (name ∷ tokens) ≡ resolve_loop v (some c) tokens
unfolding resolve_loop
resolve_name v d c name tokens n e = rw (n.not_empty, n.not_dot, n.not_dotdot, e) refl

go_down-child :
    (v : Vfs) (d c : ℕ) (name : List ℕ)
    → v.lookup d name ≡ some c
    → find_mount_at v c ≡ none
    → go_down v d name ≡ some c
unfolding go_down
go_down-child v d c name e e' = rw (e, go_down, e') refl

go_down-mounted :
    (v : Vfs) (d c m r : ℕ) (name : List ℕ)
    → v.lookup d name ≡ some c
    → find_mount_at v c ≡ some m
    → (v.mount_at m).root_inode ≡ r
    → go_down v d name ≡ some r
unfolding go_down
go_down-mounted v d c m r name e e' e'' = rw (e, go_down, e', e'') refl

resolve_loop-nil : (v : Vfs) (current : Option ℕ) → resolve_loop v current [] ≡ ok current
unfolding resolve_loop
resolve_loop-nil v none = refl
resolve_loop-nil v (some i) = refl

root_of : (v : Vfs) (i : ℕ) (names : List (List ℕ)) → Reached v i names → ℕ
root_of v _ _ (root m r e e' on parent name) = r
root_of v _ _ (child d c names name h n down free same parent inner) = root_of v d names h
root_of v _ _ (mounted d c m r names name h n down at same parent inode on mp bare up) =
    root_of v d names h

-- The tokens of the path lead from the root to the inode.
resolve_loop-Reached :
    (v : Vfs) (i : ℕ) (names tokens : List (List ℕ)) (h : Reached v i names)
    → resolve_loop v (some (root_of v i names h)) (names ++ tokens) ≡ resolve_loop v (some i) tokens
unfolding root_of
resolve_loop-Reached v _ _ tokens (root m r e e' on parent name) = refl
resolve_loop-Reached v _ _ tokens (child d c names name h n down free same parent inner) =
    ap (resolve_loop v (some (root_of v d names h))) (append_assoc names (name ∷ []) tokens)
    ∙ resolve_loop-Reached v d names (name ∷ tokens) h
    ∙ resolve_name v d c name tokens n (go_down-child v d c name down free)
resolve_loop-Reached v _ _ tokens
      (mounted d c m r names name h n down at same parent inode on mp bare up) =
    ap (resolve_loop v (some (root_of v d names h))) (append_assoc names (name ∷ []) tokens)
    ∙ resolve_loop-Reached v d names (name ∷ tokens) h
    ∙ resolve_name v d r name tokens n (go_down-mounted v d c m r name down at inode)

append-IsParts :
    (names : List (List ℕ)) (name : List ℕ)
    → IsParts slash names
    → IsName name
    → IsParts slash (names ++ name ∷ [])
append-IsParts [] name h n = (n.not_empty, n.no_slash, tt)
append-IsParts (p ∷ names) name h n = (h.0, h.1, append-IsParts names name h.2 n)

names-IsParts : (v : Vfs) (i : ℕ) (names : List (List ℕ)) → Reached v i names → IsParts slash names
names-IsParts v _ _ (root m r e e' on parent name) = tt
names-IsParts v _ _ (child d c names name h n down free same parent inner) =
    append-IsParts names name (names-IsParts v d names h) n
names-IsParts v _ _ (mounted d c m r names name h n down at same parent inode on mp bare up) =
    append-IsParts names name (names-IsParts v d names h) n

append-WithoutZero :
    (names : List (List ℕ)) (name : List ℕ)
    → WithoutZero names
    → None (λ c. c == 0) name
    → WithoutZero (names ++ name ∷ [])
append-WithoutZero [] name h n = (n, tt)
append-WithoutZero (p ∷ names) name h n = (h.0, append-WithoutZero names name h.1 n)

names-WithoutZero :
    (v : Vfs) (i : ℕ) (names : List (List ℕ)) → Reached v i names → WithoutZero names
names-WithoutZero v _ _ (root m r e e' on parent name) = tt
names-WithoutZero v _ _ (child d c names name h n down free same parent inner) =
    append-WithoutZero names name (names-WithoutZero v d names h) n.no_zero
names-WithoutZero v _ _ (mounted d c m r names name h n down at same parent inode on mp bare up) =
    append-WithoutZero names name (names-WithoutZero v d names h) n.no_zero

root_of-root :
    (v : Vfs) (i : ℕ) (names : List (List ℕ)) (h : Reached v i names)
    → (m : ℕ) × (v.root_mountpoint ≡ some m) × ((v.mount_at m).root_inode ≡ root_of v i names h)
unfolding root_of
root_of-root v _ _ (root m r e e' on parent name) = (m, e, e')
root_of-root v _ _ (child d c names name h n down free same parent inner) = root_of-root v d names h
root_of-root v _ _ (mounted d c m r names name h n down at same parent inode on mp bare up) =
    root_of-root v d names h

resolve_tokens-absolute :
    (v : Vfs) (m : ℕ) (path : List ℕ) (tokens : List (List ℕ))
    → v.root_mountpoint ≡ some m
    → resolve_tokens v (slash ∷ path) tokens
      ≡ resolve_loop v (some (v.mount_at m).root_inode) tokens
unfolding resolve_tokens resolve_from
resolve_tokens-absolute v m path tokens e = ap (resolve_from v (slash ∷ path) tokens) e

-- `getcwd` of an inode of the tree, with enough fuel, is an absolute path, and `resolve_path` of that
-- path finds the inode again.
pub resolve_path-getcwd :
    (v : Vfs) (i : ℕ) (names : List (List ℕ)) (fuel : ℕ)
    → Reached v i names
    → 2 * length names + 1 ≤ fuel
    → (path : List ℕ) × (getcwd fuel v (some i) ≡ some path) × (resolve_path v path ≡ ok (some i))
unfolding getcwd resolve_path
resolve_path-getcwd v i names fuel h p =
    let walk : getcwd_loop fuel v (some i) [] ≡ some names =
      getcwd_loop-Reached v i names [] fuel h p ∙ ap (λ x. some x) (append-nil names) in
    let parts : split (slash ∷ join_list names slash) slash ≡ names =
      ap (λ s. split (slash ∷ s) slash) (join_list-join names slash (names-WithoutZero v i names h))
      ∙ split-delim (join names slash) slash
      ∙ split-join names slash (names-IsParts v i names h) in
    let (m, e, e') = root_of-root v i names h in
    let found : resolve_loop v (some (root_of v i names h)) names ≡ ok (some i) =
      ap (resolve_loop v (some (root_of v i names h))) (sym (append-nil names))
      ∙ resolve_loop-Reached v i names [] h
      ∙ resolve_loop-nil v (some i) in
    (
      slash ∷ join_list names slash,
      rw (walk, getcwd) refl,
      ap (resolve_tokens v (slash ∷ join_list names slash)) parts
          ∙ resolve_tokens-absolute v m (join_list names slash) names e
          ∙ ap (λ r. resolve_loop v (some r) names) e'
          ∙ found,
    )

go_up-root :
    (v : Vfs) (r : ℕ)
    → (v.mount_at (v.inode_at r).mountpoint).mounted_on ≡ none
    → (v.inode_at r).parent ≡ none
    → go_up v r ≡ some r
unfolding go_up
go_up-root v r on parent =
    elim (Bool-cases (r == (v.mount_at (v.inode_at r).mountpoint).root_inode)) [
      | inl e ↦ rw (e, on, parent) refl
      | inr e ↦ rw (e, parent) refl
    ]

go_up-child :
    (v : Vfs) (d c : ℕ)
    → (v.inode_at c).parent ≡ some d
    → (c == (v.mount_at (v.inode_at c).mountpoint).root_inode) ≡ false
    → go_up v c ≡ some d
unfolding go_up
go_up-child v d c parent inner = rw (inner, parent) refl

go_up-mounted :
    (v : Vfs) (d c m r : ℕ)
    → (v.inode_at c).parent ≡ some d
    → (v.mount_at m).root_inode ≡ r
    → (v.mount_at m).mounted_on ≡ some c
    → (v.inode_at r).mountpoint ≡ m
    → go_up v r ≡ some d
unfolding go_up
go_up-mounted v d c m r parent inode on mp =
    let self : (r == r) ≡ true = (==_iff r r).1 refl in rw (mp, inode, self, on, parent) refl

resolve_dotdot :
    (v : Vfs) (i d : ℕ) (tokens : List (List ℕ))
    → go_up v i ≡ some d
    → resolve_loop v (some i) (dotdot ∷ tokens) ≡ resolve_loop v (some d) tokens
unfolding resolve_loop
resolve_dotdot v i d tokens e = rw e refl

-- From every inode of the tree, `..` goes to the inode of the tree whose path lacks the last name, also
-- out of a mounted file system, and from the root to the root.
pub resolve_loop-dotdot :
    (v : Vfs) (i : ℕ) (names tokens : List (List ℕ))
    → Reached v i names
    → (d : ℕ) × Reached v d (init names)
      × (resolve_loop v (some i) (dotdot ∷ tokens) ≡ resolve_loop v (some d) tokens)
resolve_loop-dotdot v _ _ tokens (root m r e e' on parent name) =
    (r, root m r e e' on parent name, resolve_dotdot v r r tokens (go_up-root v r on parent))
resolve_loop-dotdot v _ _ tokens (child d c names name h n down free same parent inner) = (
  d,
  subst (λ ns. Reached v d ns) (sym (init-concat names name)) h,
  resolve_dotdot v c d tokens (go_up-child v d c parent inner),
)
resolve_loop-dotdot v _ _ tokens
      (mounted d c m r names name h n down at same parent inode on mp bare up) =
    (
      d,
      subst (λ ns. Reached v d ns) (sym (init-concat names name)) h,
      resolve_dotdot v r d tokens (go_up-mounted v d c m r parent inode on mp),
    )

-- A path without a name, such as `/` or the empty one, makes `mkdir` read in front of the array of
-- tokens.
pub mkdir-fault :
    (make : ℕ → List ℕ → ℤ) (v : Vfs) (path : List ℕ)
    → All (λ c. c == slash) path
    → mkdir make v path ≡ fault
unfolding mkdir
mkdir-fault make v path h = rw (split-delims path slash h) refl
