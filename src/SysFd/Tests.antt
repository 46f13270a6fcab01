-- ===== src/SysFd/Tests.antt =====
-- A table of three descriptors for sys_fd.cpp, and the theorems at it.
use hltos.Base.{ℕ, ◌≡◌, refl, none, some, [], ◌∷◌, arith}
use hltos.Base.Int.{pos}
use hltos.Base.Run.{fault}
use hltos.SysFd.{Files, get_fd, sys_open, sys_close, with_fd, bad_file}
use hltos.SysFd.Table.{sys_close-sys_open}

-- stdin, stdout and stderr at 100, 101 and 102.
abbrev stdio : Files
stdio = record { fd_table = some 100 ∷ some 101 ∷ some 102 ∷ []; inode_of = λ d. some 7 }

read_closed : with_fd (λ d. pos 5) stdio (pos 3) ≡ bad_file
unfolding with_fd get_fd
read_closed = refl

sys_close-sys_open_example :
    (d : ℕ) × (q : Files) × (get_fd stdio (pos 1) ≡ some d)
    × (sys_close (λ c. pos 0) stdio (pos 1) ≡ (pos 0, q))
    × (get_fd q (pos 1) ≡ none)
    × (sys_open q (some 103) ≡ fault)
sys_close-sys_open_example =
    sys_close-sys_open (λ c. pos 0) stdio 1 103 ((7, refl), ((7, refl), ((7, refl), tt)))
      (omega arith)
