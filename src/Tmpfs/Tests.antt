-- ===== src/Tmpfs/Tests.antt =====
-- Runs of tmpfs.cpp, and the theorems at inputs.
use hltos.Base.{◌+◌, ◌≡◌, refl, [], ◌∷◌, arith, length}
use hltos.Base.Int.{pos, signed32}
use hltos.Base.Run.{ok}
use hltos.Tmpfs.{File, write, write_loop, read, read_loop, resize}
use hltos.Tmpfs.Write.{Overwritten, write-Overwritten}
use hltos.Tmpfs.Read.{bytes_at, read-bytes, read-write}
use hltos.Tmpfs.Directory.{Directory, regular, directory, create, IsValid, AddOutcome, create-Added}

-- A file of three bytes.
abbrev small : File
small = record { contents = 7 ∷ 8 ∷ 9 ∷ []; size = 3 }

-- A write behind the end leaves a gap of zeros.
gap : write small 4 (5 ∷ []) ≡ ok (pos 1, record { contents = 7 ∷ 8 ∷ 9 ∷ 0 ∷ 5 ∷ []; size = 5 }, 5)
unfolding write write_loop resize
gap = refl

read_all : read small 1 100 ≡ (pos 2, 8 ∷ 9 ∷ [], 3)
unfolding read read_loop
read_all = refl

write-Overwritten_example :
    (f' : File) × (write small 2 (5 ∷ 6 ∷ []) ≡ ok (pos 2, f', 4))
    × (length f'.contents ≡ 4)
    × (f'.size ≡ length f'.contents)
    × Overwritten small.contents 2 (5 ∷ 6 ∷ []) f'.contents
write-Overwritten_example = write-Overwritten small 2 (5 ∷ 6 ∷ []) (omega arith)

read-bytes_example :
    read small 1 5
    ≡ (signed32 (length (bytes_at small 1 5)), bytes_at small 1 5, 1 + length (bytes_at small 1 5))
read-bytes_example = read-bytes small 1 5

read-write_example :
    (f' : File) × (write small 2 (5 ∷ 6 ∷ []) ≡ ok (pos 2, f', 4))
    × (read f' 2 2 ≡ (pos 2, 5 ∷ 6 ∷ [], 4))
read-write_example = read-write small 2 (5 ∷ 6 ∷ []) (omega arith)

-- One directory "a".
abbrev one_child : Directory
one_child = record {
  children = record { name = 97 ∷ []; type = directory; ino = 1 } ∷ [];
  next_ino = 2;
}

one_child-IsValid : IsValid one_child
one_child-IsValid = record {
  name_once = λ name. ground arith;
  ino_once = λ n. ground arith;
  ino_below = refl;
}

create-Added_example : AddOutcome one_child (98 ∷ []) regular (create one_child (98 ∷ []))
create-Added_example = create-Added one_child (98 ∷ []) one_child-IsValid
