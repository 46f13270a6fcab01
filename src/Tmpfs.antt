-- ===== src/Tmpfs.antt =====
-- The files of src/kernel/lib/fs/tmpfs/tmpfs.cpp. A byte is a number below 256; the buffer that the
-- caller passes is a list of `count` bytes.
mod Tests
pub mod Write
pub mod Read
pub mod Seek
pub mod Directory
use hltos.Base.{
  ℕ, zero, suc, ◌+◌, ◌-◌, Bool, Option, none, some, List, [], ◌∷◌, ◌++◌, ltb, leb, ◌==◌,
  if◌then◌else◌, length, get_or, set, replicate, add64,
}
use hltos.Base.Int.{ℤ, pos, negsuc, ◌+ℤ◌, is_negative, signed64, word64, signed32}
use hltos.Base.Run.{Run, ok, panic, fault, ◌>>=◌}

-- `TmpFileInode`.
pub record File : Type 0 where
  pub contents : List ℕ
  pub size : ℕ

-- The new file of the constructor.
abbrev pub empty_file : File
empty_file = record { contents = []; size = 0 }

-- `kvector::resize`, which does not shrink.
unfoldable pub resize : List ℕ → ℕ → List ℕ
resize contents new_size = contents ++ replicate (new_size - length contents) 0

-- The loop of `write`, with the offset of the file descriptor.
unfoldable pub write_loop : List ℕ → ℕ → List ℕ → Run (List ℕ × ℕ)
write_loop contents offset [] = ok (contents, offset)
write_loop contents offset (b ∷ buff) =
    let next = write_loop (set contents offset b) (add64 offset 1) buff in
    if ltb offset (length contents) then next else fault

-- The result, the file and the offset of the descriptor.
unfoldable pub write : File → ℕ → List ℕ → Run (ℤ × File × ℕ)
write f offset buff =
    write_loop (resize f.contents (add64 offset (length buff))) offset buff
    >>= λ (contents, offset').
        ok (signed32 (length buff), record { contents = contents; size = length contents }, offset')

-- The loop of `read`: the bytes copied and the offset.
unfoldable pub read_loop : List ℕ → ℕ → ℕ → List ℕ × ℕ
read_loop contents offset zero = ([], offset)
read_loop contents offset (suc n) =
    let (buff, offset') = read_loop contents (offset + 1) n in
    (get_or contents offset 0 ∷ buff, offset')

-- The result, the bytes and the offset.
unfoldable pub read : File → ℕ → ℕ → ℤ × List ℕ × ℕ
read f offset count =
    let available = length f.contents - offset in
    let to_read = if ltb count available then count else available in
    let (buff, offset') = read_loop f.contents offset to_read in
    if leb (length f.contents) offset
    then (pos 0, [], offset)
    else (signed32 to_read, buff, offset')

-- `-EINVAL`
abbrev pub invalid : ℤ
invalid = negsuc 21

-- SEEK_SET, SEEK_CUR and SEEK_END are 0, 1 and 2.
unfoldable pub lseek : File → ℕ → ℤ → ℕ → ℤ × ℕ
lseek f fd_offset offset whence =
    if whence == 0
    then (if is_negative offset then (invalid, fd_offset) else (pos 0, word64 offset))
    else if whence == 1
    then (if is_negative (signed64 fd_offset +ℤ offset)
        then (invalid, fd_offset)
        else (pos 0, add64 fd_offset (word64 offset)))
    else if whence == 2
    then (if is_negative (signed64 f.size +ℤ offset)
        then (invalid, fd_offset)
        else (pos 0, add64 f.size (word64 offset)))
    else (invalid, fd_offset)
