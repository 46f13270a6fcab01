-- ===== src/Kstring.antt =====
-- The string class of src/kernel/include/containers/kstring.hpp, over its buffer. A buffer is null, the
-- bytes of a live allocation, or memory that was given back, of which any use is a fault; a read or a
-- write outside a live buffer is a fault too. What a new allocation holds is a parameter.
pub mod Memory
pub mod Growth
pub mod Edits
pub mod Insert
pub mod Appends
pub mod Moves
pub mod Middle
pub mod Refinement
pub mod Trim
pub mod Faults
mod Tests
use hltos.Base.{
  ℕ, zero, suc, ◌+◌, ◌-◌, ◌*◌, Bool, true, false, not, ◌&&◌, List, [], ◌∷◌, ◌++◌, Option, none,
  some, ltb, leb, ◌==◌, if◌then◌else◌, length, take, drop, set, get_elem?, mul64,
}
use hltos.Base.Run.{Run, ok, panic, fault, ◌>>=◌, or_fault}

pub data Buffer : Type 0 where
  null freed : Buffer
  live : (bytes : List ℕ) → Buffer

pub record Kstring : Type 0 where
  pub buffer : Buffer
  pub size : ℕ
  pub capacity : ℕ

abbrev pub empty_string : Kstring
empty_string = record { buffer = Buffer.null; size = 0; capacity = 0 }

abbrev pub initial_capacity : ℕ
initial_capacity = 16

abbrev pub bytes_of : Buffer → Run (List ℕ)
bytes_of Buffer.null = fault
bytes_of Buffer.freed = fault
bytes_of (Buffer.live bytes) = ok bytes

-- `_data[i]`, and a write to it.
unfoldable pub read : Kstring → ℕ → Run ℕ
read s i = bytes_of s.buffer >>= λ bytes. or_fault (get_elem? bytes i)

unfoldable pub write : Kstring → ℕ → ℕ → Run Kstring
write s i c = bytes_of s.buffer >>= λ bytes.
    if ltb i (length bytes) then ok (record s { buffer = Buffer.live (set bytes i c) }) else fault

-- `kfree`
abbrev pub release : Buffer → Buffer
release Buffer.null = Buffer.null
release Buffer.freed = Buffer.freed
release (Buffer.live bytes) = Buffer.freed

-- `memcpy` into a buffer, from an offset on.
unfoldable pub copy_at : Kstring → ℕ → List ℕ → Run Kstring
copy_at s offset source = bytes_of s.buffer >>= λ bytes.
    if leb (offset + length source) (length bytes)
    then ok (record s {
      buffer = Buffer.live (take offset bytes ++ source ++ drop (offset + length source) bytes);
    })
    else fault

-- `memcpy` out of a buffer.
unfoldable pub first_bytes : Buffer → ℕ → Run (List ℕ)
first_bytes buffer count =
    bytes_of buffer >>= λ bytes. if leb count (length bytes) then ok (take count bytes) else fault

unfoldable pub ensure_null_terminated : Kstring → Run Kstring
ensure_null_terminated s = elim s.buffer [
  | Buffer.null ↦ ok s
  | Buffer.freed ↦ fault
  | Buffer.live bytes ↦ write s s.size 0
]

unfoldable pub pop_back : Kstring → Run Kstring
pop_back s = if s.size == 0 then ok s else ensure_null_terminated (record s { size = s.size - 1 })

unfoldable pub clear : Kstring → Run Kstring
clear s = ensure_null_terminated (record s { size = 0 })

unfoldable pub truncate : Kstring → ℕ → Run Kstring
truncate s pos = if leb s.size pos then ok s else ensure_null_terminated (record s { size = pos })

-- The loop of `erase`, by the rounds left.
unfoldable pub shift_down : ℕ → ℕ → Kstring → Run Kstring
shift_down zero i s = ok s
shift_down (suc rounds) i s =
    read s (i + 1) >>= λ c. write s i c >>= λ t. shift_down rounds (i + 1) t

unfoldable pub erase : Kstring → ℕ → Run Kstring
erase s pos =
    if leb s.size pos
    then ok s
    else (shift_down (s.size - pos) pos s >>= λ t.
        ensure_null_terminated (record t { size = s.size - 1 }))

-- The loop of `insert`, by the rounds left.
unfoldable pub shift_up : ℕ → ℕ → Kstring → Run Kstring
shift_up zero i s = ok s
shift_up (suc rounds) i s = read s (i - 1) >>= λ c. write s i c >>= λ t. shift_up rounds (i - 1) t

-- `fresh n` is what an allocation of `n` bytes holds.
module _ (fresh : ℕ → List ℕ) where
  unfoldable pub grow : Kstring → Run Kstring
  grow s =
      let new_capacity = if s.capacity == 0 then initial_capacity else mul64 s.capacity 2 in
      elim s.buffer [
        | Buffer.null ↦
            ok (record s { buffer = Buffer.live (fresh new_capacity); capacity = new_capacity })
        | Buffer.freed ↦ fault
        | Buffer.live bytes ↦ first_bytes s.buffer s.size >>= λ old.
            copy_at (record s { buffer = Buffer.live (fresh new_capacity) }) 0 old >>= λ grown.
            ok (record grown { capacity = new_capacity })
      ]

  -- The loop of `ensure_capacity`, with fuel.
  unfoldable pub grow_loop : ℕ → Kstring → ℕ → Run Kstring
  grow_loop zero s new_size = panic
  grow_loop (suc fuel) s new_size =
      let rest = grow s >>= λ grown. grow_loop fuel grown new_size in
      if ltb s.capacity new_size then rest else ok s

  -- A word doubles at most 64 times.
  unfoldable pub ensure_capacity : Kstring → ℕ → Run Kstring
  ensure_capacity s new_size = grow_loop 64 s new_size

  unfoldable pub push_back : Kstring → ℕ → Run Kstring
  push_back s c = ensure_capacity s (s.size + 2) >>= λ g.
      write g g.size c >>= λ w. write w (w.size + 1) 0 >>= λ z. ok (record z { size = z.size + 1 })

  unfoldable pub insert : Kstring → ℕ → ℕ → Run Kstring
  insert s pos c =
      if ltb s.size pos
      then ok s
      else (ensure_capacity s (s.size + 1) >>= λ g.
          (if pos == g.size
            then push_back g c
            else (shift_up (g.size + 1 - pos) (g.size + 1) g >>= λ h.
                write h pos c >>= λ w. ok (record w { size = w.size + 1 })))
          >>= λ t. ensure_null_terminated t)

  -- `operator+=` of another string.
  unfoldable pub append : Kstring → Kstring → Run Kstring
  append s other =
      if other.size == 0
      then ok s
      else (ensure_capacity s (s.size + other.size + 1) >>= λ g.
          first_bytes other.buffer (other.size + 1) >>= λ source.
          copy_at g g.size source >>= λ t. ok (record t { size = t.size + other.size }))

  -- The copy constructor, and the assignment of another string.
  unfoldable pub copy : Kstring → Run Kstring
  copy other =
      if other.size == 0
      then ok empty_string
      else (ensure_capacity empty_string (other.size + 1) >>= λ g.
          first_bytes other.buffer (other.size + 1) >>= λ source.
          copy_at g 0 source >>= λ t. ok (record t { size = other.size }))

  -- The assignment of a view: the buffer is given back, but the pointer and the capacity stay.
  unfoldable pub assign_view : Kstring → List ℕ → Run Kstring
  assign_view s view =
      ensure_capacity (record s { buffer = release s.buffer }) (length view + 1) >>= λ g.
      copy_at g 0 (view ++ 0 ∷ []) >>= λ t. ok (record t { size = length view })

-- The loops of `trim`: from the front, and from the place behind the last character.
unfoldable pub trim_front_loop : ℕ → Kstring → ℕ → ℕ → ℕ → Run ℕ
trim_front_loop zero s c b e = ok b
trim_front_loop (suc rounds) s c b e = read s b >>= λ d.
    let rest = trim_front_loop rounds s c (b + 1) e in
    if d == c then (if ltb b e then rest else ok b) else ok b

unfoldable pub trim_back_loop : ℕ → Kstring → ℕ → ℕ → ℕ → Run ℕ
trim_back_loop zero s c b e = ok e
trim_back_loop (suc rounds) s c b e = read s e >>= λ d.
    let rest = trim_back_loop rounds s c b (e - 1) in
    if d == c then (if ltb b e then rest else ok e) else ok e

-- The constructor from a C string.
unfoldable pub from_chars : (ℕ → List ℕ) → List ℕ → Run Kstring
from_chars fresh chars = ensure_capacity fresh empty_string (length chars + 1) >>= λ g.
    copy_at g 0 (chars ++ 0 ∷ []) >>= λ t. ok (record t { size = length chars })

-- The loop at the end of `trim`, and of `substr`, by the rounds left.
unfoldable pub push_range : (ℕ → List ℕ) → ℕ → Kstring → ℕ → Kstring → Run Kstring
push_range fresh zero s i result = ok result
push_range fresh (suc rounds) s i result = read s i >>= λ c.
    push_back fresh result c >>= λ longer. push_range fresh rounds s (i + 1) longer

unfoldable pub trim : (ℕ → List ℕ) → Kstring → Bool → Bool → ℕ → Run Kstring
trim fresh s front back c =
    if not front && not back
    then copy fresh s
    else ((if front then trim_front_loop (s.size + 1) s c 0 s.size else ok 0) >>= λ b.
        (if back then trim_back_loop (s.size + 1) s c b s.size else ok s.size) >>= λ e.
        if leb e b
        then from_chars fresh []
        else (ensure_capacity fresh empty_string (e - b) >>= λ result.
            push_range fresh (e - b) s b result))

unfoldable pub substr : (ℕ → List ℕ) → Kstring → ℕ → ℕ → Run Kstring
substr fresh s pos len =
    let rest = s.size - pos in
    if leb s.size pos
    then from_chars fresh []
    else (ensure_capacity fresh empty_string s.size >>= λ result.
        push_range fresh (if ltb rest len then rest else len) s pos result)
