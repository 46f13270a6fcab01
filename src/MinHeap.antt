-- ===== src/MinHeap.antt =====
-- src/kernel/include/containers/kmin_heap.hpp, at the type that the kernel uses it with: keys are
-- `uint64_t` and values are addresses. The `kvector` of nodes is a list. The loops read inside the
-- vector only: their own tests keep every index below the size.
pub mod Order
pub mod Insert
pub mod Pop
mod Tests
use hltos.Base.{
  ℕ, zero, suc, ◌+◌, ◌-◌, ◌*◌, ◌/◌, ◌<◌, ◌≡◌, refl, ap, Bool, true, false, ◌&&◌, Option, none, some,
  List, [], ◌∷◌, ◌++◌, arith, ltb, leb, ◌==◌, if◌then◌else◌, length, is_empty, get_or, set, init,
  get_or-set, length-set, one, count, count-set, SameItems,
}

pub record Node : Type 0 where
  pub key : ℕ
  pub value : ℕ

abbrev pub zero_node : Node
zero_node = record { key = 0; value = 0 }

abbrev pub get_left : ℕ → ℕ
get_left i = i * 2 + 1

abbrev pub get_right : ℕ → ℕ
get_right i = i * 2 + 2

abbrev pub get_parent : ℕ → ℕ
get_parent i = (i - 1) / 2

abbrev pub node_at : List Node → ℕ → Node
node_at a i = get_or a i zero_node

unfoldable pub get_key : List Node → ℕ → ℕ
get_key a i = (node_at a i).key

unfoldable pub swap : List Node → ℕ → ℕ → List Node
swap a i j = set (set a i (node_at a j)) j (node_at a i)

-- The index that `min_heapify` calls `smallest`.
smallest_of : List Node → ℕ → ℕ
smallest_of a root =
    let l = get_left root in
    let r = get_right root in
    let smallest = if ltb l (length a) && ltb (get_key a l) (get_key a root) then l else root in
    if ltb r (length a) && ltb (get_key a r) (get_key a smallest) then r else smallest

-- The recursion moves to a larger index inside the vector, so the size is enough fuel.
min_heapify : ℕ → List Node → ℕ → List Node
min_heapify zero a root = a
min_heapify (suc fuel) a root =
    let smallest = smallest_of a root in
    let rest = min_heapify fuel (swap a root smallest) smallest in
    if smallest == root then a else rest

unfoldable pub empty : List Node → Bool
empty a = is_empty a

-- `none` is the failed assertion `!empty()`, on which the kernel panics.
unfoldable pub peak : List Node → Option ℕ
peak [] = none
peak (n ∷ a) = some n.value

-- The `while` of `insert`: each round moves to the parent, so the index is enough fuel.
sift_up : ℕ → List Node → ℕ → List Node
sift_up zero a i = a
sift_up (suc fuel) a i =
    let parent = get_parent i in
    let rest = sift_up fuel (swap a i parent) parent in
    if i == 0 then a else if leb (get_key a parent) (get_key a i) then a else rest

unfoldable pub insert : List Node → ℕ → ℕ → List Node
unfolding sift_up swap get_key
insert a key value =
    let grown = a ++ record { key = key; value = value } ∷ [] in
    sift_up (length grown) grown (length grown - 1)

-- The last node takes the place of the first. `none` as in `peak`.
unfoldable pub pop : List Node → Option (List Node)
unfolding min_heapify smallest_of swap get_key
pop [] = none
pop (n ∷ []) = some []
pop (n ∷ m ∷ a) =
    let back = node_at (n ∷ m ∷ a) (length (n ∷ m ∷ a) - 1) in
    let shorter = init (set (n ∷ m ∷ a) 0 back) in some (min_heapify (length shorter) shorter 0)

pub length-swap : (a : List Node) (i j : ℕ) → length (swap a i j) ≡ length a
unfolding swap
length-swap a i j =
    omega (arith, length-set (set a i (node_at a j)) j (node_at a i), length-set a i (node_at a j))

module _ (a : List Node) (i j : ℕ) (hi : i < length a) (hj : j < length a) where
  pub get_key-swap :
      (c : ℕ)
      → get_key (swap a i j) c
        ≡ (if j == c then get_key a i else if i == c then get_key a j else get_key a c)
  unfolding swap get_key
  get_key-swap c =
      let b = set a i (node_at a j) in
      let hb : j < length b = omega (arith, length-set a i (node_at a j)) in
      ground (
        arith,
        ap (λ n. n.key) (get_or-set b j c (node_at a i) zero_node hb),
        ap (λ n. n.key) (get_or-set a i c (node_at a j) zero_node hi),
      )

  pub swap-SameItems : SameItems (swap a i j) a
  unfolding swap
  swap-SameItems t =
      let b = set a i (node_at a j) in
      let hb : j < length b = omega (arith, length-set a i (node_at a j)) in
      ground (
        arith,
        count-set t b j (node_at a i) zero_node hb,
        count-set t a i (node_at a j) zero_node hi,
        get_or-set a i j (node_at a j) zero_node hi,
      )
