-- ===== src/MinHeap/Order.antt =====
-- The heap order of src/kernel/include/containers/kmin_heap.hpp.
use hltos.Base.{ℕ, zero, suc, ◌≤◌, ◌<◌, List, arith, length}
use hltos.MinHeap.{Node, get_key, get_parent}

-- No node has a smaller key than its parent.
abbrev pub IsHeap : List Node → Type 0
IsHeap a = (c : ℕ) → 0 < c → c < length a → get_key a (get_parent c) ≤ get_key a c

root_least_below :
    (bound : ℕ) (a : List Node) (i : ℕ)
    → IsHeap a
    → i < bound
    → i < length a
    → get_key a 0 ≤ get_key a i
root_least_below zero a i h f p = absurd (omega arith)
root_least_below (suc bound) a i h f p =
    ground (arith, h i, root_least_below bound a (get_parent i) h)

-- The first node of a heap has the least key.
pub root_least : (a : List Node) (i : ℕ) → IsHeap a → i < length a → get_key a 0 ≤ get_key a i
root_least a i h p = root_least_below (suc i) a i h (omega arith) p
