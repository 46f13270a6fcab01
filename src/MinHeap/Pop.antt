-- ===== src/MinHeap/Pop.antt =====
-- `pop` of kmin_heap.hpp: the last node takes the place of the first and moves down.
use mathlib.Core.Path.{subst}
use hltos.Base.{
  ℕ, zero, suc, ◌+◌, ◌-◌, ◌≤◌, ◌<◌, ◌≡◌, ◌≢◌, ◌⊎◌, refl, ap, some, List, [], ◌∷◌, arith, ◌==◌,
  length, set, init, get_or-init, length-init, one, count-init, SameItems, Bool-cases, inl, inr,
}
use hltos.MinHeap.{
  Node, zero_node, node_at, get_key, get_parent, get_left, get_right, swap, smallest_of,
  min_heapify, peak, pop, length-swap, get_key-swap, swap-SameItems,
}
use hltos.MinHeap.Order.{IsHeap, root_least}

-- The order everywhere but below `i`.
record DownInv (a : List Node) (i : ℕ) : Type 0 where
  inside : i < length a
  edges : (c : ℕ) → 0 < c → c < length a → get_parent c ≢ i → get_key a (get_parent c) ≤ get_key a c
  across :
      (c : ℕ)
      → 0 < c
      → c < length a
      → get_parent c ≡ i
      → 0 < i
      → get_key a (get_parent i) ≤ get_key a c

-- `smallest` is the root or a child of it inside the vector, and no child has a smaller key.
record IsSmallest (a : List Node) (root s : ℕ) : Type 0 where
  inside : s < length a
  place : (s ≢ root) → (0 < s) × (get_parent s ≡ root) × (root < s)
  below_root : get_key a s ≤ get_key a root
  least : (c : ℕ) → 0 < c → c < length a → get_parent c ≡ root → get_key a s ≤ get_key a c

smallest_of-IsSmallest :
    (a : List Node) (root : ℕ) → root < length a → IsSmallest a root (smallest_of a root)
unfolding smallest_of
smallest_of-IsSmallest a root h = record {
  inside = ground arith;
  place = λ e. ground arith;
  below_root = ground arith;
  least = λ c h1 h2 h3. elim (child c root h1 h3) [
    | inl e ↦ ground (arith, e)
    | inr e ↦ ground (arith, e)
  ];
}
  where
    child : (c r : ℕ) → 0 < c → get_parent c ≡ r → (c ≡ get_left r) ⊎ (c ≡ get_right r)
    child c r h1 h3 = omega arith

DownInv-swap :
    (a : List Node) (root s : ℕ)
    → DownInv a root
    → IsSmallest a root s
    → s ≢ root
    → DownInv (swap a root s) s
DownInv-swap a root s v m moved =
    let at = get_key-swap a root s v.inside m.inside in
    let same = length-swap a root s in
    let at_child = m.place moved in
    record {
      inside = omega (arith, m.inside, same);
      edges = λ c h1 h2 h3. ground (
        arith,
        same,
        at c,
        at (get_parent c),
        v.edges c,
        v.across s,
        m.least c,
        at_child,
        m.below_root,
      );
      across = λ c h1 h2 h3 h4. ground (arith, same, at c, at (get_parent s), v.edges c, at_child);
    }

min_heapify-IsHeap :
    (fuel : ℕ) (a : List Node) (root : ℕ)
    → length a ≤ fuel + root
    → DownInv a root
    → IsHeap (min_heapify fuel a root) × SameItems (min_heapify fuel a root) a
unfolding min_heapify
min_heapify-IsHeap zero a root f v = absurd (omega (arith, v.inside))
min_heapify-IsHeap (suc fuel) a root f v =
    let s = smallest_of a root in
    let m = smallest_of-IsSmallest a root v.inside in
    elim (Bool-cases (s == root)) [
      | inl stay ↦
          rw stay ((λ c h1 h2. ground (arith, v.edges c h1 h2, m.least c h1 h2, stay)), (λ t. refl))
      | inr go ↦
          let moved : s ≢ root = ground arith in
          let v' = DownInv-swap a root s v m moved in
          let f' : length (swap a root s) ≤ fuel + s =
            omega (arith, length-swap a root s, (m.place moved).2) in
          let (heap, same) = min_heapify-IsHeap fuel (swap a root s) s f' v' in
          let swapped = swap-SameItems a root s v.inside m.inside in
          rw go (heap, (λ t. omega (arith, same t, swapped t)))
    ]

module _ (n m : Node) (a : List Node) where
  abbrev whole : List Node
  whole = n ∷ m ∷ a

  -- The vector that `pop` hands to `min_heapify`.
  abbrev shorter : List Node
  shorter = init (set whole 0 (node_at whole (length whole - 1)))

  length-shorter : length shorter ≡ suc (length a)
  length-shorter = omega (arith, length-init (set whole 0 (node_at whole (length whole - 1))))

  shorter-SameItems : SameItems (n ∷ shorter) whole
  shorter-SameItems t =
      let back = node_at whole (length whole - 1) in
      let moved = set whole 0 back in
      let last : length whole - 1 ≡ suc (length a) = omega arith in
      let dropped = count-init t moved (suc (length a)) zero_node refl in
      omega (arith, dropped, ap (λ k. one (t (node_at whole k))) last)

  shorter-key : (c : ℕ) → 0 < c → c < length shorter → get_key shorter c ≡ get_key whole c
  unfolding get_key
  shorter-key zero h p = absurd (omega arith)
  shorter-key (suc c) h p =
      let back = node_at whole (length whole - 1) in
      ap (λ k. k.key) (get_or-init (back ∷ m ∷ a) (suc c) zero_node (omega (arith, length-shorter)))

  shorter-DownInv : IsHeap whole → DownInv shorter 0
  shorter-DownInv h = record {
    inside = omega (arith, length-shorter);
    edges = λ c h1 h2 h3.
        ground (arith, length-shorter, shorter-key c, shorter-key (get_parent c), h c);
    across = λ c h1 h2 h3 h4. absurd (omega arith);
  }

-- A popped node has the least key, and the others stay, in heap order.
pub record Popped (a b : List Node) : Type 0 where
  pub first : Node
  pub peaked : peak a ≡ some first.value
  pub heap : IsHeap b
  pub same : SameItems (first ∷ b) a
  pub least : (i : ℕ) → i < length a → first.key ≤ get_key a i

-- `pop` on a heap that is not empty removes one node of least key, the one whose value `peak`
-- returned, and leaves a heap of the others.
pub pop-Popped :
    (a : List Node) → IsHeap a → 0 < length a → (b : List Node) × (pop a ≡ some b) × Popped a b
unfolding pop peak get_key
pop-Popped [] h p = absurd (omega arith)
pop-Popped (n ∷ []) h p = (
  [],
  refl,
  record {
    first = n;
    peaked = refl;
    heap = λ c h1 h2. absurd (omega arith);
    same = λ t. refl;
    least = λ i q. root_least (n ∷ []) i h q;
  },
)
pop-Popped (n ∷ m ∷ a) h p =
    let s = shorter n m a in
    let (heap, same) = min_heapify-IsHeap (length s) s 0 (omega arith) (shorter-DownInv n m a h) in
    (
      min_heapify (length s) s 0,
      refl,
      record {
        first = n;
        peaked = refl;
        heap = heap;
        same = λ t. omega (arith, same t, shorter-SameItems n m a t);
        least = λ i q. root_least (n ∷ m ∷ a) i h q;
      },
    )

-- The same of any `pop` that succeeds, at the value that `peak` returned.
pub pop-some :
    (a b : List Node) (v : ℕ)
    → IsHeap a
    → peak a ≡ some v
    → pop a ≡ some b
    → (n : Node) × (n.value ≡ v) × IsHeap b × SameItems (n ∷ b) a
unfolding peak
pop-some [] b v h p e = cc
pop-some (m ∷ a) b v h p e =
    let (c, e', q) = pop-Popped (m ∷ a) h (omega arith) in
    let same : c ≡ b = cc in
    (
      q.first,
      cc (q.peaked, p),
      subst (λ x. IsHeap x) same q.heap,
      subst (λ x. SameItems (q.first ∷ x) (m ∷ a)) same q.same,
    )
