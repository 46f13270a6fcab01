-- ===== src/MinHeap/Insert.antt =====
-- `insert` of kmin_heap.hpp: the new node moves up until its parent's key is no larger.
use hltos.Base.{
  ℕ, zero, suc, ◌+◌, ◌-◌, ◌≤◌, ◌<◌, ◌≡◌, ◌≢◌, ap, List, [], ◌∷◌, ◌++◌, arith, leb, ◌==◌, length,
  get_or-append, length-append, count-append, SameItems, Bool-cases, inl, inr,
}
use hltos.MinHeap.{
  Node, zero_node, get_key, get_parent, swap, sift_up, insert, length-swap, get_key-swap,
  swap-SameItems,
}
use hltos.MinHeap.Order.{IsHeap}

-- The order everywhere but between `i` and its parent.
record UpInv (a : List Node) (i : ℕ) : Type 0 where
  inside : i < length a
  edges : (c : ℕ) → 0 < c → c < length a → c ≢ i → get_key a (get_parent c) ≤ get_key a c
  across :
      (c : ℕ)
      → 0 < c
      → c < length a
      → get_parent c ≡ i
      → 0 < i
      → get_key a (get_parent i) ≤ get_key a c

UpInv-swap :
    (a : List Node) (i : ℕ)
    → UpInv a i
    → 0 < i
    → get_key a i < get_key a (get_parent i)
    → UpInv (swap a i (get_parent i)) (get_parent i)
UpInv-swap a i v pos below =
    let p = get_parent i in
    let at = get_key-swap a i p v.inside (omega (arith, v.inside)) in
    let same = length-swap a i p in
    record {
      inside = omega (arith, v.inside, same);
      edges = λ c h1 h2 h3. ground (arith, same, at c, at (get_parent c), v.edges c, v.across c);
      across = λ c h1 h2 h3 h4. ground (arith, same, at c, at (get_parent p), v.edges c, v.edges p);
    }

sift_up-IsHeap :
    (fuel : ℕ) (a : List Node) (i : ℕ)
    → i < fuel
    → UpInv a i
    → IsHeap (sift_up fuel a i) × SameItems (sift_up fuel a i) a
unfolding sift_up
sift_up-IsHeap zero a i f v = absurd (omega arith)
sift_up-IsHeap (suc fuel) a i f v = elim (Bool-cases (i == 0)) [
  | inl top ↦ rw top ((λ c h1 h2. v.edges c h1 h2 (ground arith)), (λ t. omega arith))
  | inr low ↦ elim (Bool-cases (leb (get_key a (get_parent i)) (get_key a i))) [
    | inl stop ↦ rw (low, stop) ((λ c h1 h2. ground (arith, v.edges c h1 h2)), (λ t. omega arith))
    | inr go ↦
        let v' = UpInv-swap a i v (ground arith) (ground arith) in
        let (heap, same) =
          sift_up-IsHeap fuel (swap a i (get_parent i)) (get_parent i) (ground arith) v' in
        let swapped = swap-SameItems a i (get_parent i) v.inside (omega (arith, v.inside)) in
        rw (low, go) (heap, (λ t. omega (arith, same t, swapped t)))
  ]
]

-- `insert` keeps the heap order and adds exactly the new node, for any key and value.
pub insert-IsHeap :
    (a : List Node) (key value : ℕ)
    → IsHeap a
    → IsHeap (insert a key value)
      × SameItems (insert a key value) (record { key = key; value = value } ∷ a)
unfolding insert
insert-IsHeap a key value h =
    let grown = a ++ n ∷ [] in
    let (heap, same) =
      sift_up-IsHeap (length grown) grown (length grown - 1) (omega (arith, size)) start in
    (heap, (λ t. omega (arith, same t, count-append t a (n ∷ []))))
  where
    n : Node
    n = record { key = key; value = value }

    size : length (a ++ n ∷ []) ≡ length a + 1
    size = length-append a (n ∷ [])

    at : (c : ℕ) → c < length a → get_key (a ++ n ∷ []) c ≡ get_key a c
    at c p = unfold get_key in ap (λ m. m.key) (get_or-append a (n ∷ []) c zero_node p)

    start : UpInv (a ++ n ∷ []) (length (a ++ n ∷ []) - 1)
    start = record {
      inside = omega (arith, size);
      edges = λ c h1 h2 h3. ground (arith, size, at c, at (get_parent c), h c);
      across = λ c h1 h2 h3. absurd (omega (arith, size));
    }
