-- ===== src/MinHeap/Tests.antt =====
-- Runs of kmin_heap.hpp's operations, and the theorems at inputs.
use hltos.Base.{ℕ, ◌≡◌, refl, some, List, [], ◌∷◌, arith, SameItems}
use hltos.MinHeap.{Node, insert, pop, get_key}
use hltos.MinHeap.Order.{IsHeap}
use hltos.MinHeap.Insert.{insert-IsHeap}
use hltos.MinHeap.Pop.{Popped, pop-Popped}

abbrev node : ℕ → ℕ → Node
node key value = record { key = key; value = value }

abbrev deadlines : List Node
deadlines = node 3 100 ∷ node 8 200 ∷ node 5 300 ∷ []

insert_first : insert deadlines 1 400 ≡ node 1 400 ∷ node 3 100 ∷ node 5 300 ∷ node 8 200 ∷ []
unfolding insert
insert_first = refl

pop_first : pop deadlines ≡ some (node 5 300 ∷ node 8 200 ∷ [])
unfolding pop
pop_first = refl

deadlines-IsHeap : IsHeap deadlines
unfolding get_key
deadlines-IsHeap c h p = grind arith

insert-IsHeap_example :
    IsHeap (insert deadlines 1 400) × SameItems (insert deadlines 1 400) (node 1 400 ∷ deadlines)
insert-IsHeap_example = insert-IsHeap deadlines 1 400 deadlines-IsHeap

pop-Popped_example : (b : List Node) × (pop deadlines ≡ some b) × Popped deadlines b
pop-Popped_example = pop-Popped deadlines deadlines-IsHeap (omega arith)
