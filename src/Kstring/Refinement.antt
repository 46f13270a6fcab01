-- ===== src/Kstring/Refinement.antt =====
-- The operations of kstring.hpp implement a list of characters.
use hltos.Base.{ℕ, suc, ◌-◌, ◌^◌, ◌<◌, List, [], ◌∷◌, ◌++◌, arith, length, take, drop}
use hltos.Kstring.{Kstring, push_back, pop_back, clear, truncate, erase, append, copy}
use hltos.Kstring.Memory.{Holds}
use hltos.Kstring.Growth.{IsFresh}
use hltos.Kstring.Edits.{
  Becomes, push_back-Becomes, pop_back-Becomes, clear-Becomes, truncate-Becomes,
}
use hltos.Kstring.Appends.{append-Becomes, copy-Becomes}
use hltos.Kstring.Moves.{erase-Becomes}

-- On a string below 2 ^ 60 characters each of these operations succeeds inside its buffer, with a
-- terminating zero, and does to the text what its name says.
pub edits-Becomes :
    (fresh : ℕ → List ℕ) (s : Kstring) (text : List ℕ)
    → IsFresh fresh
    → Holds s text
    → length text < 2 ^ 60
    → ((c : ℕ) → Becomes (push_back fresh s c) (text ++ c ∷ []))
      × Becomes (pop_back s) (take (length text - 1) text)
      × Becomes (clear s) []
      × ((pos : ℕ) → Becomes (truncate s pos) (take pos text))
      × ((pos : ℕ) → Becomes (erase s pos) (take pos text ++ drop (suc pos) text))
      × ((other : Kstring) (source : List ℕ)
          → Holds other source
          → length source < 2 ^ 60
          → Becomes (append fresh s other) (text ++ source))
      × Becomes (copy fresh s) text
edits-Becomes fresh s text allocates h small = (
  λ c. push_back-Becomes fresh allocates s text c h (omega (arith, small)),
  pop_back-Becomes s text h,
  clear-Becomes s text h,
  λ pos. truncate-Becomes s text pos h,
  λ pos. erase-Becomes s text pos h,
  λ other source ho len.
      append-Becomes fresh allocates s other text source h ho (omega (arith, small, len)),
  copy-Becomes fresh allocates s text h (omega (arith, small)),
)
