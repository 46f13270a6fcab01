-- ===== src/Kstring/Tests.antt =====
-- Strings of kstring.hpp at work, and the theorems at inputs.
use hltos.Base.{
  ℕ, suc, ◌^◌, ◌<◌, ◌≡◌, refl, List, [], ◌∷◌, ◌++◌, arith, length, take, drop, replicate,
  length-replicate, inl, true, false,
}
use hltos.Base.Run.{ok, fault, ◌>>=◌}
use hltos.Kstring.{
  Buffer, Kstring, empty_string, write, read, ensure_capacity, grow, grow_loop, push_back, pop_back,
  clear, truncate, erase, insert, append, copy, assign_view, trim,
}
use hltos.Kstring.Memory.{Holds}
use hltos.Kstring.Edits.{Becomes}
use hltos.Kstring.Refinement.{edits-Becomes}
use hltos.Kstring.Middle.{insert-fault, insert-Becomes}
use hltos.Kstring.Faults.{assign_view-fault}
use hltos.Kstring.Trim.{trim-back}

-- Allocations hold the byte 7.
abbrev sevens : ℕ → List ℕ
sevens n = replicate n 7

-- A string of two characters in a buffer of four bytes.
abbrev small : Kstring
small = record { buffer = Buffer.live (97 ∷ 32 ∷ 0 ∷ 7 ∷ []); size = 2; capacity = 4 }

small-Holds : Holds small (97 ∷ 32 ∷ [])
small-Holds = inl (7 ∷ [], record { buffer = refl; size = refl; capacity = refl })

-- The same in a buffer that it fills.
abbrev full : Kstring
full = record { buffer = Buffer.live (97 ∷ 32 ∷ 0 ∷ []); size = 2; capacity = 3 }

full-Holds : Holds full (97 ∷ 32 ∷ [])
full-Holds = inl ([], record { buffer = refl; size = refl; capacity = refl })

pushed : push_back sevens empty_string 98 >>= (λ s. read s 0) ≡ ok 98
unfolding push_back ensure_capacity grow_loop grow write read
pushed = refl

edits-Becomes_example :
    ((c : ℕ) → Becomes (push_back sevens small c) (97 ∷ 32 ∷ c ∷ []))
    × Becomes (pop_back small) (97 ∷ [])
    × Becomes (clear small) []
    × ((pos : ℕ) → Becomes (truncate small pos) (take pos (97 ∷ 32 ∷ [])))
    × ((pos : ℕ)
        → Becomes (erase small pos) (take pos (97 ∷ 32 ∷ []) ++ drop (suc pos) (97 ∷ 32 ∷ [])))
    × ((other : Kstring) (source : List ℕ)
        → Holds other source
        → length source < 2 ^ 60
        → Becomes (append sevens small other) (97 ∷ 32 ∷ source))
    × Becomes (copy sevens small) (97 ∷ 32 ∷ [])
edits-Becomes_example =
    edits-Becomes sevens small (97 ∷ 32 ∷ []) (λ n. length-replicate n 7) small-Holds (omega arith)

insert-Becomes_example : Becomes (insert sevens small 1 98) (97 ∷ 98 ∷ 32 ∷ [])
insert-Becomes_example =
    insert-Becomes sevens (λ n. length-replicate n 7) small (97 ∷ 32 ∷ []) 1 98 small-Holds
      (omega arith) (λ h. omega arith) (omega arith)

insert-fault_example : insert sevens full 1 98 ≡ fault
insert-fault_example = insert-fault sevens full (97 ∷ 32 ∷ []) 1 98 full-Holds (omega arith) refl

assign_view-fault_example : assign_view sevens small (98 ∷ []) ≡ fault
assign_view-fault_example =
    assign_view-fault sevens small (97 ∷ 32 ∷ []) (98 ∷ []) small-Holds (omega arith) (omega arith)

-- The space at the end stays.
trim-back_example : Becomes (trim sevens small false true 32) (97 ∷ 32 ∷ [])
trim-back_example =
    trim-back sevens (λ n. length-replicate n 7) small (97 ∷ 32 ∷ []) 32 small-Holds (omega arith)
      (omega arith) (omega arith)
