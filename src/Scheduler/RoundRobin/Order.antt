-- ===== src/Scheduler/RoundRobin/Order.antt =====
-- The order of the round robin of src/kernel/lib/scheduler/policy/round_robin.cpp under any calls of
-- `enqueue` and `pick_next`.
use hltos.Base.{ℕ, ◌≡◌, sym, ap, ◌∙◌, none, some, List, [], ◌∷◌, ◌++◌, append_assoc, append-nil}
use hltos.Scheduler.RoundRobin.{enqueue, pick_next}

pub data Call : Type 0 where
  enqueued : ℕ → Call
  picked : Call

-- The processes that come and those that are handed out, in order, and the queue that is left. A
-- `pick_next` of the empty queue hands out nothing.
abbrev pub arrivals : List Call → List ℕ
arrivals [] = []
arrivals (enqueued p ∷ calls) = p ∷ arrivals calls
arrivals (picked ∷ calls) = arrivals calls

unfoldable pub run : List Call → List ℕ → List ℕ × List ℕ
run [] waiting = ([], waiting)
run (enqueued p ∷ calls) waiting = run calls (enqueue waiting p)
run (picked ∷ calls) waiting = elim (pick_next waiting) [
  | none ↦ run calls waiting
  | some (p, others) ↦ let (out, left) = run calls others in (p ∷ out, left)
]

-- What any calls hand out, followed by what is left in the queue, is what was in the queue at first
-- followed by what the calls enqueued: the round robin neither loses, doubles nor reorders a process.
pub run-fifo :
    (calls : List Call) (waiting : List ℕ)
    → (run calls waiting).0 ++ (run calls waiting).1 ≡ waiting ++ arrivals calls
unfolding run
run-fifo [] waiting = sym (append-nil waiting)
run-fifo (enqueued p ∷ calls) waiting =
    run-fifo calls (enqueue waiting p) ∙ append_assoc waiting (p ∷ []) (arrivals calls)
run-fifo (picked ∷ calls) [] = run-fifo calls []
run-fifo (picked ∷ calls) (p ∷ others) = ap (λ xs. p ∷ xs) (run-fifo calls others)
