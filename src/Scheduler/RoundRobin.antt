-- ===== src/Scheduler/RoundRobin.antt =====
-- `RoundRobinScheduler` of src/kernel/lib/scheduler/policy/round_robin.cpp: a queue of the ready
-- processes, in the order in which they were enqueued.
pub mod Order
use hltos.Base.{
  ℕ, ◌+◌, ◌≡◌, refl, ap, Bool, Option, none, some, List, [], ◌∷◌, ◌++◌, arith, leb, count,
  SameItems, count-append,
}
use hltos.Scheduler.Policy.{Policy}

-- TIME_SLICE_NS
abbrev pub time_slice_ns : ℕ
time_slice_ns = 10_000_000

abbrev pub enqueue : List ℕ → ℕ → List ℕ
enqueue waiting p = waiting ++ p ∷ []

abbrev pub should_preempt : List ℕ → ℕ → ℕ → Bool
should_preempt waiting p runtime_ns = leb time_slice_ns runtime_ns

abbrev pub pick_next : List ℕ → Option (ℕ × List ℕ)
pick_next [] = none
pick_next (p ∷ waiting) = some (p, waiting)

pub enqueue_holds : (waiting : List ℕ) (p : ℕ) → SameItems (enqueue waiting p) (p ∷ waiting)
enqueue_holds waiting p t = omega (arith, count-append t waiting (p ∷ []))

pub pick_next_none : (waiting : List ℕ) → pick_next waiting ≡ none → waiting ≡ []
pick_next_none [] e = refl
pick_next_none (p ∷ waiting) e = cc

pub pick_next_some :
    (waiting rest : List ℕ) (p : ℕ)
    → pick_next waiting ≡ some (p, rest)
    → SameItems (p ∷ rest) waiting
pick_next_some [] rest p e t = cc
pick_next_some (q ∷ waiting) rest p e t = ground (arith, e)

abbrev pub round_robin : Policy
round_robin = record {
  State = List ℕ;
  enqueue = enqueue;
  should_preempt = should_preempt;
  pick_next = pick_next;
  contents = λ waiting. waiting;
  enqueue_holds = enqueue_holds;
  pick_next_none = pick_next_none;
  pick_next_some = pick_next_some;
}
