-- ===== src/Scheduler/Policy.antt =====
-- The class `SchedulerPolicy` of src/kernel/include/scheduler/policy/scheduler_policy.hpp, with what
-- its comments promise: a process that is enqueued is held until `pick_next` hands it out, and
-- `pick_next` answers `nullptr` only if nothing is ready.
use hltos.Base.{ℕ, ◌≡◌, Bool, Option, none, some, List, [], ◌∷◌, SameItems}

pub record Policy : Type 1 where
  pub State : Type 0
  pub enqueue : State → ℕ → State
  -- The process, and for how long it has run.
  pub should_preempt : State → ℕ → ℕ → Bool
  pub pick_next : State → Option (ℕ × State)
  -- The processes that are held.
  pub contents : State → List ℕ
  pub enqueue_holds : (s : State) (p : ℕ) → SameItems (contents (enqueue s p)) (p ∷ contents s)
  pub pick_next_none : (s : State) → pick_next s ≡ none → contents s ≡ []
  pub pick_next_some :
      (s t : State) (p : ℕ) → pick_next s ≡ some (p, t) → SameItems (p ∷ contents t) (contents s)
