-- ===== src/Scheduler/Waking.antt =====
-- Part of src/kernel/lib/scheduler/mechanism/scheduler_mechanism.cpp: who is woken, and by what.
use hltos.Base.{
  ℕ, zero, suc, Bool, ◌&&◌, none, some, List, [], ◌∷◌, ltb, ◌==◌, if◌then◌else◌, length,
}
use hltos.Base.Int.{ℤ}
use hltos.MinHeap.{peak, pop}
use hltos.Process.{
  Process, WaitReason, sleep, reason_code, is_blocked, is_waiting_for, is_waiting_for_child,
  is_waiting_for_mutex, wake,
}
use hltos.Scheduler.Policy.{Policy}
use hltos.Scheduler.Kernel.{Kernel, set_process}

module _ (policy : Policy) where
  open policy use {State, enqueue, should_preempt, pick_next}

  -- `p->wake(); g_scheduler_policy->enqueue(p);`
  unfoldable pub wake_process : Kernel policy → ℕ → Kernel policy
  wake_process k a = record (set_process policy k a (wake (k.process_at a))) {
    queue = enqueue k.queue a;
  }

  -- The loop of `wake_all`, `wake_parents` and `wake_mutex`, which differ in the test on a blocked
  -- process.
  unfoldable pub wake_each : (Process → Bool) → List ℕ → Kernel policy → Kernel policy
  wake_each test [] k = k
  wake_each test (a ∷ others) k =
      wake_each test others
        (if is_blocked (k.process_at a) && test (k.process_at a) then wake_process k a else k)

  -- The loop of `wake_single`, which ends at the first process that it wakes.
  unfoldable pub wake_first : (Process → Bool) → List ℕ → Kernel policy → Kernel policy
  wake_first test [] k = k
  wake_first test (a ∷ others) k =
      if is_blocked (k.process_at a) && test (k.process_at a)
      then wake_process k a
      else wake_first test others k

  -- A sleeping process is not woken by reason.
  unfoldable pub wake_single : Kernel policy → WaitReason → Kernel policy
  wake_single k reason =
      if reason_code reason == reason_code sleep
      then k
      else wake_first (λ p. is_waiting_for p reason) k.processes k

  unfoldable pub wake_all : Kernel policy → WaitReason → Kernel policy
  wake_all k reason =
      if reason_code reason == reason_code sleep
      then k
      else wake_each (λ p. is_waiting_for p reason) k.processes k

  unfoldable pub wake_parents : Kernel policy → ℤ → Kernel policy
  wake_parents k pid = wake_each (λ p. is_waiting_for_child p pid) k.processes k

  unfoldable pub wake_mutex : Kernel policy → ℕ → Kernel policy
  wake_mutex k m = wake_each (λ p. is_waiting_for_mutex p m) k.processes k

  -- The `while` of `wake_sleepers`: each round takes one sleeper out of the heap.
  unfoldable pub wake_due : ℕ → Kernel policy → ℕ → Kernel policy
  wake_due zero k now = k
  wake_due (suc rounds) k now = elim (peak k.sleepers) [
    | none ↦ k
    | some a ↦ elim (pop k.sleepers) [
      | none ↦ k
      | some rest ↦
          let woken = wake_due rounds (record (wake_process k a) { sleepers = rest }) now in
          if ltb now (k.process_at a).wake_time_ns then k else woken
    ]
  ]

  unfoldable pub wake_sleepers : Kernel policy → ℕ → Kernel policy
  wake_sleepers k now = wake_due (length k.sleepers) k now
