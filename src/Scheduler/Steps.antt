-- ===== src/Scheduler/Steps.antt =====
-- The histories of the scheduler of src/kernel/lib/scheduler/mechanism/scheduler_mechanism.cpp: what
-- the rest of the kernel calls, in any order.
use mathlib.Core.Path.{subst}
use hltos.Base.{ℕ, sym, ◌∙◌, arith, ◌≡◌, ◌≢◌, true, ◌==◌, None}
use hltos.Base.Int.{ℤ}
use hltos.Base.Run.{Run, ok, ok-injective}
use hltos.Process.{Process, WaitReason, is_ready}
use hltos.Scheduler.Policy.{Policy}
use hltos.Scheduler.Kernel.{Kernel, set_process}
use hltos.Scheduler.Waking.{wake_single, wake_all, wake_mutex}
use hltos.Scheduler.Switching.{preempt, reap, yield_dead, yield_zombie}
use hltos.Scheduler.Yielding.{
  kernel_of, yield_to_child, yield_blocked, yield_sleep_ns, yield_mutex, yield_new_process,
  add_process, tick,
}
use hltos.Scheduler.Invariant.{Unqueued, set_process-Queues}
use hltos.Scheduler.Invariant.Wakes.{wake_single-Queues, wake_all-Queues, wake_mutex-Queues}
use hltos.Scheduler.Invariant.Picks.{Valid, preempt-Valid, woken-Valid}
use hltos.Scheduler.Invariant.Yields.{
  yield_dead-Valid, yield_zombie-Valid, yield_blocked-Valid, yield_sleep_ns-Valid,
  yield_mutex-Valid,
}
use hltos.Scheduler.Invariant.Calls.{
  yield_to_child-Valid, yield_new_process-Valid, add_process-Valid, tick-Valid, reap-Valid,
}

module _ (policy : Policy) where
  open policy use {contents}

  -- One call. A process other than the idle one gives up the CPU; `created` is the construction of a
  -- `Process` in memory that no queue and no list names.
  pub data Step (k : Kernel policy) : Kernel policy → Type 0 where
    ticked :
        (now now_check now_wake now_resume : ℕ)
        → Step k (tick policy k now now_check now_wake now_resume)
    preempted :
        (now_check now_wake now_resume : ℕ)
        → Step k (preempt policy k now_check now_wake now_resume)
    woke_single : (reason : WaitReason) → Step k (wake_single policy k reason)
    woke_all : (reason : WaitReason) → Step k (wake_all policy k reason)
    unlocked : (m : ℕ) → Step k (wake_mutex policy k m)
    waited :
        (child_pid : ℤ) (now_wake now_resume : ℕ)
        → Step k (kernel_of policy (yield_to_child policy k child_pid now_wake now_resume))
    blocked_for :
        (reason : WaitReason) (now_wake now_resume : ℕ)
        → k.cpu.process ≢ k.cpu.idle_process
        → Step k (yield_blocked policy k reason now_wake now_resume)
    slept :
        (duration_ns now now_wake now_resume : ℕ)
        → k.cpu.process ≢ k.cpu.idle_process
        → Step k (yield_sleep_ns policy k duration_ns now now_wake now_resume)
    locked :
        (m now_wake now_resume : ℕ)
        → k.cpu.process ≢ k.cpu.idle_process
        → Step k (yield_mutex policy k m now_wake now_resume)
    died :
        (now_wake now_resume : ℕ) (k' : Kernel policy)
        → k.cpu.process ≢ k.cpu.idle_process
        → yield_dead policy k now_wake now_resume ≡ ok k'
        → Step k k'
    exited :
        (now_wake now_resume : ℕ) (k' : Kernel policy)
        → k.cpu.process ≢ k.cpu.idle_process
        → yield_zombie policy k now_wake now_resume ≡ ok k'
        → Step k k'
    started :
        (now_wake now_resume : ℕ) (k' : Kernel policy)
        → k.cpu.process ≢ k.cpu.idle_process
        → yield_new_process policy k now_wake now_resume ≡ ok k'
        → Step k k'
    created :
        (a : ℕ) (p : Process)
        → Unqueued policy k a
        → None (λ b. b == a) k.processes
        → k.cpu.process ≢ a
        → Step k (set_process policy k a p)
    added :
        (a : ℕ)
        → is_ready (k.process_at a) ≡ true
        → None (λ b. b == a) (contents k.queue)
        → a ≢ k.cpu.idle_process
        → Step k (add_process policy k a)
    reaped : (k' : Kernel policy) → reap policy k ≡ ok k' → Step k k'

  -- Any number of calls.
  pub data Steps (k : Kernel policy) : Kernel policy → Type 0 where
    start : Steps k k
    step : (l m : Kernel policy) → Steps k l → Step l m → Steps k m

  ok-Valid :
      {r : Run (Kernel policy)} (l k' : Kernel policy)
      → r ≡ ok l
      → r ≡ ok k'
      → Valid policy k'
      → Valid policy l
  ok-Valid l k' e e' w = subst (λ m. Valid policy m) (ok-injective k' l (sym e' ∙ e)) w

  pub Step-Valid : (k l : Kernel policy) → Valid policy k → Step k l → Valid policy l
  Step-Valid k _ v (ticked now now_check now_wake now_resume) =
      tick-Valid policy k now now_check now_wake now_resume v
  Step-Valid k _ v (preempted now_check now_wake now_resume) =
      preempt-Valid policy k now_check now_wake now_resume v
  Step-Valid k _ v (woke_single reason) =
      let (w, kept) = wake_single-Queues policy k reason v.queues in woken-Valid policy k _ v w kept
  Step-Valid k _ v (woke_all reason) =
      let (w, kept) = wake_all-Queues policy k reason v.queues in woken-Valid policy k _ v w kept
  Step-Valid k _ v (unlocked m) =
      let (w, kept) = wake_mutex-Queues policy k m v.queues in woken-Valid policy k _ v w kept
  Step-Valid k _ v (waited child_pid now_wake now_resume) =
      yield_to_child-Valid policy k child_pid now_wake now_resume v
  Step-Valid k _ v (blocked_for reason now_wake now_resume ne) =
      yield_blocked-Valid policy k reason now_wake now_resume v ne
  Step-Valid k _ v (slept duration_ns now now_wake now_resume ne) =
      yield_sleep_ns-Valid policy k duration_ns now now_wake now_resume v ne
  Step-Valid k _ v (locked m now_wake now_resume ne) =
      yield_mutex-Valid policy k m now_wake now_resume v ne
  Step-Valid k l v (died now_wake now_resume _ ne e) =
      let (k', e', w) = yield_dead-Valid policy k now_wake now_resume v ne in ok-Valid l k' e e' w
  Step-Valid k l v (exited now_wake now_resume _ ne e) =
      let (k', e', w) = yield_zombie-Valid policy k now_wake now_resume v ne in ok-Valid l k' e e' w
  Step-Valid k l v (started now_wake now_resume _ ne e) =
      let (k', e', w) = yield_new_process-Valid policy k now_wake now_resume v ne in
      ok-Valid l k' e e' w
  Step-Valid k _ v (created a p u fresh ne) = record {
    queues = set_process-Queues policy k a p v.queues u;
    running = ground (arith, ne, v.running);
  }
  Step-Valid k _ v (added a ready fresh ne) = add_process-Valid policy k a v ready fresh ne
  Step-Valid k l v (reaped _ e) =
      let (kept, e', w, _, _) = reap-Valid policy k v in ok-Valid l _ e e' w

  -- From a kernel whose queues are consistent and whose current process runs, whatever the calls are,
  -- and in whatever order, the queues stay consistent and some process runs.
  pub Steps-Valid : (k l : Kernel policy) → Valid policy k → Steps k l → Valid policy l
  Steps-Valid k _ v start = v
  Steps-Valid k l v (step m _ history last) = Step-Valid m l (Steps-Valid k m v history) last
