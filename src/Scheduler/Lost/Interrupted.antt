-- ===== src/Scheduler/Lost/Interrupted.antt =====
-- The timer's interrupt between `sleep_for` and `yield_blocked` in `yield_sleep_ns` of
-- src/kernel/lib/scheduler/mechanism/scheduler_mechanism.cpp.
use hltos.Base.{
  ℕ, ◌≤◌, ◌≡◌, ◌≢◌, refl, ap, true, false, ◌&&◌, arith, ◌==◌, ==_iff, count, Bool-cases, inl, inr,
}
use hltos.Process.{state_is_sleeping, sleep_for, wait_for, pause}
use hltos.Scheduler.Policy.{Policy}
use hltos.Scheduler.Kernel.{Kernel, set_process}
use hltos.Scheduler.Switching.{enqueue_if_runnable, pick_next_process, is_preempted, preempt}
use hltos.Scheduler.Yielding.{begin_sleep}
use hltos.Scheduler.Invariant.{Queues, Unqueued, set_process-Queues, not_ready_lem}
use hltos.Scheduler.Invariant.Wakes.{wake_single-Queues, wake_all-Queues, wake_mutex-Queues}
use hltos.Scheduler.Invariant.Picks.{
  Valid, pick_next_process-Picked, activate_process-Valid, enqueue_if_runnable-Queues,
  enqueue_if_runnable-Unqueued,
}
use hltos.Scheduler.Invariant.Yields.{current_Unqueued}
use hltos.Scheduler.Steps.{
  Step, ticked, preempted, woke_single, woke_all, unlocked, waited, blocked_for, slept, locked,
  died, exited, started, created, added, reaped, Steps, start, step, Steps-Valid,
}
use hltos.Scheduler.Lost.{
  Forgotten, not-Picked, not_current, written-Forgotten, Kept-Forgotten, activate_process-Forgotten,
  enqueue_if_runnable-Forgotten,
}
use hltos.Scheduler.Lost.Blocking.{blocked-Forgotten, running_blocked-Forgotten}
use hltos.Scheduler.Lost.Histories.{
  preempt-Forgotten, tick-Forgotten, yield_to_child-Forgotten, yield_dead-Forgotten,
  yield_zombie-Forgotten, yield_new_process-Forgotten, reap-Forgotten, add_process-Forgotten,
}

module _ (policy : Policy) where
  Step-Forgotten :
      (k l : Kernel policy) (a : ℕ)
      → Valid policy k
      → Forgotten policy k a
      → Step policy k l
      → Forgotten policy l a
  unfolding hltos.Scheduler.Yielding.yield_sleep_ns hltos.Scheduler.Yielding.yield_mutex begin_sleep
  Step-Forgotten k _ a v f (ticked now now_check now_wake now_resume) =
      tick-Forgotten policy k a now now_check now_wake now_resume v f
  Step-Forgotten k _ a v f (preempted now_check now_wake now_resume) =
      preempt-Forgotten policy k a now_check now_wake now_resume v f
  Step-Forgotten k l a v f (woke_single reason) =
      Kept-Forgotten policy k _ a (wake_single-Queues policy k reason v.queues).1 f
  Step-Forgotten k l a v f (woke_all reason) =
      Kept-Forgotten policy k _ a (wake_all-Queues policy k reason v.queues).1 f
  Step-Forgotten k l a v f (unlocked m) =
      Kept-Forgotten policy k _ a (wake_mutex-Queues policy k m v.queues).1 f
  Step-Forgotten k _ a v f (waited child_pid now_wake now_resume) =
      yield_to_child-Forgotten policy k a child_pid now_wake now_resume v f
  Step-Forgotten k _ a v f (blocked_for reason now_wake now_resume ne) =
      running_blocked-Forgotten policy k a reason now_wake now_resume v ne f
  Step-Forgotten k _ a v f (slept duration_ns now now_wake now_resume ne) =
      blocked-Forgotten policy k _ a _ now_wake now_resume v ne f
  Step-Forgotten k _ a v f (locked m now_wake now_resume ne) =
      blocked-Forgotten policy k _ a _ now_wake now_resume v ne f
  Step-Forgotten k l a v f (died now_wake now_resume _ ne e) =
      yield_dead-Forgotten policy k l a now_wake now_resume v f e
  Step-Forgotten k l a v f (exited now_wake now_resume _ ne e) =
      yield_zombie-Forgotten policy k l a now_wake now_resume v f e
  Step-Forgotten k l a v f (started now_wake now_resume _ ne e) =
      yield_new_process-Forgotten policy k l a now_wake now_resume v f e
  Step-Forgotten k _ a v f (created b p u fresh ne) =
      written-Forgotten policy k a b p
        (elim (Bool-cases (b == a)) [
          | inr s ↦ s
          | inl s ↦
              let moved = ap (λ c. count (λ d. d == c) k.processes) ((==_iff b a).0 s) in
              absurd (omega (arith, moved, fresh, f.listed))
        ])
        f
  Step-Forgotten k _ a v f (added b ready fresh ne) = add_process-Forgotten policy k a b f
  Step-Forgotten k l a v f (reaped _ e) = reap-Forgotten policy k l a v f e

  Steps-Forgotten :
      (k l : Kernel policy) (a : ℕ)
      → Valid policy k
      → Forgotten policy k a
      → Steps policy k l
      → Forgotten policy l a
  Steps-Forgotten k _ a v f start = f
  Steps-Forgotten k l a v f (step m _ history last) =
      Step-Forgotten m l a (Steps-Valid policy k m v history) (Steps-Forgotten k m a v f history)
        last

  -- The interrupt, when the current process has no node in the heap yet.
  preempt-Lost :
      (b : Kernel policy) (now_check now_wake now_resume : ℕ)
      → Queues policy b
      → Forgotten policy b b.cpu.process
      → (b.cpu.preemption_enabled && is_preempted policy b now_check) ≡ true
      → Valid policy (preempt policy b now_check now_wake now_resume)
        × Forgotten policy (preempt policy b now_check now_wake now_resume) b.cpu.process
  unfolding preempt pause
  preempt-Lost b now_check now_wake now_resume w f due =
      let a = b.cpu.process in
      let self : (a == a) ≡ true = (==_iff a a).1 refl in
      let d = pick_next_process-Picked policy b now_wake w in
      let (next, k') = pick_next_process policy b now_wake in
      let apart = not-Picked policy b a (next, k') d f in
      let other : (a == next) ≡ false = ground (arith, apart) in
      let g = Kept-Forgotten policy b k' a d.kept f in
      let out : Unqueued policy k' a = record {
        not_ready = not_ready_lem policy k' a d.queues (ground (arith, g.asleep));
        not_asleep = g.not_in_heap;
      } in
      let paused = set_process policy k' a (pause (k'.process_at a)) in
      let h : Forgotten policy paused a = record {
        asleep = ground (arith, self, g.asleep);
        not_in_heap = g.not_in_heap;
        listed = g.listed;
        not_idle = g.not_idle;
      } in
      let w' = set_process-Queues policy k' a (pause (k'.process_at a)) d.queues out in
      rw (due, other)
        (
          activate_process-Valid policy (enqueue_if_runnable policy paused a) next now_resume
              (enqueue_if_runnable-Queues policy paused a w' out.not_ready)
              (enqueue_if_runnable-Unqueued policy paused a next other
                (record { not_ready = d.out.not_ready; not_asleep = d.out.not_asleep })),
          activate_process-Forgotten policy (enqueue_if_runnable policy paused a) a next now_resume
              apart (enqueue_if_runnable-Forgotten policy paused a a h),
        )

  begin_sleep-Forgotten :
      (k : Kernel policy) (duration_ns now : ℕ)
      → Valid policy k
      → k.cpu.process ≢ k.cpu.idle_process
      → 1 ≤ count (λ b. b == k.cpu.process) k.processes
      → Queues policy (begin_sleep policy k duration_ns now)
        × Forgotten policy (begin_sleep policy k duration_ns now) k.cpu.process
  unfolding begin_sleep sleep_for wait_for
  begin_sleep-Forgotten k duration_ns now v ne listed =
      let a = k.cpu.process in
      let u = current_Unqueued policy k v in
      let self : (a == a) ≡ true = (==_iff a a).1 refl in
      (
        set_process-Queues policy k a (sleep_for (k.process_at a) duration_ns now) v.queues u,
        record {
          asleep = rw self refl;
          not_in_heap = u.not_asleep;
          listed = listed;
          not_idle = ne;
        },
      )

  -- If the timer takes the CPU from a process, of the list and not the idle one, between the two
  -- statements of `yield_sleep_ns`, with preemption enabled and its time slice over, then whatever
  -- the kernel does afterwards the process stays asleep, in neither the queue nor the heap, and
  -- never runs again.
  pub interrupted_sleep :
      (k : Kernel policy) (duration_ns now now_check now_wake now_resume : ℕ) (l : Kernel policy)
      → Valid policy k
      → k.cpu.process ≢ k.cpu.idle_process
      → 1 ≤ count (λ b. b == k.cpu.process) k.processes
      → k.cpu.preemption_enabled ≡ true
      → is_preempted policy (begin_sleep policy k duration_ns now) now_check ≡ true
      → Steps policy
          (preempt policy (begin_sleep policy k duration_ns now) now_check now_wake now_resume)
          l
      → (state_is_sleeping (l.process_at k.cpu.process).state ≡ true)
        × Unqueued policy l k.cpu.process
        × (l.cpu.process ≢ k.cpu.process)
  unfolding begin_sleep
  interrupted_sleep k duration_ns now now_check now_wake now_resume l v ne listed enabled due
        history =
      let (queues, asleep) = begin_sleep-Forgotten k duration_ns now v ne listed in
      let (w, f) =
        preempt-Lost (begin_sleep policy k duration_ns now) now_check now_wake now_resume queues
          asleep (ground (arith, enabled, due)) in
      let g = Steps-Forgotten _ l k.cpu.process w f history in
      let end = Steps-Valid policy _ l w history in
      (
        g.asleep,
        record {
          not_ready = not_ready_lem policy l k.cpu.process end.queues (ground (arith, g.asleep));
          not_asleep = g.not_in_heap;
        },
        λ e. ground (arith, not_current policy l k.cpu.process end g, e),
      )
