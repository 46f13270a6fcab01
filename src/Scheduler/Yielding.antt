-- ===== src/Scheduler/Yielding.antt =====
-- Part of src/kernel/lib/scheduler/mechanism/scheduler_mechanism.cpp: how a process gives up the CPU.
use hltos.Base.{ℕ, ◌/◌, none, some, [], ◌∷◌, ◌++◌, ◌==◌, if◌then◌else◌, mul64}
use hltos.Base.Int.{ℤ, negsuc}
use hltos.Base.Run.{Run, ok, panic}
use hltos.MinHeap.{insert}
use hltos.Process.{
  WaitReason, sleep, mutex, reason_code, is_zombie, wake, resume, kill, wait_for, wait_for_child,
  wait_for_mutex, sleep_for,
}
use hltos.Scheduler.Policy.{Policy}
use hltos.Scheduler.Kernel.{Kernel, set_process}
use hltos.Scheduler.Waking.{wake_sleepers}
use hltos.Scheduler.Switching.{
  find_child, activate_process, enqueue_if_runnable, pick_next_process, preempt,
}

module _ (policy : Policy) where
  open policy use {State, enqueue, should_preempt, pick_next}

  -- How one round of the loop of `yield_to_child` ends: with a value, or on another process, after
  -- which the parent goes round again when it runs.
  pub data Waited : Type 0 where
    returned : ℤ → Kernel policy → Waited
    switched : Kernel policy → Waited

  -- The kernel that the round leaves.
  abbrev pub kernel_of : Waited → Kernel policy
  kernel_of (returned status k) = k
  kernel_of (switched k) = k

  -- `-ECHILD`
  abbrev pub no_child : ℤ
  no_child = negsuc 9

  unfoldable pub collect : Kernel policy → ℕ → ℕ → Kernel policy
  collect k child now =
      let parent = k.cpu.process in
      let reaped = set_process policy k child (kill (k.process_at child)) in
      set_process policy reaped parent (resume (reaped.process_at parent) now)

  unfoldable pub yield_to_child : Kernel policy → ℤ → ℕ → ℕ → Waited
  yield_to_child k child_pid now_wake now_resume =
      let parent = k.cpu.process in
      elim (find_child policy k parent child_pid) [
        | none ↦ returned no_child k
        | some child ↦
            let waiting =
              set_process policy k parent (wait_for_child (k.process_at parent) child_pid) in
            let (next, k') = pick_next_process policy waiting now_wake in
            if is_zombie (k.process_at child)
            then returned (k.process_at child).exit_status (collect k child now_resume)
            else switched (activate_process policy k' next now_resume)
      ]

  -- The sleeper's node, if the process is about to sleep.
  abbrev pub add_sleeper : Kernel policy → WaitReason → Kernel policy
  add_sleeper k reason =
      let current = k.cpu.process in
      if reason_code reason == reason_code sleep
      then record k { sleepers = insert k.sleepers (k.process_at current).wake_time_ns current }
      else k

  unfoldable pub yield_blocked : Kernel policy → WaitReason → ℕ → ℕ → Kernel policy
  yield_blocked k reason now_wake now_resume =
      let current = k.cpu.process in
      let waiting = set_process policy k current (wait_for (k.process_at current) reason) in
      let (next, k') = pick_next_process policy (add_sleeper waiting reason) now_wake in
      if current == next
      then set_process policy k' current (resume (k'.process_at current) now_resume)
      else activate_process policy k' next now_resume

  -- `current->sleep_for(duration_ns)`, the first statement of `yield_sleep_ns`, before the lock.
  unfoldable pub begin_sleep : Kernel policy → ℕ → ℕ → Kernel policy
  begin_sleep k duration_ns now =
      let current = k.cpu.process in
      set_process policy k current (sleep_for (k.process_at current) duration_ns now)

  -- `yield_sleep_ns` when no interrupt comes between its two statements.
  unfoldable pub yield_sleep_ns : Kernel policy → ℕ → ℕ → ℕ → ℕ → Kernel policy
  yield_sleep_ns k duration_ns now now_wake now_resume =
      yield_blocked (begin_sleep k duration_ns now) sleep now_wake now_resume

  unfoldable pub yield_sleep_us : Kernel policy → ℕ → ℕ → ℕ → ℕ → Kernel policy
  yield_sleep_us k duration_us = yield_sleep_ns k (mul64 duration_us 1000)

  unfoldable pub yield_sleep_ms : Kernel policy → ℕ → ℕ → ℕ → ℕ → Kernel policy
  yield_sleep_ms k duration_ms = yield_sleep_us k (mul64 duration_ms 1000)

  -- `panic` is the failed assertion `hz > 0`.
  unfoldable pub yield_sleep_hz : Kernel policy → ℕ → ℕ → ℕ → ℕ → Run (Kernel policy)
  yield_sleep_hz k hz now now_wake now_resume =
      if hz == 0 then panic else ok (yield_sleep_ns k (1_000_000_000 / hz) now now_wake now_resume)

  -- `yield_mutex` when no interrupt comes between its statements.
  unfoldable pub yield_mutex : Kernel policy → ℕ → ℕ → ℕ → Kernel policy
  yield_mutex k m now_wake now_resume =
      let current = k.cpu.process in
      let waiting = set_process policy k current (wait_for_mutex (k.process_at current) m) in
      yield_blocked waiting mutex now_wake now_resume

  unfoldable pub yield_new_process : Kernel policy → ℕ → ℕ → Run (Kernel policy)
  yield_new_process k now_wake now_resume =
      let current = k.cpu.process in
      let (next, k') = pick_next_process policy k now_wake in
      let woken = set_process policy k' current (wake (k'.process_at current)) in
      if current == next
      then panic
      else ok (activate_process policy (enqueue_if_runnable policy woken current) next now_resume)

  unfoldable pub add_process : Kernel policy → ℕ → Kernel policy
  add_process k a = record k { processes = k.processes ++ a ∷ []; queue = enqueue k.queue a }

  unfoldable pub tick : Kernel policy → ℕ → ℕ → ℕ → ℕ → Kernel policy
  tick k now now_check now_wake now_resume =
      if k.initialized
      then preempt policy (wake_sleepers policy k now) now_check now_wake now_resume
      else k
