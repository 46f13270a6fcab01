-- ===== src/Scheduler/Lost/Blocking.antt =====
-- Forgotten sleepers under the calls that block the current process, of
-- src/kernel/lib/scheduler/mechanism/scheduler_mechanism.cpp.
use hltos.Base.{ℕ, ◌≡◌, ◌≢◌, false, arith, ◌==◌, Bool-cases, inl, inr}
use hltos.MinHeap.Insert.{insert-IsHeap}
use hltos.Process.{Process, WaitReason, reason_code, sleep, wait_for}
use hltos.Scheduler.Policy.{Policy}
use hltos.Scheduler.Kernel.{Kernel, set_process}
use hltos.Scheduler.Switching.{pick_next_process}
use hltos.Scheduler.Yielding.{add_sleeper, yield_blocked}
use hltos.Scheduler.Invariant.{Queues, Unqueued, set_process-Queues}
use hltos.Scheduler.Invariant.Picks.{Valid, pick_next_process-Picked}
use hltos.Scheduler.Invariant.Yields.{current_Unqueued, waiting_Queues}
use hltos.Scheduler.Lost.{
  Forgotten, not_current, written-Forgotten, Kept-Forgotten, picked-Forgotten,
}

module _ (policy : Policy) where
  add_sleeper-Forgotten :
      (k : Kernel policy) (a : ℕ) (reason : WaitReason)
      → (k.cpu.process == a) ≡ false
      → Queues policy k
      → Forgotten policy k a
      → Forgotten policy (add_sleeper policy k reason) a
  add_sleeper-Forgotten k a reason ne v f =
      elim (Bool-cases (reason_code reason == reason_code sleep)) [
        | inr e ↦ rw e f
        | inl e ↦
            let b = k.cpu.process in
            let (_, same) = insert-IsHeap k.sleepers (k.process_at b).wake_time_ns b v.sleep_heap in
            rw e (record {
              asleep = f.asleep;
              not_in_heap = ground (arith, same (λ n. n.value == a), f.not_in_heap, ne);
              listed = f.listed;
              not_idle = f.not_idle;
            })
      ]

  -- `yield_blocked` by a current process that is in no queue.
  yield_blocked-Forgotten :
      (k : Kernel policy) (a : ℕ) (reason : WaitReason) (now_wake now_resume : ℕ)
      → Queues policy k
      → Unqueued policy k k.cpu.process
      → k.cpu.process ≢ k.cpu.idle_process
      → (k.cpu.process == a) ≡ false
      → Forgotten policy k a
      → Forgotten policy (yield_blocked policy k reason now_wake now_resume) a
  unfolding yield_blocked
  yield_blocked-Forgotten k a reason now_wake now_resume v u ne other f =
      let b = k.cpu.process in
      let waiting = set_process policy k b (wait_for (k.process_at b) reason) in
      let w = waiting_Queues policy k reason v u ne in
      let g =
        add_sleeper-Forgotten waiting a reason other (set_process-Queues policy k b _ v u)
          (written-Forgotten policy k a b _ other f) in
      let d = pick_next_process-Picked policy (add_sleeper policy waiting reason) now_wake w in
      let (next, k') = pick_next_process policy (add_sleeper policy waiting reason) now_wake in
      let g' = Kept-Forgotten policy _ k' a d.kept g in
      elim (Bool-cases (b == next)) [
        | inl e ↦ rw e (written-Forgotten policy k' a b _ other g')
        | inr e ↦ rw e (picked-Forgotten policy _ a now_wake now_resume w g)
      ]

  -- The same after the current process has written its own record first.
  pub blocked-Forgotten :
      (k : Kernel policy) (p : Process) (a : ℕ) (reason : WaitReason) (now_wake now_resume : ℕ)
      → Valid policy k
      → k.cpu.process ≢ k.cpu.idle_process
      → Forgotten policy k a
      → Forgotten policy
          (yield_blocked policy (set_process policy k k.cpu.process p) reason now_wake now_resume)
          a
  blocked-Forgotten k p a reason now_wake now_resume v ne f =
      let u = current_Unqueued policy k v in
      let other = not_current policy k a v f in
      yield_blocked-Forgotten (set_process policy k k.cpu.process p) a reason now_wake now_resume
        (set_process-Queues policy k k.cpu.process p v.queues u)
        (record { not_ready = u.not_ready; not_asleep = u.not_asleep }) ne other
        (written-Forgotten policy k a k.cpu.process p other f)

  pub running_blocked-Forgotten :
      (k : Kernel policy) (a : ℕ) (reason : WaitReason) (now_wake now_resume : ℕ)
      → Valid policy k
      → k.cpu.process ≢ k.cpu.idle_process
      → Forgotten policy k a
      → Forgotten policy (yield_blocked policy k reason now_wake now_resume) a
  running_blocked-Forgotten k a reason now_wake now_resume v ne f =
      yield_blocked-Forgotten k a reason now_wake now_resume v.queues (current_Unqueued policy k v)
        ne (not_current policy k a v f) f
