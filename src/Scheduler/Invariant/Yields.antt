-- ===== src/Scheduler/Invariant/Yields.antt =====
-- The queues' invariant under the functions that give up the CPU, of
-- src/kernel/lib/scheduler/mechanism/scheduler_mechanism.cpp.
use hltos.Base.{
  ℕ, ◌≡◌, ◌≢◌, refl, sym, ap, ◌∙◌, true, false, not, arith, ◌==◌, ==_iff, count, Bool-cases, inl,
  inr,
}
use hltos.Base.Run.{ok}
use hltos.MinHeap.{Node}
use hltos.MinHeap.Insert.{insert-IsHeap}
use hltos.Process.{
  Process, WaitReason, no_reason, keyboard, sleep, framebuffer, child_process, mutex, signal,
  reason_code, waiting_state, is_ready, resume, kill, zombify, wait_for,
}
use hltos.Scheduler.Policy.{Policy}
use hltos.Scheduler.Kernel.{Kernel, set_process}
use hltos.Scheduler.Waking.{wake_parents}
use hltos.Scheduler.Switching.{activate_process, pick_next_process, yield_dead, yield_zombie}
use hltos.Scheduler.Yielding.{add_sleeper, yield_blocked, begin_sleep, yield_sleep_ns, yield_mutex}
use hltos.Scheduler.Invariant.{
  is_sleep_node, Queues, Unqueued, not_ready_lem, not_asleep_lem, set_process-Queues,
}
use hltos.Scheduler.Invariant.Wakes.{IsSettled, settled_lem, wake_parents-Queues}
use hltos.Scheduler.Invariant.Picks.{
  Valid, Picked, pick_next_process-Picked, activate_process-Valid,
}

module _ (policy : Policy) where
  open policy use {contents}

  pub current_Unqueued : (k : Kernel policy) → Valid policy k → Unqueued policy k k.cpu.process
  current_Unqueued k v = record {
    not_ready = not_ready_lem policy k k.cpu.process v.queues (ground (arith, v.running));
    not_asleep = not_asleep_lem policy k k.cpu.process v.queues (ground (arith, v.running));
  }

  -- A settled process that is not ready and not idle is not the one picked.
  pub other-Picked :
      (k : Kernel policy) (a : ℕ) (picked : ℕ × Kernel policy)
      → Picked policy k picked
      → IsSettled policy k a
      → is_ready (k.process_at a) ≡ false
      → a ≢ k.cpu.idle_process
      → (a == picked.0) ≡ false
  other-Picked k a picked d settled unready ne = elim (Bool-cases (a == picked.0)) [
    | inr e ↦ e
    | inl e ↦
        let same : a ≡ picked.0 = (==_iff a picked.0).0 e in
        elim d.runnable [
          | inl idle ↦ absurd (ne (same ∙ idle))
          | inr ready ↦
              let kept = ap (λ p. is_ready p) (d.kept.settled_same a settled) in
              let moved = ap (λ b. is_ready (picked.1.process_at b)) same in
              cc (kept, moved, ready, unready)
        ]
  ]

  -- `yield_dead` by a running process other than the idle one never fails its assertion, and
  -- leaves the invariant and a running process.
  pub yield_dead-Valid :
      (k : Kernel policy) (now_wake now_resume : ℕ)
      → Valid policy k
      → k.cpu.process ≢ k.cpu.idle_process
      → (k' : Kernel policy) × (yield_dead policy k now_wake now_resume ≡ ok k') × Valid policy k'
  unfolding yield_dead kill
  yield_dead-Valid k now_wake now_resume v ne =
      let a = k.cpu.process in
      let killed = set_process policy k a (kill (k.process_at a)) in
      let w =
        set_process-Queues policy k a (kill (k.process_at a)) v.queues (current_Unqueued k v) in
      let d = pick_next_process-Picked policy killed now_wake w in
      let (next, k') = pick_next_process policy killed now_wake in
      let self : (a == a) ≡ true = (==_iff a a).1 refl in
      let settled = settled_lem policy killed a w (rw self refl) (rw self refl) in
      let other = other-Picked killed a (next, k') d settled (rw self refl) ne in
      (
        activate_process policy k' next now_resume,
        rw other refl,
        activate_process-Valid policy k' next now_resume d.queues d.out,
      )

  -- `yield_zombie` by a running process other than the idle one, which wakes the waiting parents
  -- first, never fails its assertion, and leaves the invariant and a running process.
  pub yield_zombie-Valid :
      (k : Kernel policy) (now_wake now_resume : ℕ)
      → Valid policy k
      → k.cpu.process ≢ k.cpu.idle_process
      → (k' : Kernel policy) × (yield_zombie policy k now_wake now_resume ≡ ok k') × Valid policy k'
  unfolding yield_zombie zombify
  yield_zombie-Valid k now_wake now_resume v ne =
      let a = k.cpu.process in
      let gone = set_process policy k a (zombify (k.process_at a)) in
      let w =
        set_process-Queues policy k a (zombify (k.process_at a)) v.queues (current_Unqueued k v) in
      let (w', kept) = wake_parents-Queues policy gone (k.process_at a).pid w in
      let told = wake_parents policy gone (k.process_at a).pid in
      let d = pick_next_process-Picked policy told now_wake w' in
      let (next, k') = pick_next_process policy told now_wake in
      let self : (a == a) ≡ true = (==_iff a a).1 refl in
      let settled = settled_lem policy gone a w (rw self refl) (rw self refl) in
      let still : told.process_at a ≡ gone.process_at a = kept.settled_same a settled in
      let other =
        other-Picked told a (next, k') d
          (settled_lem policy told a w' (rw (still, self) refl) (rw (still, self) refl))
          (rw (still, self) refl) (λ e. ne (e ∙ ap (λ c. c.idle_process) kept.cpu_same)) in
      (
        activate_process policy k' next now_resume,
        rw other refl,
        activate_process-Valid policy k' next now_resume d.queues d.out,
      )

  add_sleeper-Queues :
      (k : Kernel policy) (reason : WaitReason)
      → Queues policy k
      → Unqueued policy k k.cpu.process
      → k.cpu.process ≢ k.cpu.idle_process
      → (reason_code reason ≡ reason_code sleep
          → (k.process_at k.cpu.process).state ≡ waiting_state sleep)
      → Queues policy (add_sleeper policy k reason)
  add_sleeper-Queues k reason v u ne asleep =
      elim (Bool-cases (reason_code reason == reason_code sleep)) [
        | inr e ↦ rw e v
        | inl e ↦
            let a = k.cpu.process in
            let wake_time = (k.process_at a).wake_time_ns in
            let (heap, same) = insert-IsHeap k.sleepers wake_time a v.sleep_heap in
            let state = asleep (ground (arith, e)) in
            let self : (wake_time == wake_time) ≡ true = (==_iff wake_time wake_time).1 refl in
            rw e (record {
              ready_states = v.ready_states;
              ready_once = v.ready_once;
              sleep_nodes = ground (
                arith,
                same (λ n. not (is_sleep_node k.process_at n)),
                v.sleep_nodes,
                state,
                self,
              );
              sleep_once =
                  λ b. ground (arith, same (λ n. n.value == b), v.sleep_once b, u.not_asleep);
              sleep_heap = heap;
              idle_not_ready = v.idle_not_ready;
              idle_not_asleep =
                  ground (arith, same (λ n. n.value == k.cpu.idle_process), v.idle_not_asleep);
              idle_unlisted = v.idle_unlisted;
            })
      ]

  waiting_state-sleep :
      (r : WaitReason) → reason_code r ≡ reason_code sleep → waiting_state r ≡ waiting_state sleep
  waiting_state-sleep sleep e = refl
  waiting_state-sleep no_reason e = ground (arith, e)
  waiting_state-sleep keyboard e = ground (arith, e)
  waiting_state-sleep framebuffer e = ground (arith, e)
  waiting_state-sleep child_process e = ground (arith, e)
  waiting_state-sleep mutex e = ground (arith, e)
  waiting_state-sleep signal e = ground (arith, e)

  add_sleeper-cpu :
      (k : Kernel policy) (reason : WaitReason) → (add_sleeper policy k reason).cpu ≡ k.cpu
  add_sleeper-cpu k reason = elim (Bool-cases (reason_code reason == reason_code sleep)) [
    | inl e ↦ rw e refl
    | inr e ↦ rw e refl
  ]

  -- Writing the record of a picked process that is the current one: it runs on.
  pub resume-Valid :
      (k : Kernel policy) (a now : ℕ)
      → Queues policy k
      → Unqueued policy k a
      → k.cpu.process ≡ a
      → Valid policy (set_process policy k a (resume (k.process_at a) now))
  unfolding resume
  resume-Valid k a now v u e = record {
    queues = set_process-Queues policy k a _ v u;
    running = rw ((==_iff a k.cpu.process).1 (sym e)) refl;
  }

  -- The queues while the process waits and the next one is chosen.
  pub waiting_Queues :
      (k : Kernel policy) (reason : WaitReason)
      → Queues policy k
      → Unqueued policy k k.cpu.process
      → k.cpu.process ≢ k.cpu.idle_process
      → Queues policy (
          add_sleeper policy
            (set_process policy k k.cpu.process (wait_for (k.process_at k.cpu.process) reason))
            reason)
  unfolding wait_for
  waiting_Queues k reason v u ne =
      let a = k.cpu.process in
      let self : (a == a) ≡ true = (==_iff a a).1 refl in
      add_sleeper-Queues (set_process policy k a (wait_for (k.process_at a) reason)) reason
        (set_process-Queues policy k a (wait_for (k.process_at a) reason) v u)
        (record { not_ready = u.not_ready; not_asleep = u.not_asleep }) ne
        (λ e. rw self (waiting_state-sleep reason e))

  -- `yield_blocked` by a process that is in no queue, whether it runs or is about to sleep.
  yield_blocked-Unqueued :
      (k : Kernel policy) (reason : WaitReason) (now_wake now_resume : ℕ)
      → Queues policy k
      → Unqueued policy k k.cpu.process
      → k.cpu.process ≢ k.cpu.idle_process
      → Valid policy (yield_blocked policy k reason now_wake now_resume)
  unfolding yield_blocked
  yield_blocked-Unqueued k reason now_wake now_resume v u ne =
      let a = k.cpu.process in
      let waiting = set_process policy k a (wait_for (k.process_at a) reason) in
      let w' = waiting_Queues k reason v u ne in
      let d = pick_next_process-Picked policy (add_sleeper policy waiting reason) now_wake w' in
      let (next, k') = pick_next_process policy (add_sleeper policy waiting reason) now_wake in
      elim (Bool-cases (a == next)) [
        | inr e ↦ rw e (activate_process-Valid policy k' next now_resume d.queues d.out)
        | inl e ↦
            let same = (==_iff a next).0 e in
            let out : Unqueued policy k' a = record {
              not_ready = ap (λ c. count (λ b. b == c) (contents k'.queue)) same ∙ d.out.not_ready;
              not_asleep =
                  ap (λ c. count (λ (n : Node). n.value == c) k'.sleepers) same ∙ d.out.not_asleep;
            } in
            rw e (
              resume-Valid k' a now_resume d.queues out
                (ap (λ c. c.process) (d.kept.cpu_same ∙ add_sleeper-cpu waiting reason)))
      ]

  -- Every `yield_blocked` by a running process that is not the idle one.
  pub yield_blocked-Valid :
      (k : Kernel policy) (reason : WaitReason) (now_wake now_resume : ℕ)
      → Valid policy k
      → k.cpu.process ≢ k.cpu.idle_process
      → Valid policy (yield_blocked policy k reason now_wake now_resume)
  yield_blocked-Valid k reason now_wake now_resume v ne =
      yield_blocked-Unqueued k reason now_wake now_resume v.queues (current_Unqueued k v) ne

  -- The same after the current process has written its own record first.
  written-Valid :
      (k : Kernel policy) (p : Process) (reason : WaitReason) (now_wake now_resume : ℕ)
      → Valid policy k
      → k.cpu.process ≢ k.cpu.idle_process
      → Valid policy
          (yield_blocked policy (set_process policy k k.cpu.process p) reason now_wake now_resume)
  written-Valid k p reason now_wake now_resume v ne =
      let u = current_Unqueued k v in
      yield_blocked-Unqueued (set_process policy k k.cpu.process p) reason now_wake now_resume
        (set_process-Queues policy k k.cpu.process p v.queues u)
        (record { not_ready = u.not_ready; not_asleep = u.not_asleep }) ne

  -- Every `yield_sleep_ns` that no interrupt cuts in two, and every such `yield_mutex`.
  pub yield_sleep_ns-Valid :
      (k : Kernel policy) (duration_ns now now_wake now_resume : ℕ)
      → Valid policy k
      → k.cpu.process ≢ k.cpu.idle_process
      → Valid policy (yield_sleep_ns policy k duration_ns now now_wake now_resume)
  unfolding yield_sleep_ns begin_sleep
  yield_sleep_ns-Valid k duration_ns now now_wake now_resume v ne =
      written-Valid k _ sleep now_wake now_resume v ne

  pub yield_mutex-Valid :
      (k : Kernel policy) (m now_wake now_resume : ℕ)
      → Valid policy k
      → k.cpu.process ≢ k.cpu.idle_process
      → Valid policy (yield_mutex policy k m now_wake now_resume)
  unfolding yield_mutex
  yield_mutex-Valid k m now_wake now_resume v ne = written-Valid k _ mutex now_wake now_resume v ne
