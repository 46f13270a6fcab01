-- ===== src/Scheduler/Invariant/Calls.antt =====
-- The queues' invariant under the wait for a child, the start of processes, the timer's tick and the
-- reaper of src/kernel/lib/scheduler/mechanism/scheduler_mechanism.cpp.
use hltos.Base.{
  ℕ, ◌≤◌, ◌≡◌, ◌≢◌, refl, ap, ◌∙◌, Bool, true, false, not, ◌&&◌, List, [], ◌∷◌, arith, ◌==◌, ==_iff,
  count, count-append, None, Bool-cases, Option-cases, inl, inr,
}
use hltos.Base.Int.{ℤ}
use hltos.Base.Run.{ok}
use hltos.Process.{is_ready, is_zombie, is_dead, is_running, kill, wait_for_child, wake}
use hltos.Scheduler.Policy.{Policy}
use hltos.Scheduler.Kernel.{Kernel, set_process}
use hltos.Scheduler.Waking.{wake_sleepers}
use hltos.Scheduler.Switching.{
  activate_process, enqueue_if_runnable, pick_next_process, find_child, reap, reap_loop,
}
use hltos.Scheduler.Yielding.{
  collect, kernel_of, yield_to_child, yield_new_process, add_process, tick,
}
use hltos.Scheduler.Invariant.{
  Unqueued, not_ready_lem, not_asleep_lem, set_process-Queues, enqueue-Queues,
}
use hltos.Scheduler.Invariant.Wakes.{wake_sleepers-Queues}
use hltos.Scheduler.Invariant.Picks.{
  Valid, pick_next_process-Picked, activate_process-Valid, enqueue_if_runnable-Queues,
  enqueue_if_runnable-Unqueued, preempt-Valid, woken-Valid, running-IsSettled,
}
use hltos.Scheduler.Invariant.Yields.{current_Unqueued, other-Picked, resume-Valid}

module _ (policy : Policy) where
  open policy use {enqueue, contents, enqueue_holds}

  collect-Valid :
      (k : Kernel policy) (child now : ℕ)
      → Valid policy k
      → is_zombie (k.process_at child) ≡ true
      → Valid policy (collect policy k child now)
  unfolding collect
  collect-Valid k child now v zombie =
      let u : Unqueued policy k child = record {
        not_ready = not_ready_lem policy k child v.queues (ground (arith, zombie));
        not_asleep = not_asleep_lem policy k child v.queues (ground (arith, zombie));
      } in
      let reaped = set_process policy k child (kill (k.process_at child)) in
      let parent = current_Unqueued policy k v in
      resume-Valid policy reaped k.cpu.process now (set_process-Queues policy k child _ v.queues u)
        (record { not_ready = parent.not_ready; not_asleep = parent.not_asleep }) refl

  -- A round of `yield_to_child` keeps the invariant, whether there is no such child, a zombie whose
  -- status it collects, or a wait.
  pub yield_to_child-Valid :
      (k : Kernel policy) (child_pid : ℤ) (now_wake now_resume : ℕ)
      → Valid policy k
      → Valid policy (kernel_of policy (yield_to_child policy k child_pid now_wake now_resume))
  unfolding yield_to_child
  yield_to_child-Valid k child_pid now_wake now_resume v =
      let parent = k.cpu.process in
      let waiting = set_process policy k parent (wait_for_child (k.process_at parent) child_pid) in
      let w = set_process-Queues policy k parent _ v.queues (current_Unqueued policy k v) in
      let d = pick_next_process-Picked policy waiting now_wake w in
      let (next, k') = pick_next_process policy waiting now_wake in
      elim (Option-cases (find_child policy k parent child_pid)) [
        | inl e ↦ rw (e, yield_to_child) v
        | inr (child, e) ↦ elim (Bool-cases (is_zombie (k.process_at child))) [
          | inl z ↦ rw (e, yield_to_child, z) (collect-Valid k child now_resume v z)
          | inr z ↦
              rw (e, yield_to_child, z)
                (activate_process-Valid policy k' next now_resume d.queues d.out)
        ]
      ]

  -- `yield_new_process` by a running process other than the idle one never fails its assertion, and
  -- leaves the invariant and a running process.
  pub yield_new_process-Valid :
      (k : Kernel policy) (now_wake now_resume : ℕ)
      → Valid policy k
      → k.cpu.process ≢ k.cpu.idle_process
      → (k' : Kernel policy) × (yield_new_process policy k now_wake now_resume ≡ ok k')
        × Valid policy k'
  unfolding yield_new_process wake
  yield_new_process-Valid k now_wake now_resume v ne =
      let a = k.cpu.process in
      let d = pick_next_process-Picked policy k now_wake v.queues in
      let (next, k') = pick_next_process policy k now_wake in
      let other =
        other-Picked policy k a (next, k') d (running-IsSettled policy k v.queues v.running)
          (ground (arith, v.running)) ne in
      let still = d.kept.settled_same a (running-IsSettled policy k v.queues v.running) in
      let runs : is_running (k'.process_at a) ≡ true = ap (λ p. is_running p) still ∙ v.running in
      let u : Unqueued policy k' a = record {
        not_ready = not_ready_lem policy k' a d.queues (ground (arith, runs));
        not_asleep = not_asleep_lem policy k' a d.queues (ground (arith, runs));
      } in
      let woken = set_process policy k' a (wake (k'.process_at a)) in
      let w = set_process-Queues policy k' a (wake (k'.process_at a)) d.queues u in
      (
        activate_process policy (enqueue_if_runnable policy woken a) next now_resume,
        rw other refl,
        activate_process-Valid policy (enqueue_if_runnable policy woken a) next now_resume
            (enqueue_if_runnable-Queues policy woken a w u.not_ready)
            (enqueue_if_runnable-Unqueued policy woken a next other
              (record { not_ready = d.out.not_ready; not_asleep = d.out.not_asleep })),
      )

  -- Adding a ready process that no queue holds, other than the idle one.
  pub add_process-Valid :
      (k : Kernel policy) (a : ℕ)
      → Valid policy k
      → is_ready (k.process_at a) ≡ true
      → None (λ b. b == a) (contents k.queue)
      → a ≢ k.cpu.idle_process
      → Valid policy (add_process policy k a)
  unfolding add_process
  add_process-Valid k a v ready fresh ne =
      let w = enqueue-Queues policy k a v.queues ready fresh ne in
      record {
        queues = record {
          ready_states = w.ready_states;
          ready_once = w.ready_once;
          sleep_nodes = w.sleep_nodes;
          sleep_once = w.sleep_once;
          sleep_heap = w.sleep_heap;
          idle_not_ready = w.idle_not_ready;
          idle_not_asleep = w.idle_not_asleep;
          idle_unlisted = ground (
            arith,
            count-append (λ b. b == k.cpu.idle_process) k.processes (a ∷ []),
            w.idle_unlisted,
          );
        };
        running = v.running;
      }

  -- The timer's tick.
  pub tick-Valid :
      (k : Kernel policy) (now now_check now_wake now_resume : ℕ)
      → Valid policy k
      → Valid policy (tick policy k now now_check now_wake now_resume)
  unfolding tick
  tick-Valid k now now_check now_wake now_resume v =
      let (w, kept) = wake_sleepers-Queues policy k now v.queues in
      let woken = wake_sleepers policy k now in
      elim (Bool-cases k.initialized) [
        | inl e ↦ simp e (
            preempt-Valid policy woken now_check now_wake now_resume
              (woken-Valid policy k woken v w kept))
        | inr e ↦ simp e v
      ]

  reap_loop-ok :
      (k : Kernel policy)
      → is_dead (k.process_at k.cpu.process) ≡ false
      → (xs : List ℕ)
      → (kept : List ℕ) × (reap_loop policy k xs ≡ ok kept)
        × (None (λ a. is_dead (k.process_at a)) kept)
        × ((t : ℕ → Bool)
            → count (λ a. t a && not (is_dead (k.process_at a))) kept
              ≡ count (λ a. t a && not (is_dead (k.process_at a))) xs)
        × ((t : ℕ → Bool) → count t kept ≤ count t xs)
  unfolding reap_loop
  reap_loop-ok k alive [] = ([], refl, refl, λ t. refl, λ t. ground arith)
  reap_loop-ok k alive (a ∷ xs) =
      let (kept, e, none_dead, same, fewer) = reap_loop-ok k alive xs in
      elim (Bool-cases (is_dead (k.process_at a))) [
        | inl d ↦
            let other : (a == k.cpu.process) ≡ false = elim (Bool-cases (a == k.cpu.process)) [
              | inr o ↦ o
              | inl o ↦
                  cc (ap (λ b. is_dead (k.process_at b)) ((==_iff a k.cpu.process).0 o), d, alive)
            ] in
            (
              kept,
              rw (d, other, e) refl,
              none_dead,
              λ t. ground (arith, same t, d),
              λ t. ground (arith, fewer t),
            )
        | inr d ↦ (
          a ∷ kept,
          rw (d, e) refl,
          ground (arith, d, none_dead),
          λ t. ground (arith, same t),
          λ t. ground (arith, fewer t),
        )
      ]

  -- `reap` on a well-formed kernel never fails its assertion that the reaper does not free itself;
  -- it changes nothing but the list of processes, keeps the invariant, takes every dead process out of the list, and keeps each of the others
  -- as often as it was there.
  pub reap-Valid :
      (k : Kernel policy)
      → Valid policy k
      → (kept : List ℕ) × (reap policy k ≡ ok (record k { processes = kept }))
        × Valid policy (record k { processes = kept })
        × (None (λ a. is_dead (k.process_at a)) kept)
        × ((t : ℕ → Bool)
            → count (λ a. t a && not (is_dead (k.process_at a))) kept
              ≡ count (λ a. t a && not (is_dead (k.process_at a))) k.processes)
  unfolding reap
  reap-Valid k v =
      let alive : is_dead (k.process_at k.cpu.process) ≡ false = ground (arith, v.running) in
      let (kept, e, none_dead, same, fewer) = reap_loop-ok k alive k.processes in
      let q = v.queues in
      (
        kept,
        rw e refl,
        record {
          queues = record {
            ready_states = q.ready_states;
            ready_once = q.ready_once;
            sleep_nodes = q.sleep_nodes;
            sleep_once = q.sleep_once;
            sleep_heap = q.sleep_heap;
            idle_not_ready = q.idle_not_ready;
            idle_not_asleep = q.idle_not_asleep;
            idle_unlisted = omega (arith, fewer (λ b. b == k.cpu.idle_process), q.idle_unlisted);
          };
          running = v.running;
        },
        none_dead,
        same,
      )
