-- ===== src/Scheduler/Invariant/Picks.antt =====
-- The queues' invariant under the functions that choose and activate the next process, of
-- src/kernel/lib/scheduler/mechanism/scheduler_mechanism.cpp.
use hltos.Base.{
  ℕ, ◌≡◌, ◌⊎◌, refl, ap, ◌∙◌, true, false, not, ◌&&◌, some, arith, ◌==◌, ==_iff, None, Bool-cases,
  Option-cases, inl, inr,
}
use hltos.Process.{is_ready, is_running, resume, pause}
use hltos.Scheduler.Policy.{Policy}
use hltos.Scheduler.Kernel.{Kernel, set_process}
use hltos.Scheduler.Waking.{wake_sleepers}
use hltos.Scheduler.Switching.{
  activate_process, enqueue_if_runnable, pick_next_process, preempt, is_preempted,
}
use hltos.Scheduler.Invariant.{
  Queues, Unqueued, not_ready_lem, not_asleep_lem, set_process-Queues, enqueue-Queues,
}
use hltos.Scheduler.Invariant.Wakes.{Kept, Kept-trans, IsSettled, settled_lem, wake_sleepers-Queues}

module _ (policy : Policy) where
  open policy use {enqueue, pick_next, contents, enqueue_holds, pick_next_some}

  -- The queues' invariant, and the current process runs.
  pub record Valid (k : Kernel policy) : Type 0 where
    pub queues : Queues policy k
    pub running : is_running (k.process_at k.cpu.process) ≡ true

  pub record Picked (k : Kernel policy) (picked : ℕ × Kernel policy) : Type 0 where
    pub queues : Queues policy picked.1
    pub kept : Kept policy k picked.1
    -- The process that runs next has left the queues.
    pub out : Unqueued policy picked.1 picked.0
    pub runnable :
        (picked.0 ≡ k.cpu.idle_process) ⊎ (is_ready (picked.1.process_at picked.0) ≡ true)

  dequeue-Picked :
      (k : Kernel policy) (a : ℕ) (queue : policy.State)
      → Queues policy k
      → pick_next k.queue ≡ some (a, queue)
      → Picked k (a, record k { queue = queue })
  dequeue-Picked k a queue v e =
      let same = pick_next_some k.queue queue a e in
      let self : (a == a) ≡ true = (==_iff a a).1 refl in
      let ready : is_ready (k.process_at a) ≡ true =
        ground (arith, same (λ b. not (is_ready (k.process_at b))), v.ready_states) in
      record {
        queues = record {
          ready_states = omega (arith, same (λ b. not (is_ready (k.process_at b))), v.ready_states);
          ready_once = λ c. omega (arith, same (λ b. b == c), v.ready_once c);
          sleep_nodes = v.sleep_nodes;
          sleep_once = v.sleep_once;
          sleep_heap = v.sleep_heap;
          idle_not_ready = omega (arith, same (λ b. b == k.cpu.idle_process), v.idle_not_ready);
          idle_not_asleep = v.idle_not_asleep;
          idle_unlisted = v.idle_unlisted;
        };
        kept = record {
          cpu_same = refl;
          processes_same = refl;
          settled_same = λ b s. refl;
          settled_awake = λ b s. s.not_asleep;
        };
        out = record {
          not_ready = ground (arith, same (λ b. b == a), v.ready_once a, self);
          not_asleep = not_asleep_lem policy k a v (ground (arith, ready));
        };
        runnable = inr ready;
      }

  pub pick_next_process-Picked :
      (k : Kernel policy) (now : ℕ) → Queues policy k → Picked k (pick_next_process policy k now)
  unfolding pick_next_process
  pick_next_process-Picked k now v =
      let (w, kept) = wake_sleepers-Queues policy k now v in
      let woken = wake_sleepers policy k now in
      elim (Option-cases (pick_next woken.queue)) [
        | inl e ↦
            rw (e, pick_next_process)
              (record {
                queues = w;
                kept = kept;
                out = record { not_ready = w.idle_not_ready; not_asleep = w.idle_not_asleep };
                runnable = inl (ap (λ c. c.idle_process) kept.cpu_same);
              })
        | inr ((a, queue), e) ↦
            let d = dequeue-Picked woken a queue w e in
            rw (e, pick_next_process)
              (record {
                queues = d.queues;
                kept = Kept-trans policy k woken _ kept d.kept;
                out = d.out;
                runnable = elim d.runnable [
                  | inl idle ↦ inl (idle ∙ ap (λ c. c.idle_process) kept.cpu_same)
                  | inr ready ↦ inr ready
                ];
              })
      ]

  -- Activating a process that is in no queue makes it the running one.
  pub activate_process-Valid :
      (k : Kernel policy) (a now : ℕ)
      → Queues policy k
      → Unqueued policy k a
      → Valid (activate_process policy k a now)
  unfolding activate_process resume
  activate_process-Valid k a now v u =
      let self : (a == a) ≡ true = (==_iff a a).1 refl in
      let w = set_process-Queues policy k a _ v u in
      record {
        queues = record {
          ready_states = w.ready_states;
          ready_once = w.ready_once;
          sleep_nodes = w.sleep_nodes;
          sleep_once = w.sleep_once;
          sleep_heap = w.sleep_heap;
          idle_not_ready = w.idle_not_ready;
          idle_not_asleep = w.idle_not_asleep;
          idle_unlisted = w.idle_unlisted;
        };
        running = rw self refl;
      }

  pub enqueue_if_runnable-Queues :
      (k : Kernel policy) (a : ℕ)
      → Queues policy k
      → None (λ b. b == a) (contents k.queue)
      → Queues policy (enqueue_if_runnable policy k a)
  unfolding enqueue_if_runnable
  enqueue_if_runnable-Queues k a v h = elim (Bool-cases (a == k.cpu.idle_process)) [
    | inl e ↦ rw e v
    | inr e ↦ elim (Bool-cases (is_ready (k.process_at a))) [
      | inl r ↦ rw (e, r) (enqueue-Queues policy k a v r h (ground arith))
      | inr r ↦ rw (e, r) v
    ]
  ]

  -- It puts no other process into a queue.
  pub enqueue_if_runnable-Unqueued :
      (k : Kernel policy) (a b : ℕ)
      → (a == b) ≡ false
      → Unqueued policy k b
      → Unqueued policy (enqueue_if_runnable policy k a) b
  unfolding enqueue_if_runnable
  enqueue_if_runnable-Unqueued k a b ne u =
      let held = enqueue_holds k.queue a (λ c. c == b) in
      elim (Bool-cases (a == k.cpu.idle_process)) [
        | inl e ↦ rw e u
        | inr e ↦ elim (Bool-cases (is_ready (k.process_at a))) [
          | inl r ↦
              rw (e, r)
                (record {
                  not_ready = ground (arith, held, u.not_ready, ne);
                  not_asleep = u.not_asleep;
                })
          | inr r ↦ rw (e, r) u
        ]
      ]

  -- Taking the CPU from a running process: it goes back to the queue, unless it is the idle one,
  -- and the picked process runs.
  switch-Valid :
      (k : Kernel policy) (current next now : ℕ)
      → Queues policy k
      → is_running (k.process_at current) ≡ true
      → (current == next) ≡ false
      → Unqueued policy k next
      → Valid (
          activate_process policy
            (enqueue_if_runnable policy
              (set_process policy k current (pause (k.process_at current)))
              current)
            next
            now)
  switch-Valid k current next now v running ne out =
      let u : Unqueued policy k current = record {
        not_ready = not_ready_lem policy k current v (ground arith);
        not_asleep = not_asleep_lem policy k current v (ground arith);
      } in
      let paused = set_process policy k current (pause (k.process_at current)) in
      let w = set_process-Queues policy k current _ v u in
      activate_process-Valid (enqueue_if_runnable policy paused current) next now
        (enqueue_if_runnable-Queues paused current w u.not_ready)
        (enqueue_if_runnable-Unqueued paused current next ne
          (record { not_ready = out.not_ready; not_asleep = out.not_asleep }))

  pub running-IsSettled :
      (k : Kernel policy)
      → Queues policy k
      → is_running (k.process_at k.cpu.process) ≡ true
      → IsSettled policy k k.cpu.process
  running-IsSettled k v running =
      settled_lem policy k k.cpu.process v (ground (arith, running)) (ground (arith, running))

  -- The picked kernel still runs the current process, if that was running.
  pub Picked-running :
      (k : Kernel policy) (picked : ℕ × Kernel policy)
      → Picked k picked
      → Queues policy k
      → is_running (k.process_at k.cpu.process) ≡ true
      → is_running (picked.1.process_at k.cpu.process) ≡ true
  Picked-running k picked d v running =
      let same = d.kept.settled_same k.cpu.process (running-IsSettled k v running) in
      ap (λ p. is_running p) same ∙ running

  -- `preempt` keeps the invariant of the queues, and some process runs after it.
  pub preempt-Valid :
      (k : Kernel policy) (now_check now_wake now_resume : ℕ)
      → Valid k
      → Valid (preempt policy k now_check now_wake now_resume)
  unfolding preempt
  preempt-Valid k now_check now_wake now_resume v =
      let d = pick_next_process-Picked k now_wake v.queues in
      let (next, k') = pick_next_process policy k now_wake in
      let running = Picked-running k (next, k') d v.queues v.running in
      elim (Bool-cases (k.cpu.preemption_enabled && is_preempted policy k now_check)) [
        | inr e ↦ rw e v
        | inl e ↦ elim (Bool-cases (k.cpu.process == next)) [
          | inl s ↦
              rw (e, s)
                (record {
                  queues = d.queues;
                  running =
                      ap (λ c. is_running (k'.process_at c.process)) d.kept.cpu_same ∙ running;
                })
          | inr s ↦
              rw (e, s) (switch-Valid k' k.cpu.process next now_resume d.queues running s d.out)
        ]
      ]

  -- A wake-up leaves the current process running.
  pub woken-Valid : (k l : Kernel policy) → Valid k → Queues policy l → Kept policy k l → Valid l
  woken-Valid k l v w kept = record {
    queues = w;
    running =
        ap (λ c. is_running (l.process_at c.process)) kept.cpu_same
        ∙ ap (λ p. is_running p)
            (kept.settled_same k.cpu.process (running-IsSettled k v.queues v.running))
        ∙ v.running;
  }
