-- ===== src/Scheduler/Lost.antt =====
-- What an interrupt between the two statements of `yield_sleep_ns` of
-- src/kernel/lib/scheduler/mechanism/scheduler_mechanism.cpp can leave: a process that sleeps but
-- is not in the heap.
pub mod Blocking
pub mod Histories
pub mod Interrupted
use hltos.Base.{
  ℕ, ◌+◌, ◌≤◌, ◌≡◌, ◌≢◌, refl, sym, ap, ◌∙◌, Bool, true, false, not, ◌&&◌, Option, none, some, List,
  [], ◌∷◌, arith, ◌==◌, ==_iff, if◌then◌else◌, one, count, count_mono, count-append, None,
  Bool-cases, Option-cases, inl, inr, ◌++◌,
}
use hltos.MinHeap.{Node}
use hltos.Process.{
  Process, state_is_sleeping, is_ready, is_dead, is_zombie, is_running, reason_code, sleep,
}
use hltos.Scheduler.Policy.{Policy}
use hltos.Scheduler.Kernel.{Kernel, set_process}
use hltos.Scheduler.Switching.{activate_process, enqueue_if_runnable, pick_next_process}
use hltos.Scheduler.Invariant.{Queues, Unqueued, not_ready_lem}
use hltos.Scheduler.Invariant.Wakes.{Kept, IsSettled}
use hltos.Scheduler.Invariant.Picks.{Picked, Valid, pick_next_process-Picked}

module _ (policy : Policy) where
  open policy use {contents}

  -- A process of the list, not the idle one, that sleeps and has no node in the heap.
  pub record Forgotten (k : Kernel policy) (a : ℕ) : Type 0 where
    pub asleep : state_is_sleeping (k.process_at a).state ≡ true
    pub not_in_heap : None (λ n. n.value == a) k.sleepers
    pub listed : 1 ≤ count (λ b. b == a) k.processes
    pub not_idle : a ≢ k.cpu.idle_process

  -- It is not the current process.
  pub not_current :
      (k : Kernel policy) (a : ℕ) → Valid policy k → Forgotten k a → (k.cpu.process == a) ≡ false
  not_current k a v f = elim (Bool-cases (k.cpu.process == a)) [
    | inr e ↦ e
    | inl e ↦
        let moved : is_running (k.process_at a) ≡ true =
          sym (ap (λ b. is_running (k.process_at b)) ((==_iff k.cpu.process a).0 e)) ∙ v.running in
        ground (arith, moved, f.asleep)
  ]

  pub written-Forgotten :
      (k : Kernel policy) (a b : ℕ) (p : Process)
      → (b == a) ≡ false
      → Forgotten k a
      → Forgotten (set_process policy k b p) a
  written-Forgotten k a b p ne f = record {
    asleep = rw ne f.asleep;
    not_in_heap = f.not_in_heap;
    listed = f.listed;
    not_idle = f.not_idle;
  }

  pub Kept-Forgotten :
      (k l : Kernel policy) (a : ℕ) → Kept policy k l → Forgotten k a → Forgotten l a
  Kept-Forgotten k l a kept f =
      let settled : IsSettled policy k a = record {
        not_blocked = ground (arith, f.asleep);
        not_asleep = f.not_in_heap;
      } in
      record {
        asleep =
            ap (λ (p : Process). state_is_sleeping p.state) (kept.settled_same a settled)
            ∙ f.asleep;
        not_in_heap = kept.settled_awake a settled;
        listed = omega (arith, ap (λ xs. count (λ b. b == a) xs) kept.processes_same, f.listed);
        not_idle = λ e. f.not_idle (e ∙ ap (λ c. c.idle_process) kept.cpu_same);
      }

  -- It is never the process that is picked.
  pub not-Picked :
      (k : Kernel policy) (a : ℕ) (picked : ℕ × Kernel policy)
      → Picked policy k picked
      → Forgotten k a
      → (picked.0 == a) ≡ false
  not-Picked k a picked d f =
      let g = Kept-Forgotten k picked.1 a d.kept f in
      elim (Bool-cases (picked.0 == a)) [
        | inr e ↦ e
        | inl e ↦
            let same = (==_iff picked.0 a).0 e in
            elim d.runnable [
              | inl idle ↦ absurd (f.not_idle (sym same ∙ idle))
              | inr ready ↦
                  let moved : is_ready (picked.1.process_at a) ≡ true =
                    sym (ap (λ b. is_ready (picked.1.process_at b)) same) ∙ ready in
                  ground (arith, moved, g.asleep)
            ]
      ]

  pub activate_process-Forgotten :
      (k : Kernel policy) (a b now : ℕ)
      → (b == a) ≡ false
      → Forgotten k a
      → Forgotten (activate_process policy k b now) a
  unfolding activate_process
  activate_process-Forgotten k a b now ne f = record {
    asleep = rw ne f.asleep;
    not_in_heap = f.not_in_heap;
    listed = f.listed;
    not_idle = f.not_idle;
  }

  pub enqueue_if_runnable-Forgotten :
      (k : Kernel policy) (a b : ℕ) → Forgotten k a → Forgotten (enqueue_if_runnable policy k b) a
  unfolding enqueue_if_runnable
  enqueue_if_runnable-Forgotten k a b f = elim (Bool-cases (b == k.cpu.idle_process)) [
    | inl e ↦ rw e f
    | inr e ↦ elim (Bool-cases (is_ready (k.process_at b))) [
      | inl r ↦
          rw (e, r)
            (record {
              asleep = f.asleep;
              not_in_heap = f.not_in_heap;
              listed = f.listed;
              not_idle = f.not_idle;
            })
      | inr r ↦ rw (e, r) f
    ]
  ]

  -- Picking a process and running it.
  pub picked-Forgotten :
      (k : Kernel policy) (a now_wake now_resume : ℕ)
      → Queues policy k
      → Forgotten k a
      → Forgotten
          (activate_process policy
            (pick_next_process policy k now_wake).1
            (pick_next_process policy k now_wake).0
            now_resume)
          a
  picked-Forgotten k a now_wake now_resume v f =
      let d = pick_next_process-Picked policy k now_wake v in
      let (next, k') = pick_next_process policy k now_wake in
      activate_process-Forgotten k' a next now_resume (not-Picked k a (next, k') d f)
        (Kept-Forgotten k k' a d.kept f)
