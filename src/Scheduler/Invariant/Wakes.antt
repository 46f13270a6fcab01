-- ===== src/Scheduler/Invariant/Wakes.antt =====
-- The queues' invariant under the wake-ups of
-- src/kernel/lib/scheduler/mechanism/scheduler_mechanism.cpp.
use mathlib.Core.Path.{subst}
use hltos.Base.{
  ℕ, zero, suc, ◌≡◌, ◌≢◌, refl, sym, ap, ◌∙◌, Bool, true, false, not, ◌&&◌, List, [], ◌∷◌, arith,
  ◌==◌, ==_iff, ltb, length, count, None, Bool-cases, Option-cases, inl, inr,
}
use hltos.Base.Int.{ℤ}
use hltos.MinHeap.{Node, peak, pop}
use hltos.MinHeap.Order.{IsHeap}
use hltos.MinHeap.Pop.{pop-some}
use hltos.Process.{
  Process, WaitReason, sleep, reason_code, is_ready, is_blocked, is_waiting_for,
  is_waiting_for_child, is_waiting_for_mutex, state_is_sleeping, wake,
}
use hltos.Scheduler.Policy.{Policy}
use hltos.Scheduler.Kernel.{Kernel, set_process}
use hltos.Scheduler.Waking.{
  wake_process, wake_each, wake_first, wake_single, wake_all, wake_parents, wake_mutex, wake_due,
  wake_sleepers,
}
use hltos.Scheduler.Invariant.{
  is_sleep_node, Queues, Unqueued, not_ready_lem, not_asleep_lem, set_process-Queues,
  enqueue-Queues,
}

module _ (policy : Policy) where
  open policy use {enqueue, contents, enqueue_holds}

  -- Neither blocked nor in the heap.
  pub record IsSettled (k : Kernel policy) (a : ℕ) : Type 0 where
    pub not_blocked : is_blocked (k.process_at a) ≡ false
    pub not_asleep : None (λ n. n.value == a) k.sleepers

  pub settled_lem :
      (k : Kernel policy) (a : ℕ)
      → Queues policy k
      → is_blocked (k.process_at a) ≡ false
      → state_is_sleeping (k.process_at a).state ≡ false
      → IsSettled k a
  settled_lem k a v h h' = record { not_blocked = h; not_asleep = not_asleep_lem policy k a v h' }

  -- What a wake-up leaves alone.
  pub record Kept (k k' : Kernel policy) : Type 0 where
    pub cpu_same : k'.cpu ≡ k.cpu
    pub processes_same : k'.processes ≡ k.processes
    pub settled_same : (a : ℕ) → IsSettled k a → k'.process_at a ≡ k.process_at a
    pub settled_awake : (a : ℕ) → IsSettled k a → None (λ n. n.value == a) k'.sleepers

  pub Kept-refl : (k : Kernel policy) → Kept k k
  Kept-refl k = record {
    cpu_same = refl;
    processes_same = refl;
    settled_same = λ a h. refl;
    settled_awake = λ a h. h.not_asleep;
  }

  pub Kept-trans : (k l m : Kernel policy) → Kept k l → Kept l m → Kept k m
  Kept-trans k l m s t =
      let settled : (a : ℕ) → IsSettled k a → IsSettled l a = λ a h. record {
        not_blocked = ap (λ p. is_blocked p) (s.settled_same a h) ∙ h.not_blocked;
        not_asleep = s.settled_awake a h;
      } in
      record {
        cpu_same = t.cpu_same ∙ s.cpu_same;
        processes_same = t.processes_same ∙ s.processes_same;
        settled_same = λ a h. t.settled_same a (settled a h) ∙ s.settled_same a h;
        settled_awake = λ a h. t.settled_awake a (settled a h);
      }

  -- Waking a process that is in no queue.
  pub wake_process-Queues :
      (k : Kernel policy) (a : ℕ)
      → Queues policy k
      → Unqueued policy k a
      → a ≢ k.cpu.idle_process
      → Queues policy (wake_process policy k a)
  unfolding wake_process wake
  wake_process-Queues k a v u ne =
      let woken = set_process policy k a (wake (k.process_at a)) in
      let self : (a == a) ≡ true = (==_iff a a).1 refl in
      enqueue-Queues policy woken a (set_process-Queues policy k a _ v u) (rw self refl) u.not_ready
        ne

  wake_process-Kept :
      (k : Kernel policy) (a : ℕ) → (IsSettled k a → ⊥) → Kept k (wake_process policy k a)
  unfolding wake_process
  wake_process-Kept k a h = record {
    cpu_same = refl;
    processes_same = refl;
    settled_same = λ b s. elim (Bool-cases (a == b)) [
      | inl e ↦ absurd (h (subst (λ c. IsSettled k c) (sym ((==_iff a b).0 e)) s))
      | inr e ↦ rw e refl
    ];
    settled_awake = λ b s. s.not_asleep;
  }

  wake_blocked :
      (k : Kernel policy) (a : ℕ)
      → Queues policy k
      → is_blocked (k.process_at a) ≡ true
      → (a == k.cpu.idle_process) ≡ false
      → Queues policy (wake_process policy k a) × Kept k (wake_process policy k a)
  wake_blocked k a v h ne =
      let not_ready : is_ready (k.process_at a) ≡ false = ground arith in
      let awake : state_is_sleeping (k.process_at a).state ≡ false = ground arith in
      let u : Unqueued policy k a = record {
        not_ready = not_ready_lem policy k a v not_ready;
        not_asleep = not_asleep_lem policy k a v awake;
      } in
      (
        wake_process-Queues k a v u (ground arith),
        wake_process-Kept k a (λ s. cc (h, s.not_blocked)),
      )

  wake_each-Queues :
      (test : Process → Bool) (xs : List ℕ) (k : Kernel policy)
      → Queues policy k
      → None (λ b. b == k.cpu.idle_process) xs
      → Queues policy (wake_each policy test xs k) × Kept k (wake_each policy test xs k)
  unfolding wake_each
  wake_each-Queues test [] k v h = (v, Kept-refl k)
  wake_each-Queues test (a ∷ xs) k v h =
      elim (Bool-cases (is_blocked (k.process_at a) && test (k.process_at a))) [
        | inl e ↦
            let (w, kept) = wake_blocked k a v (ground arith) (ground arith) in
            let (w', kept') =
              wake_each-Queues test xs (wake_process policy k a) w
                (ap (λ c. count (λ b. b == c.idle_process) xs) kept.cpu_same ∙ ground arith) in
            rw e (w', Kept-trans k _ _ kept kept')
        | inr e ↦ rw e (wake_each-Queues test xs k v (ground arith))
      ]

  wake_first-Queues :
      (test : Process → Bool) (xs : List ℕ) (k : Kernel policy)
      → Queues policy k
      → None (λ b. b == k.cpu.idle_process) xs
      → Queues policy (wake_first policy test xs k) × Kept k (wake_first policy test xs k)
  unfolding wake_first
  wake_first-Queues test [] k v h = (v, Kept-refl k)
  wake_first-Queues test (a ∷ xs) k v h =
      elim (Bool-cases (is_blocked (k.process_at a) && test (k.process_at a))) [
        | inl e ↦ rw e (wake_blocked k a v (ground arith) (ground arith))
        | inr e ↦ rw e (wake_first-Queues test xs k v (ground arith))
      ]

  -- Taking a node out of the heap leaves its process in no queue.
  module _ (k : Kernel policy) (n : Node) (rest : List Node) (v : Queues policy k)
      (heap : IsHeap rest)
      (same : (t : Node → Bool) → count t (n ∷ rest) ≡ count t k.sleepers) where
    abbrev shorter : Kernel policy
    shorter = record k { sleepers = rest }

    node_sleeps : is_sleep_node k.process_at n ≡ true
    node_sleeps = ground (arith, same (λ m. not (is_sleep_node k.process_at m)), v.sleep_nodes)

    shorter-Queues : Queues policy shorter
    shorter-Queues = record {
      ready_states = v.ready_states;
      ready_once = v.ready_once;
      sleep_nodes = omega (arith, same (λ m. not (is_sleep_node k.process_at m)), v.sleep_nodes);
      sleep_once = λ a. omega (arith, same (λ m. m.value == a), v.sleep_once a);
      sleep_heap = heap;
      idle_not_ready = v.idle_not_ready;
      idle_not_asleep = omega (arith, same (λ m. m.value == k.cpu.idle_process), v.idle_not_asleep);
      idle_unlisted = v.idle_unlisted;
    }

    shorter-Unqueued : Unqueued policy shorter n.value
    shorter-Unqueued =
        let self : (n.value == n.value) ≡ true = (==_iff n.value n.value).1 refl in
        record {
          not_ready = not_ready_lem policy k n.value v (ground (arith, node_sleeps));
          not_asleep = ground (arith, same (λ m. m.value == n.value), v.sleep_once n.value, self);
        }

    not_idle : n.value ≢ k.cpu.idle_process
    not_idle = ground (arith, same (λ m. m.value == k.cpu.idle_process), v.idle_not_asleep)

    -- Only the node's own process is woken.
    woken-Kept : Kept k (record (wake_process policy shorter n.value) { sleepers = rest })
    unfolding wake_process
    woken-Kept = record {
      cpu_same = refl;
      processes_same = refl;
      settled_same = λ b s. elim (Bool-cases (n.value == b)) [
        | inl e ↦ absurd (ground (arith, same (λ m. m.value == b), s.not_asleep, e))
        | inr e ↦ rw e refl
      ];
      settled_awake = λ b s. ground (arith, same (λ m. m.value == b), s.not_asleep);
    }

    abbrev woken : ℕ → Kernel policy
    woken a = record (wake_process policy k a) { sleepers = rest }

    pub wake_node : (a : ℕ) → n.value ≡ a → Queues policy (woken a) × Kept k (woken a)
    unfolding wake_process
    wake_node a named =
        subst (λ b. Queues policy (woken b) × Kept k (woken b)) named
          (wake_process-Queues shorter n.value shorter-Queues shorter-Unqueued not_idle, woken-Kept)

  wake_due-Queues :
      (rounds : ℕ) (k : Kernel policy) (now : ℕ)
      → Queues policy k
      → Queues policy (wake_due policy rounds k now) × Kept k (wake_due policy rounds k now)
  unfolding wake_due
  wake_due-Queues zero k now v = (v, Kept-refl k)
  wake_due-Queues (suc rounds) k now v = elim (Option-cases (peak k.sleepers)) [
    | inl e ↦ rw (e, wake_due) (v, Kept-refl k)
    | inr (a, e) ↦ elim (Option-cases (pop k.sleepers)) [
      | inl e' ↦ rw (e, wake_due, e') (v, Kept-refl k)
      | inr (rest, e') ↦
          let (n, named, heap, same) = pop-some k.sleepers rest a v.sleep_heap e e' in
          let (w, kept) = wake_node k n rest v heap same a named in
          let (w', kept') =
            wake_due-Queues rounds (record (wake_process policy k a) { sleepers = rest }) now w in
          elim (Bool-cases (ltb now (k.process_at a).wake_time_ns)) [
            | inl wait ↦ rw (e, wake_due, e', wait) (v, Kept-refl k)
            | inr due ↦ rw (e, wake_due, e', due) (w', Kept-trans k _ _ kept kept')
          ]
    ]
  ]

  -- No wake-up breaks the invariant, whatever the reason, child, mutex or time is; each leaves the
  -- CPU, the list of processes, and every process that neither waits nor sleeps alone.
  pub wake_single-Queues :
      (k : Kernel policy) (reason : WaitReason)
      → Queues policy k
      → Queues policy (wake_single policy k reason) × Kept k (wake_single policy k reason)
  unfolding wake_single
  wake_single-Queues k reason v = elim (Bool-cases (reason_code reason == reason_code sleep)) [
    | inl e ↦ rw e (v, Kept-refl k)
    | inr e ↦
        rw e (wake_first-Queues (λ p. is_waiting_for p reason) k.processes k v v.idle_unlisted)
  ]

  pub wake_all-Queues :
      (k : Kernel policy) (reason : WaitReason)
      → Queues policy k
      → Queues policy (wake_all policy k reason) × Kept k (wake_all policy k reason)
  unfolding wake_all
  wake_all-Queues k reason v = elim (Bool-cases (reason_code reason == reason_code sleep)) [
    | inl e ↦ rw e (v, Kept-refl k)
    | inr e ↦ rw e (wake_each-Queues (λ p. is_waiting_for p reason) k.processes k v v.idle_unlisted)
  ]

  pub wake_parents-Queues :
      (k : Kernel policy) (pid : ℤ)
      → Queues policy k
      → Queues policy (wake_parents policy k pid) × Kept k (wake_parents policy k pid)
  unfolding wake_parents
  wake_parents-Queues k pid v =
      wake_each-Queues (λ p. is_waiting_for_child p pid) k.processes k v v.idle_unlisted

  pub wake_mutex-Queues :
      (k : Kernel policy) (m : ℕ)
      → Queues policy k
      → Queues policy (wake_mutex policy k m) × Kept k (wake_mutex policy k m)
  unfolding wake_mutex
  wake_mutex-Queues k m v =
      wake_each-Queues (λ p. is_waiting_for_mutex p m) k.processes k v v.idle_unlisted

  pub wake_sleepers-Queues :
      (k : Kernel policy) (now : ℕ)
      → Queues policy k
      → Queues policy (wake_sleepers policy k now) × Kept k (wake_sleepers policy k now)
  unfolding wake_sleepers
  wake_sleepers-Queues k now v = wake_due-Queues (length k.sleepers) k now v
