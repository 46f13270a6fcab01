-- ===== src/Scheduler/Invariant.antt =====
-- The invariant of the scheduler's queues, for the functions of
-- src/kernel/lib/scheduler/mechanism/scheduler_mechanism.cpp, with any policy.
pub mod Wakes
pub mod Picks
pub mod Yields
pub mod Calls
use hltos.Base.{
  ℕ, suc, ◌+◌, ◌≤◌, ◌<◌, ◌≡◌, ◌≢◌, refl, sym, ap, ◌∙◌, Bool, true, false, not, ◌&&◌, Option, none,
  some, List, [], ◌∷◌, arith, ◌==◌, ==_iff, if◌then◌else◌, one, count, None, All, SameItems,
  count_mono, count-agree, Bool-cases, inl, inr,
}
use hltos.MinHeap.{Node}
use hltos.MinHeap.Order.{IsHeap}
use hltos.Process.{Process, is_ready, is_running, state_is_sleeping}
use hltos.Scheduler.Policy.{Policy}
use hltos.Scheduler.Kernel.{Kernel, set_process, update}

-- The node names a sleeping process, under the time at which it is to wake.
abbrev pub is_sleep_node : (ℕ → Process) → Node → Bool
is_sleep_node memory n =
    state_is_sleeping (memory n.value).state && n.key == (memory n.value).wake_time_ns

module _ (policy : Policy) where
  open policy use {enqueue, contents, enqueue_holds}

  -- Every process that the policy holds is ready, and is held once; every node of the heap names a
  -- sleeping process under its wake time, each process at most once, in heap order; the idle
  -- process is in neither, and not in the list of processes.
  pub record Queues (k : Kernel policy) : Type 0 where
    pub ready_states : All (λ a. is_ready (k.process_at a)) (contents k.queue)
    pub ready_once : (a : ℕ) → count (λ b. b == a) (contents k.queue) ≤ 1
    pub sleep_nodes : All (is_sleep_node k.process_at) k.sleepers
    pub sleep_once : (a : ℕ) → count (λ n. n.value == a) k.sleepers ≤ 1
    pub sleep_heap : IsHeap k.sleepers
    pub idle_not_ready : None (λ b. b == k.cpu.idle_process) (contents k.queue)
    pub idle_not_asleep : None (λ n. n.value == k.cpu.idle_process) k.sleepers
    pub idle_unlisted : None (λ b. b == k.cpu.idle_process) k.processes

  -- The process is neither held by the policy nor in the heap.
  pub record Unqueued (k : Kernel policy) (a : ℕ) : Type 0 where
    pub not_ready : None (λ b. b == a) (contents k.queue)
    pub not_asleep : None (λ n. n.value == a) k.sleepers

  pub not_ready_lem :
      (k : Kernel policy) (a : ℕ)
      → Queues k
      → is_ready (k.process_at a) ≡ false
      → None (λ b. b == a) (contents k.queue)
  not_ready_lem k a v h = omega (
    arith,
    count_mono (λ b. b == a) (λ b. not (is_ready (k.process_at b))) weaker (contents k.queue),
    v.ready_states,
  )
    where
      weaker : (b : ℕ) → (b == a) ≡ true → not (is_ready (k.process_at b)) ≡ true
      weaker b e = ap (λ c. not (is_ready (k.process_at c))) ((==_iff b a).0 e) ∙ ap not h

  pub not_asleep_lem :
      (k : Kernel policy) (a : ℕ)
      → Queues k
      → state_is_sleeping (k.process_at a).state ≡ false
      → None (λ n. n.value == a) k.sleepers
  not_asleep_lem k a v h = omega (
    arith,
    count_mono (λ n. n.value == a) (λ n. not (is_sleep_node k.process_at n)) weaker k.sleepers,
    v.sleep_nodes,
  )
    where
      weaker : (n : Node) → (n.value == a) ≡ true → not (is_sleep_node k.process_at n) ≡ true
      weaker n e =
          let awake : state_is_sleeping (k.process_at n.value).state ≡ false =
            ap (λ c. state_is_sleeping (k.process_at c).state) ((==_iff n.value a).0 e) ∙ h in
          rw awake refl

  -- A process that is in no queue may be written.
  pub set_process-Queues :
      (k : Kernel policy) (a : ℕ) (p : Process)
      → Queues k
      → Unqueued k a
      → Queues (set_process policy k a p)
  set_process-Queues k a p v u = record {
    ready_states =
        sym (
          count-agree (λ b. b == a) (λ b. not (is_ready (k.process_at b)))
            (λ b. not (is_ready (update k.process_at a p b))) (λ b e. ground (arith, e))
            (contents k.queue) u.not_ready)
        ∙ v.ready_states;
    ready_once = v.ready_once;
    sleep_nodes =
        sym (
          count-agree (λ n. n.value == a) (λ n. not (is_sleep_node k.process_at n))
            (λ n. not (is_sleep_node (update k.process_at a p) n)) (λ n e. ground (arith, e))
            k.sleepers u.not_asleep)
        ∙ v.sleep_nodes;
    sleep_once = v.sleep_once;
    sleep_heap = v.sleep_heap;
    idle_not_ready = v.idle_not_ready;
    idle_not_asleep = v.idle_not_asleep;
    idle_unlisted = v.idle_unlisted;
  }

  -- A ready process that is not held, and is not the idle process, may be enqueued.
  pub enqueue-Queues :
      (k : Kernel policy) (a : ℕ)
      → Queues k
      → is_ready (k.process_at a) ≡ true
      → None (λ b. b == a) (contents k.queue)
      → a ≢ k.cpu.idle_process
      → Queues (record k { queue = enqueue k.queue a })
  enqueue-Queues k a v ready fresh ne =
      let held = enqueue_holds k.queue a in
      record {
        ready_states = ground (arith, held (λ b. not (is_ready (k.process_at b))), v.ready_states);
        ready_once = λ c. ground (arith, held (λ b. b == c), v.ready_once c);
        sleep_nodes = v.sleep_nodes;
        sleep_once = v.sleep_once;
        sleep_heap = v.sleep_heap;
        idle_not_ready = ground (arith, held (λ b. b == k.cpu.idle_process), v.idle_not_ready);
        idle_not_asleep = v.idle_not_asleep;
        idle_unlisted = v.idle_unlisted;
      }
