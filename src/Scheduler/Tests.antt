-- ===== src/Scheduler/Tests.antt =====
-- Runs of scheduler_mechanism.cpp under the round robin, and the theorems at inputs.
use hltos.Base.{
  ℕ, ◌≡◌, ◌≢◌, refl, true, Option, none, some, [], ◌∷◌, ◌++◌, arith, ◌==◌, if◌then◌else◌,
}
use hltos.Base.Int.{ℤ, pos, negsuc}
use hltos.MinHeap.{peak, pop}
use hltos.Process.{
  Process, ProcessState, running, ready, sleeping, dead, zombie, no_reason, state_is_sleeping,
  pause, sleep_for, wait_for,
}
use hltos.Scheduler.RoundRobin.{round_robin}
use hltos.Scheduler.RoundRobin.Order.{enqueued, picked, run, run-fifo}
use hltos.Scheduler.Kernel.{Kernel}
use hltos.Scheduler.Waking.{wake_sleepers, wake_due}
use hltos.Scheduler.Switching.{
  find_child, preempt, is_preempted, pick_next_process, activate_process, enqueue_if_runnable,
  find_child_loop,
}
use hltos.Scheduler.Yielding.{
  yield_to_child, kernel_of, begin_sleep, yield_sleep_ns, switched, tick, collect,
}
use hltos.Scheduler.Invariant.{Unqueued}
use hltos.Scheduler.Invariant.Picks.{Valid}
use hltos.Scheduler.Steps.{start, step, ticked, slept, Steps-Valid}
use hltos.Scheduler.Sleepers.{Woken, wake_sleepers-Woken}
use hltos.Scheduler.Children.{ChildAnswer, find_child-ChildAnswer, yield_to_child-dead}
use hltos.Scheduler.Lost.Interrupted.{interrupted_sleep}

abbrev a_process : ℤ → Option ℕ → ProcessState → ℕ → Process
a_process pid parent state wake_time_ns = record {
  pid = pid;
  parent = parent;
  state = state;
  wait_reason = no_reason;
  wait_pid = negsuc 0;
  exit_status = pos 7;
  context_switches = 0;
  wake_time_ns = wake_time_ns;
  quantum_start_ns = 0;
  wait_mutex = none;
  pml4 = 0;
  kernel_rsp = 0;
  fs_base = 0;
}

-- The idle process at 1, the running one at 2, a ready one at 3, one that sleeps until 50 at 4, and
-- two children of the running one: a dead one at 5 and a zombie at 6.
abbrev memory : ℕ → Process
memory a =
    if a == 1
    then a_process (pos 0) none ready 0
    else if a == 2
    then a_process (pos 1) none running 0
    else if a == 3
    then a_process (pos 2) (some 4) ready 0
    else if a == 4
    then a_process (pos 3) none sleeping 50
    else if a == 5
    then a_process (pos 4) (some 2) dead 0
    else a_process (pos 5) (some 2) zombie 0

abbrev small : Kernel round_robin
small = record {
  process_at = memory;
  processes = 2 ∷ 3 ∷ 4 ∷ 5 ∷ 6 ∷ [];
  queue = 3 ∷ [];
  sleepers = record { key = 50; value = 4 } ∷ [];
  cpu = record {
    process = 2;
    idle_process = 1;
    preemption_enabled = true;
    kernel_rsp = 0;
    pml4 = 0;
    fs_base = 0;
    kernel_stack = 0;
  };
  initialized = true;
}

small-Valid : Valid round_robin small
small-Valid = record {
  queues = record {
    ready_states = refl;
    ready_once = λ a. ground arith;
    sleep_nodes = refl;
    sleep_once = λ a. ground arith;
    sleep_heap = λ c p q. absurd (omega arith);
    idle_not_ready = refl;
    idle_not_asleep = refl;
    idle_unlisted = refl;
  };
  running = refl;
}

busy : small.cpu.process ≢ small.cpu.idle_process
busy = omega arith

-- The timer takes the CPU from 2, and 3 runs.
abbrev after_tick : Kernel round_robin
after_tick = tick round_robin small 10 20_000_000 20 20

after_tick_runs : after_tick.cpu.process ≡ 3
unfolding tick preempt is_preempted pick_next_process wake_sleepers wake_due activate_process
    enqueue_if_runnable peak pop
after_tick_runs = refl

idle_same : after_tick.cpu.idle_process ≡ 1
unfolding tick preempt is_preempted pick_next_process wake_sleepers wake_due activate_process
    enqueue_if_runnable peak pop pause
idle_same = refl

Steps-Valid_example : Valid round_robin (yield_sleep_ns round_robin after_tick 30 70 80 90)
Steps-Valid_example =
    Steps-Valid round_robin small (yield_sleep_ns round_robin after_tick 30 70 80 90) small-Valid (
      step after_tick (yield_sleep_ns round_robin after_tick 30 70 80 90)
        (step small after_tick start (ticked 10 20_000_000 20 20))
        (slept 30 70 80 90 (omega (arith, after_tick_runs, idle_same))))

-- The timer comes after `sleep_for` in process 2.
abbrev cut : Kernel round_robin
cut = preempt round_robin (begin_sleep round_robin small 30 70) 20_000_000 80 90

late : is_preempted round_robin (begin_sleep round_robin small 30 70) 20_000_000 ≡ true
unfolding is_preempted begin_sleep sleep_for wait_for
late = refl

abbrev later : Kernel round_robin
later = tick round_robin cut 1000 1000 1000 1000

interrupted_sleep_example :
    (state_is_sleeping (later.process_at 2).state ≡ true)
    × Unqueued round_robin later 2
    × (later.cpu.process ≢ 2)
interrupted_sleep_example =
    interrupted_sleep round_robin small 30 70 20_000_000 80 90 later small-Valid busy (omega arith)
      refl late (step cut later start (ticked 1000 1000 1000 1000))

wake_sleepers-Woken_example : Woken round_robin small (wake_sleepers round_robin small 60) 60
wake_sleepers-Woken_example = wake_sleepers-Woken round_robin small 60 small-Valid.queues

find_child-ChildAnswer_example :
    ChildAnswer round_robin small 2 (negsuc 0) (find_child round_robin small 2 (negsuc 0))
find_child-ChildAnswer_example = find_child-ChildAnswer round_robin small 2 (negsuc 0)

-- A second wait for the child 5, which is dead.
yield_to_child-dead_example :
    (k' : Kernel round_robin) × (yield_to_child round_robin small (pos 4) 20 20 ≡ switched k')
yield_to_child-dead_example = yield_to_child-dead round_robin small (pos 4) 20 20 (omega arith) refl

run-fifo_example :
    (run (picked ∷ enqueued 9 ∷ picked ∷ []) (3 ∷ 5 ∷ [])).0
      ++ (run (picked ∷ enqueued 9 ∷ picked ∷ []) (3 ∷ 5 ∷ [])).1
    ≡ 3 ∷ 5 ∷ 9 ∷ []
run-fifo_example = run-fifo (picked ∷ enqueued 9 ∷ picked ∷ []) (3 ∷ 5 ∷ [])

collected :
    kernel_of round_robin (yield_to_child round_robin small (negsuc 0) 20 20)
    ≡ collect round_robin small 6 20
unfolding yield_to_child find_child find_child_loop
collected = refl
