-- ===== src/Scheduler/Switching.antt =====
-- Part of src/kernel/lib/scheduler/mechanism/scheduler_mechanism.cpp: which process runs next.
use hltos.Base.{
  ℕ, Bool, false, ◌&&◌, ◌||◌, Option, none, some, List, [], ◌∷◌, ◌==◌, if◌then◌else◌, add64, sub64,
}
use hltos.Base.Int.{ℤ, negsuc, int_eq}
use hltos.Base.Run.{Run, ok, panic, ◌>>=◌}
use hltos.MinHeap.{peak}
use hltos.Process.{Process, is_ready, is_zombie, is_dead, pause, resume, kill, zombify}
use hltos.Scheduler.Policy.{Policy}
use hltos.Scheduler.Kernel.{Kernel, set_process}
use hltos.Scheduler.Waking.{wake_parents, wake_sleepers}

module _ (policy : Policy) where
  open policy use {State, enqueue, should_preempt, pick_next}

  unfoldable pub get_next_sleeper : Kernel policy → Option ℕ
  get_next_sleeper k = if k.initialized then peak k.sleepers else none

  -- `p->parent == nullptr || p->parent->pid != parent->pid`, negated.
  abbrev pub is_child_of : Kernel policy → ℕ → Process → Bool
  is_child_of k parent p = elim p.parent [
    | none ↦ false
    | some q ↦ int_eq (k.process_at q).pid (k.process_at parent).pid
  ]

  -- The processes that `find_child` does not skip.
  abbrev pub is_match : Kernel policy → ℕ → ℤ → Process → Bool
  is_match k parent pid p = (int_eq pid (negsuc 0) || int_eq p.pid pid) && is_child_of k parent p

  unfoldable pub find_child_loop : Kernel policy → ℕ → ℤ → List ℕ → Option ℕ → Option ℕ
  find_child_loop k parent pid [] first_match = first_match
  find_child_loop k parent pid (a ∷ others) first_match =
      let p = k.process_at a in
      let skip = find_child_loop k parent pid others first_match in
      let first : Option ℕ = elim first_match [ none ↦ some a | some b ↦ some b ] in
      let rest = find_child_loop k parent pid others first in
      if is_match k parent pid p then (if is_zombie p then some a else rest) else skip

  unfoldable pub find_child : Kernel policy → ℕ → ℤ → Option ℕ
  find_child k parent pid = find_child_loop k parent pid k.processes none

  unfoldable pub activate_process : Kernel policy → ℕ → ℕ → Kernel policy
  activate_process k a now =
      let p = resume (k.process_at a) now in
      record (set_process policy k a (record p { context_switches = add64 p.context_switches 1 })) {
        cpu = record k.cpu {
          process = a;
          kernel_rsp = p.kernel_rsp;
          pml4 = p.pml4;
          fs_base = p.fs_base;
          kernel_stack = p.kernel_rsp;
        };
      }

  unfoldable pub enqueue_if_runnable : Kernel policy → ℕ → Kernel policy
  enqueue_if_runnable k a =
      if a == k.cpu.idle_process
      then k
      else if is_ready (k.process_at a)
      then record k { queue = enqueue k.queue a }
      else k

  -- The loop of `reap`, with the processes that it keeps. `panic` is the failed assertion that the
  -- reaper does not free itself; the memory of a freed process is not read again.
  unfoldable pub reap_loop : Kernel policy → List ℕ → Run (List ℕ)
  reap_loop k [] = ok []
  reap_loop k (a ∷ others) =
      if is_dead (k.process_at a)
      then (if a == k.cpu.process then panic else reap_loop k others)
      else (reap_loop k others >>= λ kept. ok (a ∷ kept))

  unfoldable pub reap : Kernel policy → Run (Kernel policy)
  reap k = reap_loop k k.processes >>= λ kept. ok (record k { processes = kept })

  -- The process to run next, and the kernel without it in the queue.
  unfoldable pub pick_next_process : Kernel policy → ℕ → ℕ × Kernel policy
  pick_next_process k now =
      let woken = wake_sleepers policy k now in
      elim (pick_next woken.queue) [
        | none ↦ (woken.cpu.idle_process, woken)
        | some (a, queue) ↦ (a, record woken { queue = queue })
      ]

  -- Is the current process to be taken off the CPU? The idle process always is.
  unfoldable pub is_preempted : Kernel policy → ℕ → Bool
  is_preempted k now =
      let current = k.cpu.process in
      current == k.cpu.idle_process
      || should_preempt k.queue current (sub64 now (k.process_at current).quantum_start_ns)

  unfoldable pub preempt : Kernel policy → ℕ → ℕ → ℕ → Kernel policy
  preempt k now_check now_wake now_resume =
      let current = k.cpu.process in
      let (next, k') = pick_next_process k now_wake in
      let paused = set_process policy k' current (pause (k'.process_at current)) in
      let switched = activate_process (enqueue_if_runnable paused current) next now_resume in
      if k.cpu.preemption_enabled && is_preempted k now_check
      then (if current == next then k' else switched)
      else k

  unfoldable pub yield_dead : Kernel policy → ℕ → ℕ → Run (Kernel policy)
  yield_dead k now_wake now_resume =
      let current = k.cpu.process in
      let killed = set_process policy k current (kill (k.process_at current)) in
      let (next, k') = pick_next_process killed now_wake in
      if current == next then panic else ok (activate_process k' next now_resume)

  unfoldable pub yield_zombie : Kernel policy → ℕ → ℕ → Run (Kernel policy)
  yield_zombie k now_wake now_resume =
      let current = k.cpu.process in
      let gone = set_process policy k current (zombify (k.process_at current)) in
      let (next, k') =
        pick_next_process (wake_parents policy gone (k.process_at current).pid) now_wake in
      if current == next then panic else ok (activate_process k' next now_resume)
