-- ===== src/Scheduler/Kernel.antt =====
-- src/kernel/lib/scheduler/mechanism/scheduler_mechanism.cpp. A process is known by its address;
-- `process_at` is the memory that holds the `Process` objects. Each read of the clock is an argument.
-- A context switch is the change of the CPU's current process by `activate_process`: what the caller
-- does next is a later step of that process. The stack pointers that `context_switch` saves, in
-- assembly, are left out, and so are locks: the calls run with interrupts off, one at a time.
use hltos.Base.{ℕ, Bool, List, ◌==◌, if◌then◌else◌}
use hltos.MinHeap.{Node}
use hltos.Process.{Process}
use hltos.Scheduler.Policy.{Policy}

abbrev pub update : (ℕ → Process) → ℕ → Process → ℕ → Process
update memory a p b = if a == b then p else memory b

-- The part of `PerCPU` that the mechanism uses, with the registers that a switch loads.
pub record Cpu : Type 0 where
  pub process : ℕ
  pub idle_process : ℕ
  pub preemption_enabled : Bool
  pub kernel_rsp : ℕ
  pub pml4 : ℕ
  pub fs_base : ℕ
  pub kernel_stack : ℕ

module _ (policy : Policy) where
  open policy use {State, enqueue, should_preempt, pick_next}

  pub record Kernel : Type 0 where
    pub process_at : ℕ → Process
    pub processes : List ℕ
    pub queue : State
    pub sleepers : List Node
    pub cpu : Cpu
    -- `g_scheduler_policy` is not null.
    pub initialized : Bool

  abbrev pub set_process : Kernel → ℕ → Process → Kernel
  set_process k a p = record k { process_at = update k.process_at a p }
