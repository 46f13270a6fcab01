-- ===== src/Process.antt =====
-- The scheduling part of `Process` of src/kernel/include/process/process.hpp and of
-- src/kernel/lib/process/process.cpp: the state of a process and the methods that change it.
-- Pointers are addresses, with `none` for `nullptr`; what the clock answers is an argument.
use hltos.Base.{ℕ, Bool, true, false, ◌&&◌, ◌||◌, Option, none, some, ◌==◌, add64, if◌then◌else◌}
use hltos.Base.Int.{ℤ, negsuc, int_eq}

pub data ProcessState : Type 0 where
  new running ready blocked sleeping dead zombie : ProcessState

-- `no_reason` is NONE.
pub data WaitReason : Type 0 where
  no_reason keyboard sleep framebuffer child_process mutex signal : WaitReason

abbrev pub reason_code : WaitReason → ℕ
reason_code no_reason = 0
reason_code keyboard = 1
reason_code sleep = 2
reason_code framebuffer = 3
reason_code child_process = 4
reason_code mutex = 5
reason_code signal = 6

pub record Process : Type 0 where
  pub pid : ℤ
  pub parent : Option ℕ
  pub state : ProcessState
  pub wait_reason : WaitReason
  pub wait_pid : ℤ
  pub exit_status : ℤ
  pub context_switches : ℕ
  pub wake_time_ns : ℕ
  pub quantum_start_ns : ℕ
  pub wait_mutex : Option ℕ
  pub pml4 : ℕ
  pub kernel_rsp : ℕ
  pub fs_base : ℕ

-- The tests on the state.
abbrev pub state_is_running : ProcessState → Bool
state_is_running running = true
state_is_running _ = false

abbrev pub state_is_ready : ProcessState → Bool
state_is_ready ready = true
state_is_ready new = true
state_is_ready _ = false

abbrev pub state_is_zombie : ProcessState → Bool
state_is_zombie zombie = true
state_is_zombie _ = false

abbrev pub state_is_dead : ProcessState → Bool
state_is_dead dead = true
state_is_dead _ = false

abbrev pub state_is_blocked : ProcessState → Bool
state_is_blocked blocked = true
state_is_blocked _ = false

abbrev pub state_is_sleeping : ProcessState → Bool
state_is_sleeping sleeping = true
state_is_sleeping _ = false

abbrev pub is_running : Process → Bool
is_running p = state_is_running p.state

abbrev pub is_ready : Process → Bool
is_ready p = state_is_ready p.state

abbrev pub is_zombie : Process → Bool
is_zombie p = state_is_zombie p.state

abbrev pub is_dead : Process → Bool
is_dead p = state_is_dead p.state

abbrev pub is_blocked : Process → Bool
is_blocked p = state_is_blocked p.state

abbrev pub is_waiting_for : Process → WaitReason → Bool
is_waiting_for p reason = reason_code p.wait_reason == reason_code reason

abbrev pub is_waiting_for_child : Process → ℤ → Bool
is_waiting_for_child p pid =
    is_waiting_for p child_process && (int_eq p.wait_pid pid || int_eq p.wait_pid (negsuc 0))

-- `wait_mutex != nullptr && wait_mutex == mutex`
abbrev pub is_address : Option ℕ → ℕ → Bool
is_address none m = false
is_address (some n) m = n == m

abbrev pub is_waiting_for_mutex : Process → ℕ → Bool
is_waiting_for_mutex p m = is_waiting_for p mutex && is_address p.wait_mutex m

unfoldable pub wake : Process → Process
wake p = record p {
  state = ready;
  wait_reason = no_reason;
  wait_pid = negsuc 0;
  wait_mutex = none;
  wake_time_ns = 0;
}

unfoldable pub pause : Process → Process
pause p = if is_running p then record p { state = ready } else p

unfoldable pub resume : Process → ℕ → Process
resume p now = record p {
  state = running;
  wait_reason = no_reason;
  wait_pid = negsuc 0;
  wait_mutex = none;
  wake_time_ns = 0;
  quantum_start_ns = now;
}

unfoldable pub kill : Process → Process
kill p = record p { state = dead }

unfoldable pub zombify : Process → Process
zombify p = record p { state = zombie }

-- The state that a process waits in.
abbrev pub waiting_state : WaitReason → ProcessState
waiting_state sleep = sleeping
waiting_state _ = blocked

unfoldable pub wait_for : Process → WaitReason → Process
wait_for p reason = record p { state = waiting_state reason; wait_reason = reason }

unfoldable pub wait_for_child : Process → ℤ → Process
unfolding wait_for
wait_for_child p child_pid = record (wait_for p child_process) { wait_pid = child_pid }

unfoldable pub wait_for_mutex : Process → ℕ → Process
unfolding wait_for
wait_for_mutex p m = record (wait_for p mutex) { wait_mutex = some m }

unfoldable pub sleep_for : Process → ℕ → ℕ → Process
unfolding wait_for
sleep_for p duration_ns now = record (wait_for p sleep) { wake_time_ns = add64 now duration_ns }
