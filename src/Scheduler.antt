-- ===== src/Scheduler.antt =====
-- src/kernel/lib/scheduler: the policy (its interface and the round robin) and the mechanism, which
-- works with any policy that keeps the interface's laws.
pub mod Policy
pub mod RoundRobin
pub mod Kernel
pub mod Waking
pub mod Switching
pub mod Yielding
pub mod Invariant
mod Tests
pub mod Steps
pub mod Sleepers
pub mod Children
pub mod Lost
