-- ===== src/Mutex.antt =====
-- src/kernel/lib/exclusive/kmutex.cpp: the mutex with the threads that call it. Each of `exchange`,
-- `yield_mutex`, `store` and `wake_mutex` is one step of a thread, and the threads take their steps in any
-- order. Of the scheduler only the blocked state is kept: a waiting thread takes no step until it is woken.
pub mod Exclusion
pub mod LostWakeup
mod Tests
use hltos.Base.{ℕ, zero, suc, Bool, true, false, List, [], ◌∷◌, ◌==◌, if◌then◌else◌}

-- Where a thread is: outside, before `exchange`, before `yield_mutex`, blocked, between `lock` and
-- `unlock`, and between `store` and `wake_mutex`.
pub data Progress : Type 0 where
  outside at_exchange at_yield waiting holding at_wake : Progress

pub record Mutex : Type 0 where
  pub value : ℕ
  pub place : ℕ → Progress

-- `kmutex`, and no thread in a call.
abbrev pub new_mutex : Mutex
new_mutex = record { value = 1; place = λ i. outside }

unfoldable pub move : (ℕ → Progress) → ℕ → Progress → ℕ → Progress
move place i p j = if j == i then p else place j

-- A thread that waits goes round its loop again.
abbrev pub woken : Progress → Progress
woken outside = outside
woken at_exchange = at_exchange
woken at_yield = at_yield
woken waiting = at_exchange
woken holding = holding
woken at_wake = at_wake

-- `_lock.exchange(0) == 1`
unfoldable pub exchange : Mutex → ℕ → Mutex
exchange m i = record {
  value = 0;
  place = move m.place i (if m.value == 1 then holding else at_yield);
}

unfoldable pub wake_waiting : Mutex → ℕ → Mutex
wake_waiting m i = record m { place = move (λ j. woken (m.place j)) i outside }

-- The next step of a thread that is at the place.
unfoldable pub step_at : Progress → Mutex → ℕ → Mutex
step_at outside m i = record m { place = move m.place i at_exchange }
step_at at_exchange m i = exchange m i
step_at at_yield m i = record m { place = move m.place i waiting }
step_at waiting m i = m
step_at holding m i = record { value = 1; place = move m.place i at_wake }
step_at at_wake m i = wake_waiting m i

abbrev pub step : Mutex → ℕ → Mutex
step m i = step_at (m.place i) m i

-- The threads take their steps in the order of the list.
unfoldable pub run_order : Mutex → List ℕ → Mutex
run_order m [] = m
run_order m (i ∷ order) = run_order (step m i) order
