-- ===== src/Mutex/Tests.antt =====
-- Where the theorems on kmutex.cpp apply.
use hltos.Base.{ℕ, ◌≡◌, ◌≢◌, refl, arith, [], ◌∷◌}
use hltos.Mutex.{outside, waiting, new_mutex, run_order, step_at, exchange, move, wake_waiting}
use hltos.Mutex.Exclusion.{mutual_exclusion}
use hltos.Mutex.LostWakeup.{unlucky, lost_wakeup}

mutual_exclusion_example : ◌≡◌ {A = ℕ} 3 3
unfolding run_order step_at exchange move
mutual_exclusion_example = mutual_exclusion (3 ∷ 5 ∷ 3 ∷ 5 ∷ []) 3 3 refl refl

-- The thread 3 takes the mutex again, and a fourth one misses it.
lost_wakeup_example :
    ((run_order new_mutex (unlucky 3 5)).value ≡ 1)
    × ((k : ℕ) → k ≢ 5 → (run_order new_mutex (unlucky 3 5)).place k ≡ outside)
    × ((run_order new_mutex (unlucky 3 5)).place 5 ≡ waiting)
    × ((run_order (run_order new_mutex (unlucky 3 5)) (3 ∷ 3 ∷ 5 ∷ 4 ∷ 4 ∷ 3 ∷ [])).place 5
        ≡ waiting)
unfolding run_order step_at exchange move wake_waiting
lost_wakeup_example =
    lost_wakeup 3 5 (3 ∷ 3 ∷ 5 ∷ 4 ∷ 4 ∷ 3 ∷ []) (λ e. absurd (omega (arith, e))) refl
