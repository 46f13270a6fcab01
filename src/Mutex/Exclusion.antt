-- ===== src/Mutex/Exclusion.antt =====
-- Mutual exclusion of kmutex.cpp.
use hltos.Base.{
  ℕ, ◌≡◌, refl, ap, Bool, true, false, List, [], ◌∷◌, arith, ◌==◌, if◌then◌else◌, Bool-cases, inl,
  inr,
}
use hltos.Mutex.{
  Progress, outside, at_exchange, at_yield, waiting, holding, at_wake, Mutex, new_mutex, move,
  woken, exchange, wake_waiting, step_at, step, run_order,
}

abbrev pub holds : Progress → Bool
holds outside = false
holds at_exchange = false
holds at_yield = false
holds waiting = false
holds holding = true
holds at_wake = false

-- While the value is 1 no thread is in the section, and two threads never are.
pub record Safe (m : Mutex) : Type 0 where
  pub free : m.value ≡ 1 → (i : ℕ) → holds (m.place i) ≡ false
  pub unique : (i j : ℕ) → holds (m.place i) ≡ true → holds (m.place j) ≡ true → i ≡ j

holds-move :
    (place : ℕ → Progress) (i j : ℕ) (p : Progress)
    → holds (move place i p j) ≡ (if j == i then holds p else holds (place j))
unfolding move
holds-move place i j p = elim (Bool-cases (j == i)) [ inl e ↦ rw e refl | inr e ↦ rw e refl ]

holds-woken : (p : Progress) → holds (woken p) ≡ holds p
holds-woken outside = refl
holds-woken at_exchange = refl
holds-woken at_yield = refl
holds-woken waiting = refl
holds-woken holding = refl
holds-woken at_wake = refl

-- A thread moves to a place outside the section, and the others stay in or out.
leaves :
    (m : Mutex) (place : ℕ → Progress) (i v : ℕ) (p : Progress)
    → Safe m
    → ((j : ℕ) → holds (place j) ≡ holds (m.place j))
    → holds p ≡ false
    → (v ≡ 1 → (j : ℕ) → (if j == i then false else holds (m.place j)) ≡ false)
    → Safe (record { value = v; place = move place i p })
leaves m place i v p s same out free =
    let now = λ (j : ℕ). holds-move place i j p in
    record {
      free = λ e j. ground (arith, now j, out, same j, free e j);
      unique = λ j k a b. ground (arith, now j, now k, out, same j, same k, s.unique j k, a, b);
    }

enters :
    (m : Mutex) (i : ℕ)
    → Safe m
    → m.value ≡ 1
    → Safe (record { value = 0; place = move m.place i holding })
enters m i s one =
    let now = λ (j : ℕ). holds-move m.place i j holding in
    record {
      free = λ e j. absurd (omega (arith, e));
      unique = λ j k a b. ground (arith, now j, now k, s.free one j, s.free one k, a, b);
    }

step_at-Safe : (p : Progress) (m : Mutex) (i : ℕ) → m.place i ≡ p → Safe m → Safe (step_at p m i)
unfolding step_at exchange wake_waiting
step_at-Safe outside m i e s =
    leaves m m.place i m.value at_exchange s (λ j. refl) refl (λ v j. ground (arith, s.free v j))
step_at-Safe at_exchange m i e s = elim (Bool-cases (m.value == 1)) [
  | inl one ↦ rw one (enters m i s (ground (arith, one)))
  | inr taken ↦
      rw taken (leaves m m.place i 0 at_yield s (λ j. refl) refl (λ v j. absurd (omega (arith, v))))
]
step_at-Safe at_yield m i e s =
    leaves m m.place i m.value waiting s (λ j. refl) refl (λ v j. ground (arith, s.free v j))
step_at-Safe waiting m i e s = s
step_at-Safe holding m i e s =
    leaves m m.place i 1 at_wake s (λ j. refl) refl
      (λ v j. ground (arith, s.unique j i, ap holds e))
step_at-Safe at_wake m i e s =
    leaves m (λ j. woken (m.place j)) i m.value outside s (λ j. holds-woken (m.place j)) refl
      (λ v j. ground (arith, s.free v j))

run_order-Safe : (m : Mutex) (order : List ℕ) → Safe m → Safe (run_order m order)
unfolding run_order
run_order-Safe m [] s = s
run_order-Safe m (i ∷ order) s =
    run_order-Safe (step m i) order (step_at-Safe (m.place i) m i refl s)

-- In whatever order the threads take their steps, two are never between `lock` and `unlock`.
pub mutual_exclusion :
    (order : List ℕ) (i j : ℕ)
    → holds ((run_order new_mutex order).place i) ≡ true
    → holds ((run_order new_mutex order).place j) ≡ true
    → i ≡ j
mutual_exclusion order =
    (run_order-Safe new_mutex order
      (record { free = λ e i. refl; unique = λ i j a b. absurd (ground (arith, a)) })).unique
