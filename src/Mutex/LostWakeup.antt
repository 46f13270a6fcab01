-- ===== src/Mutex/LostWakeup.antt =====
-- A wake-up of kmutex.cpp that comes too early, between `exchange` and `yield_mutex`.
use hltos.Base.{
  ℕ, ◌≡◌, ◌≢◌, refl, sym, ap, ◌∙◌, Bool, true, false, not, ◌&&◌, if◌then◌else◌, List, [], ◌∷◌,
  arith, ◌==◌, Bool-cases, inl, inr,
}
use mathlib.Core.Path.{subst}
use hltos.Mutex.{
  Progress, outside, at_exchange, at_yield, waiting, holding, at_wake, Mutex, new_mutex, move,
  woken, exchange, wake_waiting, step_at, step, run_order,
}

move-same : (place : ℕ → Progress) (i : ℕ) (p : Progress) → move place i p i ≡ p
unfolding move
move-same place i p = let same : (i == i) ≡ true = ground arith in rw same refl

move-other : (place : ℕ → Progress) (i j : ℕ) (p : Progress) → j ≢ i → move place i p j ≡ place j
unfolding move
move-other place i j p other = let off : (j == i) ≡ false = ground (arith, other) in rw off refl

-- Where two threads are, while all others are outside, and the value.
record Stage (m : Mutex) (i j : ℕ) (p q : Progress) (v : ℕ) : Type 0 where
  at_i : m.place i ≡ p
  at_j : m.place j ≡ q
  val : m.value ≡ v
  rest : (k : ℕ) → k ≢ i → k ≢ j → m.place k ≡ outside

swap : (m : Mutex) (i j : ℕ) (p q : Progress) (v : ℕ) → Stage m i j p q v → Stage m j i q p v
swap m i j p q v s = record {
  at_i = s.at_j;
  at_j = s.at_i;
  val = s.val;
  rest = λ k a b. s.rest k b a;
}

-- A step of the first thread that moves it and sets the value.
go :
    (m : Mutex) (i j : ℕ) (p q p' : Progress) (v v' : ℕ)
    → i ≢ j
    → Stage m i j p q v
    → step_at p m i ≡ record { value = v'; place = move m.place i p' }
    → Stage (step m i) i j p' q v'
go m i j p q p' v v' other s e =
    subst (λ n. Stage n i j p' q v') (sym (ap (λ x. step_at x m i) s.at_i ∙ e))
      (record {
        at_i = move-same m.place i p';
        at_j = move-other m.place i j p' (λ x. other (sym x)) ∙ s.at_j;
        val = refl;
        rest = λ k a b. move-other m.place i k p' a ∙ s.rest k a b;
      })

-- The wake-up of a thread that does not wait yet.
wakes_nobody :
    (m : Mutex) (i j : ℕ) (v : ℕ)
    → i ≢ j
    → Stage m i j at_wake at_yield v
    → Stage (step m i) i j outside at_yield v
unfolding step_at wake_waiting
wakes_nobody m i j v other s =
    let places = λ (k : ℕ). woken (m.place k) in
    subst (λ n. Stage n i j outside at_yield v) (sym (ap (λ x. step_at x m i) s.at_i))
      (record {
        at_i = move-same places i outside;
        at_j = move-other places i j outside (λ x. other (sym x)) ∙ ap woken s.at_j;
        val = s.val;
        rest = λ k a b. move-other places i k outside a ∙ ap woken (s.rest k a b);
      })

exchange_free :
    (m : Mutex) (i : ℕ)
    → m.value ≡ 1
    → step_at at_exchange m i ≡ record { value = 0; place = move m.place i holding }
unfolding step_at exchange
exchange_free m i e = rw e refl

exchange_taken :
    (m : Mutex) (i : ℕ)
    → m.value ≡ 0
    → step_at at_exchange m i ≡ record { value = 0; place = move m.place i at_yield }
unfolding step_at exchange
exchange_taken m i e = rw e refl

-- Both call `lock`, `i` gets it and `j` misses it, `i` unlocks and wakes, and `j` blocks.
abbrev pub unlucky : ℕ → ℕ → List ℕ
unlucky i j = i ∷ i ∷ j ∷ j ∷ i ∷ i ∷ j ∷ []

unlucky-Stage : (i j : ℕ) → i ≢ j → Stage (run_order new_mutex (unlucky i j)) i j outside waiting 1
unfolding run_order step_at
unlucky-Stage i j other =
    let back = λ (e : j ≡ i). other (sym e) in
    let m0 = new_mutex in
    let s0 : Stage m0 i j outside outside 1 = record {
      at_i = refl;
      at_j = refl;
      val = refl;
      rest = λ k a b. refl;
    } in
    let m1 = step m0 i in
    let s1 = go m0 i j outside outside at_exchange 1 1 other s0 refl in
    let m2 = step m1 i in
    let s2 = go m1 i j at_exchange outside holding 1 0 other s1 (exchange_free m1 i s1.val) in
    let m3 = step m2 j in
    let s3 =
      go m2 j i outside holding at_exchange 0 0 back (swap m2 i j holding outside 0 s2)
        (ap (λ v. record { value = v; place = move m2.place j at_exchange }) s2.val) in
    let m4 = step m3 j in
    let s4 = go m3 j i at_exchange holding at_yield 0 0 back s3 (exchange_taken m3 j s3.val) in
    let m5 = step m4 i in
    let s5 =
      go m4 i j holding at_yield at_wake 0 1 other (swap m4 j i at_yield holding 0 s4) refl in
    let m6 = step m5 i in
    let s6 = wakes_nobody m5 i j 1 other s5 in
    let s7 =
      go m6 j i at_yield outside waiting 1 1 back (swap m6 i j outside at_yield 1 s6)
        (ap (λ v. record { value = v; place = move m6.place j waiting }) s6.val) in
    swap (step m6 j) j i waiting outside 1 s7

-- No step of the order is a call of `wake_mutex`.
abbrev pub wakes : Progress → Bool
wakes outside = false
wakes at_exchange = false
wakes at_yield = false
wakes waiting = false
wakes holding = false
wakes at_wake = true

abbrev pub no_wake : Mutex → List ℕ → Bool
no_wake m [] = true
no_wake m (k ∷ order) = not (wakes (m.place k)) && no_wake (step m k) order

-- The step of a thread that is at another place than `j` leaves `j` where it is.
moves_other :
    (m : Mutex) (j k : ℕ) (q : Progress)
    → m.place j ≡ waiting
    → m.place k ≢ waiting
    → move m.place k q j ≡ waiting
moves_other m j k q e away = move-other m.place k j q (λ same. away (ap m.place (sym same) ∙ e)) ∙ e

keeps_waiting :
    (p : Progress) (m : Mutex) (j k : ℕ)
    → m.place k ≡ p
    → m.place j ≡ waiting
    → wakes p ≡ false
    → (step_at p m k).place j ≡ waiting
unfolding step_at exchange
keeps_waiting outside m j k at e quiet = moves_other m j k at_exchange e (λ w. cc)
keeps_waiting at_exchange m j k at e quiet =
    moves_other m j k (if m.value == 1 then holding else at_yield) e (λ w. cc)
keeps_waiting at_yield m j k at e quiet = moves_other m j k waiting e (λ w. cc)
keeps_waiting waiting m j k at e quiet = e
keeps_waiting holding m j k at e quiet = moves_other m j k at_wake e (λ w. cc)
keeps_waiting at_wake m j k at e quiet = cc

stays :
    (order : List ℕ) (m : Mutex) (j : ℕ)
    → m.place j ≡ waiting
    → no_wake m order ≡ true
    → (run_order m order).place j ≡ waiting
unfolding run_order
stays [] m j e quiet = e
stays (k ∷ order) m j e quiet =
    stays order (step m k) j (keeps_waiting (m.place k) m j k refl e (ground (arith, quiet)))
      (ground (arith, quiet))

-- The wake-up is lost: after these steps of two threads `j` waits on a mutex that is free, all other
-- threads are outside, and in any later order of steps `j` goes on waiting as long as no thread calls
-- `wake_mutex` again.
pub lost_wakeup :
    (i j : ℕ) (order : List ℕ)
    → i ≢ j
    → no_wake (run_order new_mutex (unlucky i j)) order ≡ true
    → ((run_order new_mutex (unlucky i j)).value ≡ 1)
      × ((k : ℕ) → k ≢ j → (run_order new_mutex (unlucky i j)).place k ≡ outside)
      × ((run_order new_mutex (unlucky i j)).place j ≡ waiting)
      × ((run_order (run_order new_mutex (unlucky i j)) order).place j ≡ waiting)
lost_wakeup i j order other quiet =
    let s = unlucky-Stage i j other in
    let m = run_order new_mutex (unlucky i j) in
    (s.val, λ k a. alone k a s, s.at_j, stays order m j s.at_j quiet)
  where
    alone :
        (k : ℕ)
        → k ≢ j
        → Stage (run_order new_mutex (unlucky i j)) i j outside waiting 1
        → (run_order new_mutex (unlucky i j)).place k ≡ outside
    alone k a s = elim (Bool-cases (k == i)) [
      | inl e ↦
          let here : k ≡ i = ground (arith, e) in
          ap (run_order new_mutex (unlucky i j)).place here ∙ s.at_i
      | inr e ↦ s.rest k (λ x. ground (arith, e, x)) a
    ]
