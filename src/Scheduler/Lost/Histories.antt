-- ===== src/Scheduler/Lost/Histories.antt =====
-- Forgotten sleepers under the calls of
-- src/kernel/lib/scheduler/mechanism/scheduler_mechanism.cpp.
use mathlib.Core.Path.{subst}
use hltos.Base.{
  ℕ, ◌≡◌, ◌⊎◌, refl, sym, ap, ◌∙◌, Bool, true, false, not, ◌&&◌, List, [], ◌∷◌, arith, ◌==◌, ==_iff,
  if◌then◌else◌, count, count-congr, count-append, Bool-cases, Option-cases, inl, inr,
}
use hltos.Base.Int.{ℤ}
use hltos.Base.Run.{ok, panic, ok-injective}
use hltos.Process.{state_is_sleeping, is_dead, is_zombie, kill, zombify, pause, wake}
use hltos.Scheduler.Policy.{Policy}
use hltos.Scheduler.Kernel.{Kernel, set_process}
use hltos.Scheduler.Waking.{wake_sleepers, wake_parents}
use hltos.Scheduler.Switching.{
  enqueue_if_runnable, pick_next_process, is_preempted, preempt, yield_dead, yield_zombie,
  find_child, reap,
}
use hltos.Scheduler.Yielding.{
  collect, kernel_of, yield_to_child, yield_new_process, add_process, tick,
}
use hltos.Scheduler.Invariant.{set_process-Queues}
use hltos.Scheduler.Invariant.Wakes.{wake_sleepers-Queues, wake_parents-Queues}
use hltos.Scheduler.Invariant.Picks.{Valid, pick_next_process-Picked, woken-Valid}
use hltos.Scheduler.Invariant.Yields.{current_Unqueued}
use hltos.Scheduler.Invariant.Calls.{reap-Valid}
use hltos.Scheduler.Lost.{
  Forgotten, not_current, written-Forgotten, Kept-Forgotten, not-Picked, activate_process-Forgotten,
  enqueue_if_runnable-Forgotten, picked-Forgotten,
}

module _ (policy : Policy) where
  open policy use {contents}

  pub preempt-Forgotten :
      (k : Kernel policy) (a now_check now_wake now_resume : ℕ)
      → Valid policy k
      → Forgotten policy k a
      → Forgotten policy (preempt policy k now_check now_wake now_resume) a
  unfolding preempt
  preempt-Forgotten k a now_check now_wake now_resume v f =
      let current = k.cpu.process in
      let d = pick_next_process-Picked policy k now_wake v.queues in
      let (next, k') = pick_next_process policy k now_wake in
      let g = Kept-Forgotten policy k k' a d.kept f in
      let paused = set_process policy k' current (pause (k'.process_at current)) in
      elim (Bool-cases (k.cpu.preemption_enabled && is_preempted policy k now_check)) [
        | inr e ↦ rw e f
        | inl e ↦ elim (Bool-cases (current == next)) [
          | inl s ↦ rw (e, s) g
          | inr s ↦
              rw (e, s)
                (activate_process-Forgotten policy (enqueue_if_runnable policy paused current) a
                  next now_resume (not-Picked policy k a (next, k') d f)
                  (enqueue_if_runnable-Forgotten policy paused a current
                    (written-Forgotten policy k' a current _ (not_current policy k a v f) g)))
        ]
      ]

  pub tick-Forgotten :
      (k : Kernel policy) (a now now_check now_wake now_resume : ℕ)
      → Valid policy k
      → Forgotten policy k a
      → Forgotten policy (tick policy k now now_check now_wake now_resume) a
  unfolding tick
  tick-Forgotten k a now now_check now_wake now_resume v f =
      let (w, kept) = wake_sleepers-Queues policy k now v.queues in
      let woken = wake_sleepers policy k now in
      elim (Bool-cases k.initialized) [
        | inl e ↦ simp e (
            preempt-Forgotten woken a now_check now_wake now_resume
              (woken-Valid policy k woken v w kept) (Kept-Forgotten policy k woken a kept f))
        | inr e ↦ simp e f
      ]

  pub yield_to_child-Forgotten :
      (k : Kernel policy) (a : ℕ) (child_pid : ℤ) (now_wake now_resume : ℕ)
      → Valid policy k
      → Forgotten policy k a
      → Forgotten policy
          (kernel_of policy (yield_to_child policy k child_pid now_wake now_resume))
          a
  unfolding yield_to_child collect
  yield_to_child-Forgotten k a child_pid now_wake now_resume v f =
      let parent = k.cpu.process in
      let other = not_current policy k a v f in
      elim (Option-cases (find_child policy k parent child_pid)) [
        | inl e ↦ rw (e, yield_to_child) f
        | inr (child, e) ↦ elim (Bool-cases (is_zombie (k.process_at child))) [
          | inl z ↦
              let apart : (child == a) ≡ false = elim (Bool-cases (child == a)) [
                | inr s ↦ s
                | inl s ↦
                    let moved : is_zombie (k.process_at a) ≡ true =
                      sym (ap (λ b. is_zombie (k.process_at b)) ((==_iff child a).0 s)) ∙ z in
                    ground (arith, moved, f.asleep)
              ] in
              let reaped = set_process policy k child (kill (k.process_at child)) in
              rw (e, yield_to_child, z)
                (written-Forgotten policy reaped a parent _ other
                  (written-Forgotten policy k a child _ apart f))
          | inr z ↦
              rw (e, yield_to_child, z)
                (picked-Forgotten policy (set_process policy k parent _) a now_wake now_resume
                  (set_process-Queues policy k parent _ v.queues (current_Unqueued policy k v))
                  (written-Forgotten policy k a parent _ other f))
        ]
      ]

  -- The calls that end in an assertion.
  asserted-Forgotten :
      (l m : Kernel policy) (test : Bool) (a : ℕ)
      → (if test then panic else ok m) ≡ ok l
      → Forgotten policy m a
      → Forgotten policy l a
  asserted-Forgotten l m true a e f = cc
  asserted-Forgotten l m false a e f = subst (λ k. Forgotten policy k a) (ok-injective m l e) f

  pub yield_dead-Forgotten :
      (k l : Kernel policy) (a now_wake now_resume : ℕ)
      → Valid policy k
      → Forgotten policy k a
      → yield_dead policy k now_wake now_resume ≡ ok l
      → Forgotten policy l a
  unfolding yield_dead
  yield_dead-Forgotten k l a now_wake now_resume v f e =
      let current = k.cpu.process in
      let killed = set_process policy k current (kill (k.process_at current)) in
      let w = set_process-Queues policy k current _ v.queues (current_Unqueued policy k v) in
      let g =
        written-Forgotten policy k a current (kill (k.process_at current))
          (not_current policy k a v f) f in
      asserted-Forgotten l _ _ a e (picked-Forgotten policy killed a now_wake now_resume w g)

  pub yield_zombie-Forgotten :
      (k l : Kernel policy) (a now_wake now_resume : ℕ)
      → Valid policy k
      → Forgotten policy k a
      → yield_zombie policy k now_wake now_resume ≡ ok l
      → Forgotten policy l a
  unfolding yield_zombie
  yield_zombie-Forgotten k l a now_wake now_resume v f e =
      let current = k.cpu.process in
      let gone = set_process policy k current (zombify (k.process_at current)) in
      let w = set_process-Queues policy k current _ v.queues (current_Unqueued policy k v) in
      let g =
        written-Forgotten policy k a current (zombify (k.process_at current))
          (not_current policy k a v f) f in
      let (w', kept) = wake_parents-Queues policy gone (k.process_at current).pid w in
      let told = wake_parents policy gone (k.process_at current).pid in
      asserted-Forgotten l _ _ a e (
        picked-Forgotten policy told a now_wake now_resume w'
          (Kept-Forgotten policy gone told a kept g))

  pub yield_new_process-Forgotten :
      (k l : Kernel policy) (a now_wake now_resume : ℕ)
      → Valid policy k
      → Forgotten policy k a
      → yield_new_process policy k now_wake now_resume ≡ ok l
      → Forgotten policy l a
  unfolding yield_new_process
  yield_new_process-Forgotten k l a now_wake now_resume v f e =
      let current = k.cpu.process in
      let d = pick_next_process-Picked policy k now_wake v.queues in
      let (next, k') = pick_next_process policy k now_wake in
      let g = Kept-Forgotten policy k k' a d.kept f in
      let woken = set_process policy k' current (wake (k'.process_at current)) in
      asserted-Forgotten l _ _ a e (
        activate_process-Forgotten policy (enqueue_if_runnable policy woken current) a next
          now_resume (not-Picked policy k a (next, k') d f)
          (enqueue_if_runnable-Forgotten policy woken a current
            (written-Forgotten policy k' a current _ (not_current policy k a v f) g)))

  pub reap-Forgotten :
      (k l : Kernel policy) (a : ℕ)
      → Valid policy k
      → Forgotten policy k a
      → reap policy k ≡ ok l
      → Forgotten policy l a
  reap-Forgotten k l a v f e =
      let (kept, e', _, _, same) = reap-Valid policy k v in
      let agree : (xs : List ℕ)
          → count (λ b. b == a && not (is_dead (k.process_at b))) xs ≡ count (λ b. b == a) xs =
        count-congr (λ b. b == a && not (is_dead (k.process_at b))) (λ b. b == a)
          (λ b. alive b (Bool-cases (b == a))) in
      let g : Forgotten policy (record k { processes = kept }) a = record {
        asleep = f.asleep;
        not_in_heap = f.not_in_heap;
        listed = omega (arith, agree kept, agree k.processes, same (λ b. b == a), f.listed);
        not_idle = f.not_idle;
      } in
      subst (λ m. Forgotten policy m a) (ok-injective _ l (sym e' ∙ e)) g
    where
      alive :
          (b : ℕ)
          → ((b == a) ≡ true) ⊎ ((b == a) ≡ false)
          → (b == a && not (is_dead (k.process_at b))) ≡ (b == a)
      alive b (inr ne) = rw ne refl
      alive b (inl same) =
          let moved : state_is_sleeping (k.process_at b).state ≡ true =
            ap (λ c. state_is_sleeping (k.process_at c).state) ((==_iff b a).0 same) ∙ f.asleep in
          ground (arith, same, moved)

  pub add_process-Forgotten :
      (k : Kernel policy) (a b : ℕ)
      → Forgotten policy k a
      → Forgotten policy (add_process policy k b) a
  unfolding add_process
  add_process-Forgotten k a b f = record {
    asleep = f.asleep;
    not_in_heap = f.not_in_heap;
    listed = ground (arith, count-append (λ c. c == a) k.processes (b ∷ []), f.listed);
    not_idle = f.not_idle;
  }
