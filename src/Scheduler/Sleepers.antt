-- ===== src/Scheduler/Sleepers.antt =====
-- Whom `wake_sleepers` of src/kernel/lib/scheduler/mechanism/scheduler_mechanism.cpp wakes.
use hltos.Base.{
  ℕ, zero, suc, ◌≤◌, ◌<◌, ◌≡◌, refl, ap, ◌∙◌, Bool, true, not, none, some, List, [], ◌∷◌, arith,
  ltb, leb, ◌==◌, ◌&&◌, ◌+◌, if◌then◌else◌, false, count-agree, length, get_or, count, count-length,
  count_mono, count-get_or, All-get_or, All, Bool-cases, Option-cases, inl, inr,
}
use hltos.MinHeap.{Node, peak, pop, get_key, zero_node}
use hltos.MinHeap.Order.{IsHeap, root_least}
use hltos.MinHeap.Pop.{pop-some, pop-Popped}
use hltos.Process.{Process, wake}
use hltos.Scheduler.Policy.{Policy}
use hltos.Scheduler.Kernel.{Kernel}
use hltos.Scheduler.Waking.{wake_process, wake_due, wake_sleepers}
use hltos.Scheduler.Invariant.{Queues, is_sleep_node}
use hltos.Scheduler.Invariant.Wakes.{wake_node}

woken_twice : (t : Bool) (p : Process) → (if t then wake p else wake (wake p)) ≡ wake p
unfolding wake
woken_twice true p = refl
woken_twice false p = refl

peak-none : (a : List Node) → peak a ≡ none → a ≡ []
unfolding peak
peak-none [] e = refl
peak-none (n ∷ a) e = cc

peak-some :
    (a : List Node) (v : ℕ) → peak a ≡ some v → (0 < length a) × ((get_or a 0 zero_node).value ≡ v)
unfolding peak
peak-some [] v e = cc
peak-some (n ∷ a) v e = (omega arith, cc)

abbrev is_late : ℕ → Node → Bool
is_late now n = ltb now n.key

-- A heap whose first node is not due holds no node that is due.
none_due : (a : List Node) (now : ℕ) → IsHeap a → now < get_key a 0 → All (is_late now) a
unfolding get_key
none_due a now h late =
    All-get_or (is_late now) a zero_node (λ i p. ground (arith, root_least a i h p, late))

module _ (policy : Policy) where
  open policy use {contents, enqueue, enqueue_holds}

  first_late :
      (k : Kernel policy) (a now : ℕ)
      → Queues policy k
      → peak k.sleepers ≡ some a
      → ltb now (k.process_at a).wake_time_ns ≡ true
      → All (is_late now) k.sleepers
  unfolding get_key
  first_late k a now v e wait =
      let (p, named) = peak-some k.sleepers a e in
      let listed =
        count-get_or (λ n. not (is_sleep_node k.process_at n)) k.sleepers 0 zero_node p in
      let first = get_or k.sleepers 0 zero_node in
      let node : is_sleep_node k.process_at first ≡ true = ground (arith, listed, v.sleep_nodes) in
      let time : first.key ≡ (k.process_at first.value).wake_time_ns = ground (arith, node) in
      let wake_time = time ∙ ap (λ b. (k.process_at b).wake_time_ns) named in
      none_due k.sleepers now v.sleep_heap (ground (arith, wake_time, wait))

  -- What a call of `wake_sleepers` that turns `k` into `k'` has done.
  pub record Woken (k k' : Kernel policy) (now : ℕ) : Type 0 where
    -- The sleepers that are left are those that are to wake later.
    pub left :
        (t : Node → Bool) → count t k'.sleepers ≡ count (λ n. t n && ltb now n.key) k.sleepers
    -- Those that are due come into the queue.
    pub queued :
        (t : ℕ → Bool)
        → count t (contents k'.queue)
          ≡ count t (contents k.queue) + count (λ n. t n.value && leb n.key now) k.sleepers
    -- They wake, and no other process changes.
    pub processes :
        (b : ℕ)
        → k'.process_at b ≡ (
            if count (λ n. n.value == b && leb n.key now) k.sleepers == 0
            then k.process_at b
            else wake (k.process_at b))

  nothing_due : (k : Kernel policy) (now : ℕ) → All (is_late now) k.sleepers → Woken k k now
  nothing_due k now late =
      let no_due = λ (t : ℕ → Bool).
        count_mono (λ (n : Node). t n.value && leb n.key now) (λ n. not (is_late now n))
          (λ n e. ground (arith, e)) k.sleepers in
      record {
        left = λ t.
            count-agree (λ n. not (is_late now n)) t (λ n. t n && ltb now n.key)
              (λ n e. ground (arith, e)) k.sleepers late;
        queued = λ t. omega (arith, no_due t, late);
        processes = λ b.
            let same : (count (λ n. n.value == b && leb n.key now) k.sleepers == 0) ≡ true =
              ground (arith, no_due (λ c. c == b), late) in
            rw same refl;
      }

  -- One sleeper that is due is woken, and then the others.
  module _ (k k' : Kernel policy) (a now : ℕ) (n : Node) (rest : List Node)
      (same : (t : Node → Bool) → count t (n ∷ rest) ≡ count t k.sleepers) (named : n.value ≡ a)
      (due : n.key ≤ now)
      (w : Woken (record (wake_process policy k a) { sleepers = rest }) k' now) where
    left_more :
        (t : Node → Bool) → count t k'.sleepers ≡ count (λ m. t m && ltb now m.key) k.sleepers
    left_more t =
        let not_late : ltb now n.key ≡ false = ground (arith, due) in
        ground (arith, w.left t, same (λ m. t m && ltb now m.key), not_late)

    queued_more :
        (t : ℕ → Bool)
        → count t (contents k'.queue)
          ≡ count t (contents k.queue) + count (λ m. t m.value && leb m.key now) k.sleepers
    unfolding wake_process
    queued_more t =
        let now_due : leb n.key now ≡ true = ground (arith, due) in
        ground (
          arith,
          w.queued t,
          enqueue_holds k.queue a t,
          same (λ m. t m.value && leb m.key now),
          now_due,
          ap t named,
        )

    processes_more :
        (b : ℕ)
        → k'.process_at b ≡ (
            if count (λ m. m.value == b && leb m.key now) k.sleepers == 0
            then k.process_at b
            else wake (k.process_at b))
    unfolding wake_process
    processes_more b = elim (Bool-cases (a == b)) [
      | inl e ↦
          let here : a ≡ b = ground (arith, e) in
          let counted : (count (λ m. m.value == b && leb m.key now) k.sleepers == 0) ≡ false =
            ground (arith, same (λ m. m.value == b && leb m.key now), due, named, here) in
          w.processes b
          ∙ rw (e, counted)
              (woken_twice (count (λ m. m.value == b && leb m.key now) rest == 0) (k.process_at a)
                ∙ ap (λ c. wake (k.process_at c)) here)
      | inr e ↦
          let off : (n.value == b) ≡ false = ground (arith, named, e) in
          let counts : count (λ m. m.value == b && leb m.key now) rest
              ≡ count (λ m. m.value == b && leb m.key now) k.sleepers =
            ground (arith, same (λ m. m.value == b && leb m.key now), off) in
          w.processes b ∙ rw (e, counts) refl
    ]

  more :
      (k : Kernel policy) (a now : ℕ) (n : Node) (rest : List Node) {k' : Kernel policy}
      → Queues policy k
      → ((t : Node → Bool) → count t (n ∷ rest) ≡ count t k.sleepers)
      → n.value ≡ a
      → (k.process_at a).wake_time_ns ≤ now
      → Woken (record (wake_process policy k a) { sleepers = rest }) k' now
      → Woken k k' now
  more k a now n rest {k'} v same named time w =
      let sleeps : is_sleep_node k.process_at n ≡ true =
        ground (arith, same (λ m. not (is_sleep_node k.process_at m)), v.sleep_nodes) in
      let key : n.key ≡ (k.process_at n.value).wake_time_ns = ground (arith, sleeps) in
      let due : n.key ≤ now =
        omega (arith, key, ap (λ b. (k.process_at b).wake_time_ns) named, time) in
      record {
        left = left_more k k' a now n rest same named due w;
        queued = queued_more k k' a now n rest same named due w;
        processes = processes_more k k' a now n rest same named due w;
      }

  wake_due-Woken :
      (rounds : ℕ) (k : Kernel policy) (now : ℕ)
      → Queues policy k
      → length k.sleepers ≤ rounds
      → Woken k (wake_due policy rounds k now) now
  unfolding wake_due
  wake_due-Woken zero k now v enough = nothing_due k now (
      omega (
        arith,
        count_mono (λ n. not (is_late now n)) (λ _. true) (λ n e. refl) k.sleepers,
        count-length k.sleepers,
        enough,
      ))
  wake_due-Woken (suc rounds) k now v enough = elim (Option-cases (peak k.sleepers)) [
    | inl e ↦
        rw (e, wake_due)
          (nothing_due k now
            (ap (λ a. count (λ n. not (is_late now n)) a) (peak-none k.sleepers e)))
    | inr (a, e) ↦ elim (Option-cases (pop k.sleepers)) [
      | inl e' ↦
          let (p, _) = peak-some k.sleepers a e in
          let (c, e'', _) = pop-Popped k.sleepers v.sleep_heap p in cc (e', e'')
      | inr (rest, e') ↦
          let (n, named, heap, same) = pop-some k.sleepers rest a v.sleep_heap e e' in
          let (w, _) = wake_node policy k n rest v heap same a named in
          elim (Bool-cases (ltb now (k.process_at a).wake_time_ns)) [
            | inl wait ↦
                rw (e, wake_due, e', wait) (nothing_due k now (first_late k a now v e wait))
            | inr due ↦
                rw (e, wake_due, e', due)
                  (more k a now n rest v same named (ground (arith, due)) (
                    wake_due-Woken rounds (record (wake_process policy k a) { sleepers = rest }) now
                      w
                      (omega (
                        arith,
                        enough,
                        same (λ _. true),
                        count-length k.sleepers,
                        count-length rest,
                      ))))
          ]
    ]
  ]

  -- `wake_sleepers` wakes every sleeper whose time has come, puts it into the queue and takes it out of
  -- the heap; all other sleepers, processes and entries of the queue stay as they are. The rounds of
  -- the loop, one for each sleeper, are enough.
  pub wake_sleepers-Woken :
      (k : Kernel policy) (now : ℕ) → Queues policy k → Woken k (wake_sleepers policy k now) now
  unfolding wake_sleepers
  wake_sleepers-Woken k now v = wake_due-Woken (length k.sleepers) k now v (omega arith)
