-- ===== src/Scheduler/Children.antt =====
-- `find_child` of src/kernel/lib/scheduler/mechanism/scheduler_mechanism.cpp, and what `wait` makes of
-- its answer.
use hltos.Base.{
  ℕ, ◌≤◌, ◌≡◌, refl, ap, ◌∙◌, Bool, true, false, ◌&&◌, Option, none, some, List, [], ◌∷◌, arith,
  ◌==◌, ==_iff, count, count_mono, None, Bool-cases, inl, inr, not,
}
use hltos.Base.Int.{ℤ}
use hltos.Process.{is_zombie, is_dead, wait_for_child}
use hltos.Scheduler.Policy.{Policy}
use hltos.Scheduler.Kernel.{Kernel, set_process}
use hltos.Scheduler.Switching.{
  is_match, find_child, find_child_loop, activate_process, pick_next_process,
}
use hltos.Scheduler.Yielding.{switched, yield_to_child}

-- A test that is false on the whole list is false at a member.
unless :
    (t : ℕ → Bool) (b : ℕ) (xs : List ℕ)
    → None t xs
    → 1 ≤ count (λ c. c == b) xs
    → (s : Bool) → (s ≡ true → t b ≡ true)
    → s ≡ false
unless t b xs n l false h = refl
unless t b xs n l true h = absurd (omega (arith, count_mono (λ c. c == b) t same xs, n, l))
  where
    same : (c : ℕ) → (c == b) ≡ true → t c ≡ true
    same c e = ap t ((==_iff c b).0 e) ∙ h refl

module _ (policy : Policy) where
  module _ (k : Kernel policy) (parent : ℕ) (pid : ℤ) where
    abbrev is_child : ℕ → Bool
    is_child a = is_match policy k parent pid (k.process_at a)

    abbrev is_zombie_child : ℕ → Bool
    is_zombie_child a = is_child a && is_zombie (k.process_at a)

    -- What the loop answers for the processes `xs`, by its answer so far.
    data LoopAnswer (xs : List ℕ) : Option ℕ → Option ℕ → Type 0 where
      nothing : None is_child xs → LoopAnswer xs none none
      before : (b : ℕ) → None is_zombie_child xs → LoopAnswer xs (some b) (some b)
      live_here :
          (b : ℕ)
          → None is_zombie_child xs
          → is_child b ≡ true
          → 1 ≤ count (λ c. c == b) xs
          → LoopAnswer xs none (some b)
      zombie_here :
          (first : Option ℕ) (b : ℕ)
          → is_zombie_child b ≡ true
          → 1 ≤ count (λ c. c == b) xs
          → LoopAnswer xs first (some b)

    skipped :
        (a : ℕ) (xs : List ℕ) (first r : Option ℕ)
        → is_child a ≡ false
        → LoopAnswer xs first r
        → LoopAnswer (a ∷ xs) first r
    skipped a xs _ _ h (nothing n) = nothing (ground (arith, h, n))
    skipped a xs _ _ h (before b n) = before b (ground (arith, h, n))
    skipped a xs _ _ h (live_here b n m l) =
        live_here b (ground (arith, h, n)) m (ground (arith, l))
    skipped a xs _ _ h (zombie_here first b z l) = zombie_here first b z (ground (arith, l))

    kept_first :
        (a b : ℕ) (xs : List ℕ) (r : Option ℕ)
        → is_zombie (k.process_at a) ≡ false
        → LoopAnswer xs (some b) r
        → LoopAnswer (a ∷ xs) (some b) r
    kept_first a b xs _ h (before _ n) = before b (ground (arith, h, n))
    kept_first a b xs _ h (zombie_here _ c z l) = zombie_here (some b) c z (ground (arith, l))

    new_first :
        (a : ℕ) (xs : List ℕ) (r : Option ℕ)
        → is_child a ≡ true
        → is_zombie (k.process_at a) ≡ false
        → LoopAnswer xs (some a) r
        → LoopAnswer (a ∷ xs) none r
    new_first a xs _ m h (before _ n) =
        let self : (a == a) ≡ true = (==_iff a a).1 refl in
        live_here a (ground (arith, h, n)) m (ground (arith, self))
    new_first a xs _ m h (zombie_here _ c z l) = zombie_here none c z (ground (arith, l))

    other_child :
        (a : ℕ) (xs : List ℕ) (first : Option ℕ)
        → is_child a ≡ true
        → is_zombie (k.process_at a) ≡ false
        → ((f : Option ℕ) → LoopAnswer xs f (find_child_loop policy k parent pid xs f))
        → LoopAnswer (a ∷ xs) first (
            find_child_loop policy k parent pid xs (elim first [ none ↦ some a | some b ↦ some b ]))
    other_child a xs none e z r = new_first a xs _ e z (r (some a))
    other_child a xs (some b) e z r = kept_first a b xs _ z (r (some b))

    find_child_loop-LoopAnswer :
        (xs : List ℕ) (first : Option ℕ)
        → LoopAnswer xs first (find_child_loop policy k parent pid xs first)
    unfolding find_child_loop
    find_child_loop-LoopAnswer [] none = nothing refl
    find_child_loop-LoopAnswer [] (some b) = before b refl
    find_child_loop-LoopAnswer (a ∷ xs) first =
        let self : (a == a) ≡ true = (==_iff a a).1 refl in
        elim (Bool-cases (is_child a)) [
          | inr e ↦ rw e (skipped a xs first _ e (find_child_loop-LoopAnswer xs first))
          | inl e ↦ elim (Bool-cases (is_zombie (k.process_at a))) [
            | inl z ↦ rw (e, z) (zombie_here first a (ground (arith, e, z)) (ground (arith, self)))
            | inr z ↦ rw (e, z) (other_child a xs first e z (λ f. find_child_loop-LoopAnswer xs f))
          ]
        ]

    -- The three answers of `find_child`.
    pub data ChildAnswer : Option ℕ → Type 0 where
      childless : None is_child k.processes → ChildAnswer none
      live_child :
          (b : ℕ)
          → is_child b ≡ true
          → 1 ≤ count (λ c. c == b) k.processes
          → None is_zombie_child k.processes
          → ChildAnswer (some b)
      zombie_child :
          (b : ℕ)
          → is_zombie_child b ≡ true
          → 1 ≤ count (λ c. c == b) k.processes
          → ChildAnswer (some b)

    -- `find_child` answers a process of the list that is a zombie child of the parent with the wanted
    -- process id, if there is one; else a child with that id that is no zombie, if there is one; and
    -- `nullptr` only if the parent has no such child.
    pub find_child-ChildAnswer : ChildAnswer (find_child policy k parent pid)
    unfolding find_child
    find_child-ChildAnswer = answer _ (find_child_loop-LoopAnswer k.processes none)
      where
        answer : (r : Option ℕ) → LoopAnswer k.processes none r → ChildAnswer r
        answer _ (nothing n) = childless n
        answer _ (live_here b n m l) = live_child b m l n
        answer _ (zombie_here _ b z l) = zombie_child b z l

  dead_answer :
      (k : Kernel policy) (parent : ℕ) (pid : ℤ) (r : Option ℕ)
      → 1 ≤ count (λ a. is_child k parent pid a) k.processes
      → None (λ a. is_child k parent pid a && not (is_dead (k.process_at a))) k.processes
      → ChildAnswer k parent pid r
      → (b : ℕ) × (r ≡ some b) × (is_zombie (k.process_at b) ≡ false)
  dead_answer k parent pid _ some_child all_dead (childless n) =
      absurd (omega (arith, n, some_child))
  dead_answer k parent pid _ some_child all_dead (live_child b m l n) = (
    b,
    refl,
    unless (λ c. is_zombie_child k parent pid c) b k.processes n l (is_zombie (k.process_at b))
        (λ z. rw (m, z) refl),
  )
  dead_answer k parent pid _ some_child all_dead (zombie_child b z l) =
      let live : ℕ → Bool = λ c. is_child k parent pid c && not (is_dead (k.process_at c)) in
      absurd (ground (arith, unless live b k.processes all_dead l true (λ _. ground (arith, z))))

  -- If some process of the list is a child with the wanted id, and every such child is dead already,
  -- `yield_to_child` does not answer `-ECHILD`: the parent gives up the CPU to wait.
  pub yield_to_child-dead :
      (k : Kernel policy) (pid : ℤ) (now_wake now_resume : ℕ)
      → 1 ≤ count (λ a. is_child k k.cpu.process pid a) k.processes
      → None (λ a. is_child k k.cpu.process pid a && not (is_dead (k.process_at a))) k.processes
      → (k' : Kernel policy) × (yield_to_child policy k pid now_wake now_resume ≡ switched k')
  unfolding yield_to_child
  yield_to_child-dead k pid now_wake now_resume some_child all_dead =
      let (b, e, z) =
        dead_answer k k.cpu.process pid _ some_child all_dead
          (find_child-ChildAnswer k k.cpu.process pid) in
      let parent = k.cpu.process in
      let waiting = set_process policy k parent (wait_for_child (k.process_at parent) pid) in
      let (next, k') = pick_next_process policy waiting now_wake in
      (activate_process policy k' next now_resume, rw (e, yield_to_child, z) refl)
