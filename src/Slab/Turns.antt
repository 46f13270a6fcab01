-- ===== src/Slab/Turns.antt =====
-- `alloc`, and `kmalloc` and `kfree` in turn, over slab.cpp.
use hltos.Base.{
  ℕ, zero, suc, ◌+◌, ◌%◌, ◌^◌, ◌≤◌, ◌<◌, ◌≡◌, ◌≢◌, ◌⊎◌, refl, sym, ap, ◌∙◌, Bool, true, false, List,
  [], ◌∷◌, arith, ltb, leb, ◌==◌, if◌then◌else◌, ◌&&◌, length, some, get_elem?, Bool-cases, inl,
  inr,
}
use mathlib.Core.Path.{subst}
use hltos.Base.Run.{ok}
use hltos.Slab.{
  SlabHeap, SizeClass, Slab, slab_magic, slab_page, find_free, take_chunk, put_chunk, alloc,
  alloc_from, get_size_class, try_get_slab, is_slab, free, kmalloc, kfree,
}
use hltos.Slab.Chunks.{Chain}

-- The slabs of a class, from a page on.
abbrev pub Linked : SlabHeap → ℕ → List ℕ → Type 0
Linked h p [] = p ≡ 0
Linked h p (a ∷ slabs) = (p ≡ a) × (a ≢ 0) × Linked h (h.slab_at a).next_slab slabs

-- The first of the slabs with a free chunk, 0 if there is none.
abbrev pub first_free : SlabHeap → List ℕ → ℕ
first_free h [] = 0
first_free h (a ∷ slabs) =
    let rest = first_free h slabs in if (h.slab_at a).free_head == 0 then rest else a

pub find_free-first_free :
    (rounds : ℕ) (h : SlabHeap) (p : ℕ) (slabs : List ℕ)
    → Linked h p slabs
    → length slabs ≤ rounds
    → find_free rounds h p ≡ some (first_free h slabs)
unfolding find_free
find_free-first_free zero h p [] e enough = rw e refl
find_free-first_free (suc rounds) h p [] e enough = rw e refl
find_free-first_free zero h p (a ∷ slabs) linked enough = absurd (omega (arith, enough))
find_free-first_free (suc rounds) h p (zero ∷ slabs) (e, there, next) enough = absurd (there refl)
find_free-first_free (suc rounds) h p (suc a ∷ slabs) (e, there, next) enough =
    let ih =
      find_free-first_free rounds h (h.slab_at (suc a)).next_slab slabs next
        (omega (arith, enough)) in
    rw (e, ih) (some_if ((h.slab_at (suc a)).free_head == 0) (first_free h slabs) (suc a))
  where
    some_if : (t : Bool) (x y : ℕ) → (if t then some x else some y) ≡ some (if t then x else y)
    some_if true x y = refl
    some_if false x y = refl

-- What `alloc` does with a slab that has a free chunk.
pub record Taken (h h' : SlabHeap) (a : ℕ) (chunks : List ℕ) : Type 0 where
  pub rest : Chain h'.word_at (h'.slab_at a).free_head chunks
  pub other_slabs : (b : ℕ) → b ≢ a → h'.slab_at b ≡ h.slab_at b
  pub same_words : (b : ℕ) → h'.word_at b ≡ h.word_at b

take_chunk-Taken :
    (h : SlabHeap) (a c : ℕ) (chunks : List ℕ)
    → Chain h.word_at (h.slab_at a).free_head (c ∷ chunks)
    → ((take_chunk h a).1 ≡ c) × Taken h (take_chunk h a).0 a chunks
unfolding take_chunk
take_chunk-Taken h a c chunks (e, there, rest) =
    let same : (a == a) ≡ true = ground arith in
    (
      e,
      record {
        rest = rw (same, e) rest;
        other_slabs = λ b other. let off : (b == a) ≡ false = ground (arith, other) in rw off refl;
        same_words = λ b. refl;
      },
    )

alloc_step :
    (h : SlabHeap) (size i : ℕ) (sc : SizeClass) (a : ℕ)
    → get_size_class size ≡ some i
    → get_elem? h.classes i ≡ some sc
    → find_free sc.num_slabs h sc.first_slab ≡ some (suc a)
    → alloc h size ≡ ok (take_chunk h (suc a))
unfolding alloc alloc_from
alloc_step h size i sc a fits class found = rw fits (rw class (rw found refl))

kfree_step :
    (h : SlabHeap) (addr a : ℕ) (sc : SizeClass)
    → addr ≢ 0
    → try_get_slab h addr ≡ suc a
    → get_elem? h.classes (h.slab_at (suc a)).size_class_index ≡ some sc
    → (((put_chunk h (suc a) addr).slab_at (suc a)).free_chunks == sc.chunks_per_slab
        && ltb 1 sc.num_slabs)
      ≡ false
    → kfree h addr ≡ ok (put_chunk h (suc a) addr)
unfolding kfree free is_slab
kfree_step h addr a sc there slab class kept =
    let here : (addr == 0) ≡ false = ground (arith, there) in
    let found : (suc a == 0) ≡ false = ground arith in
    rw here (rw slab (rw found (rw class (rw kept refl))))

try_get_slab-slab :
    (h : SlabHeap) (addr a : ℕ)
    → addr ≢ 0
    → slab_page addr ≡ a
    → (h.slab_at a).magic ≡ slab_magic
    → try_get_slab h addr ≡ a
unfolding try_get_slab
try_get_slab-slab h addr a there page magic =
    let here : (addr == 0) ≡ false = ground (arith, there) in rw (here, page, magic) refl

-- The first chunk of a slab of the class, which `free` keeps when it gets the chunk back.
pub record Settled (h : SlabHeap) (i : ℕ) (sc : SizeClass) (a c : ℕ) : Type 0 where
  pub class : get_elem? h.classes i ≡ some sc
  pub head : (h.slab_at a).free_head ≡ c
  pub on_page : slab_page c ≡ a
  pub marked : (h.slab_at a).magic ≡ slab_magic
  pub of_class : (h.slab_at a).size_class_index ≡ i
  pub counted : (0 < (h.slab_at a).free_chunks) × ((h.slab_at a).free_chunks < 2 ^ 8)
  pub stays : ((h.slab_at a).free_chunks ≢ sc.chunks_per_slab) ⊎ (sc.num_slabs ≤ 1)

-- Two allocators with the same contents.
pub record SameHeap (h h' : SlabHeap) : Type 0 where
  pub same_classes : h'.classes ≡ h.classes
  pub same_slabs : (b : ℕ) → h'.slab_at b ≡ h.slab_at b
  pub same_words : (b : ℕ) → h'.word_at b ≡ h.word_at b

slab_eq :
    (s : Slab) (c n : ℕ)
    → s.free_head ≡ c
    → n ≡ s.free_chunks
    → record s { free_head = c; free_chunks = n } ≡ s
slab_eq s c n e f = rw (f, ← e) refl

put-take :
    (h : SlabHeap) (i : ℕ) (sc : SizeClass) (a c : ℕ)
    → Settled h i sc a c
    → SameHeap h (put_chunk (take_chunk h a).0 a c)
unfolding put_chunk take_chunk
put-take h i sc a c s =
    let same : (a == a) ≡ true = ground arith in
    record {
      same_classes = refl;
      same_slabs = λ b. elim (Bool-cases (b == a)) [
        | inl e ↦
            let here : b ≡ a = ground (arith, e) in
            rw (e, same)
              (slab_eq (h.slab_at a) c ((((h.slab_at a).free_chunks + 255) % 2 ^ 8 + 1) % 2 ^ 8)
                  s.head (omega (arith, s.counted))
                ∙ ap h.slab_at (sym here))
        | inr e ↦ rw e refl
      ];
      same_words = λ b. elim (Bool-cases (b == c)) [
        | inl e ↦
            let here : b ≡ c = ground (arith, e) in rw (e, same) (ap h.word_at (s.head ∙ sym here))
        | inr e ↦ rw e refl
      ];
    }

-- The count after the chunk comes back is the one before.
counted_again :
    (h : SlabHeap) (i : ℕ) (sc : SizeClass) (a c : ℕ)
    → Settled h i sc a c
    → (((put_chunk (take_chunk h a).0 a c).slab_at a).free_chunks == sc.chunks_per_slab
        && ltb 1 sc.num_slabs)
      ≡ false
counted_again h i sc a c s =
    let again = ap (λ x. x.free_chunks) ((put-take h i sc a c s).same_slabs a) in
    elim s.stays [ inl other ↦ ground (arith, again, other) | inr few ↦ ground (arith, few) ]

taken_header :
    (h : SlabHeap) (a : ℕ)
    → (((take_chunk h a).0.slab_at a).magic ≡ (h.slab_at a).magic)
      × (((take_chunk h a).0.slab_at a).size_class_index ≡ (h.slab_at a).size_class_index)
      × ((take_chunk h a).0.classes ≡ h.classes)
unfolding take_chunk
taken_header h a = let same : (a == a) ≡ true = ground arith in rw same (refl, refl, refl)

kmalloc_step : (h : SlabHeap) (size : ℕ) → 0 < size → size ≤ 1024 → kmalloc h size ≡ alloc h size
unfolding kmalloc
kmalloc_step h size some_bytes small =
    let more : (size == 0) ≡ false = ground (arith, some_bytes) in
    let fits : leb size 1024 ≡ true = ground (arith, small) in rw (more, fits) refl

-- `kmalloc` answers the first chunk of the first slab of the class that has one, whose free list goes on
-- behind it, and changes no other slab; `kfree` of the chunk gives the allocator back, if the slab stays.
pub kfree-kmalloc :
    (h : SlabHeap) (size i : ℕ) (sc : SizeClass) (slabs : List ℕ) (a c : ℕ) (chunks : List ℕ)
    → (0 < size) × (size ≤ 1024) × (get_size_class size ≡ some i)
    → Settled h i sc (suc a) c
    → Linked h sc.first_slab slabs
    → length slabs ≤ sc.num_slabs
    → first_free h slabs ≡ suc a
    → Chain h.word_at (h.slab_at (suc a)).free_head (c ∷ chunks)
    → (taken freed : SlabHeap) × (kmalloc h size ≡ ok (taken, c))
      × Taken h taken (suc a) chunks
      × (kfree taken c ≡ ok freed)
      × SameHeap h freed
kfree-kmalloc h size i sc slabs a c chunks (some_bytes, small, fits) s linked counted first chain =
    let found =
      find_free-first_free sc.num_slabs h sc.first_slab slabs linked counted ∙ ap some first in
    let taken = (take_chunk h (suc a)).0 in
    let (answer, t) = take_chunk-Taken h (suc a) c chunks chain in
    let (e1, e2, e3) = taken_header h (suc a) in
    (
      taken,
      put_chunk taken (suc a) c,
      kmalloc_step h size some_bytes small
          ∙ alloc_step h size i sc a fits s.class found
          ∙ ap (λ x. ok (taken, x)) answer,
      t,
      kfree_step taken c a sc chain.1
          (try_get_slab-slab taken c (suc a) chain.1 s.on_page (e1 ∙ s.marked))
          (subst (λ k. get_elem? taken.classes k ≡ some sc) (sym (e2 ∙ s.of_class))
            (ap (λ l. get_elem? l i) e3 ∙ s.class))
          (counted_again h i sc (suc a) c s),
      put-take h i sc (suc a) c s,
    )
