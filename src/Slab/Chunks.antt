-- ===== src/Slab/Chunks.antt =====
-- The free list of a new slab of slab.cpp.
use hltos.Base.{
  ℕ, zero, suc, ◌+◌, ◌-◌, ◌*◌, ◌^◌, ◌≤◌, ◌<◌, ◌≡◌, ◌≢◌, refl, sym, ap, ◌∙◌, true, List, [], ◌∷◌,
  arith, ◌==◌, length, add64,
}
use mathlib.Core.Path.{subst}
use hltos.Slab.{SlabHeap, SizeClass, slab_header, link_chunks, write_word, insert_slab}

-- The chunks that a free list goes through, from its head on.
abbrev pub Chain : (ℕ → ℕ) → ℕ → List ℕ → Type 0
Chain words head [] = head ≡ 0
Chain words head (c ∷ chunks) = (head ≡ c) × (c ≢ 0) × Chain words (words c) chunks

-- So many chunks of a size, one behind the other.
abbrev pub chunks_from : ℕ → ℕ → ℕ → List ℕ
chunks_from zero size first = []
chunks_from (suc n) size first = first ∷ chunks_from n size (first + size)

-- The chunks lie between two addresses.
abbrev pub Within : ℕ → ℕ → ℕ → List ℕ → Type 0
Within low high size [] = low ≤ high
Within low high size (c ∷ chunks) =
    (low ≤ c) × (c + size ≤ high) × Within (c + size) high size chunks

-- The words before the first chunk stay.
link_chunks-before :
    (n size first : ℕ) (words : ℕ → ℕ) (a : ℕ)
    → a < first
    → first + suc n * size < 2 ^ 64
    → link_chunks n size first words a ≡ words a
unfolding link_chunks
link_chunks-before zero size first words a h fits = ground (arith, h)
link_chunks-before (suc n) size first words a h fits =
    let next : add64 first size ≡ first + size = omega (arith, fits) in
    link_chunks-before n size (add64 first size) (write_word words first (add64 first size)) a
      (omega (arith, next, h)) (omega (arith, next, fits))
    ∙ ground (arith, h)

link_chunks-Chain :
    (n size first : ℕ) (words : ℕ → ℕ)
    → 0 < size
    → 0 < first
    → first + suc n * size < 2 ^ 64
    → Chain (link_chunks n size first words) first (chunks_from (suc n) size first)
unfolding link_chunks
link_chunks-Chain zero size first words wide here fits =
    (refl, λ e. omega (arith, e, here), ground arith)
link_chunks-Chain (suc n) size first words wide here fits =
    let next : add64 first size ≡ first + size = omega (arith, fits) in
    let linked = write_word words first (add64 first size) in
    let after = link_chunks n size (add64 first size) linked in
    let itself : linked first ≡ add64 first size = ground arith in
    let kept =
      link_chunks-before n size (add64 first size) linked first (omega (arith, next, wide))
        (omega (arith, next, fits)) in
    let rest =
      link_chunks-Chain n size (add64 first size) linked wide (omega (arith, next, here))
        (omega (arith, next, fits)) in
    (
      refl,
      λ e. omega (arith, e, here),
      subst (λ a. Chain after a (chunks_from (suc n) size (first + size)))
          (sym (kept ∙ itself ∙ next))
          (subst (λ a. Chain after a (chunks_from (suc n) size a)) next rest),
    )

chunks_from-Within :
    (n size first high : ℕ)
    → first + n * size ≤ high
    → Within first high size (chunks_from n size first)
chunks_from-Within zero size first high h = omega (arith, h)
chunks_from-Within (suc n) size first high h = (
  omega arith,
  omega (arith, h),
  chunks_from-Within n size (first + size) high (omega (arith, h)),
)

length-chunks_from : (n size first : ℕ) → length (chunks_from n size first) ≡ n
length-chunks_from zero size first = refl
length-chunks_from (suc n) size first = ap suc (length-chunks_from n size (first + size))

-- The class, and a page that the chunks of the class fit into.
pub record FitsPage (sc : SizeClass) (page : ℕ) : Type 0 where
  pub sized : 0 < sc.size
  pub some_chunks : 0 < sc.chunks_per_slab
  pub inside : slab_header + sc.chunks_per_slab * sc.size ≤ 4096
  pub mapped : (0 < page) × (page + 4096 < 2 ^ 64)

-- The free list of a new slab goes through all chunks, which lie one behind the other between the
-- header and the end of the page.
pub insert_slab-Chain :
    (h : SlabHeap) (sc : SizeClass) (page : ℕ)
    → FitsPage sc page
    → (chunks : List ℕ) × (length chunks ≡ ((insert_slab h sc page).slab_at page).free_chunks)
      × Chain
          (insert_slab h sc page).word_at
          ((insert_slab h sc page).slab_at page).free_head
          chunks
      × Within (page + slab_header) (page + 4096) sc.size chunks
unfolding insert_slab
insert_slab-Chain h sc page f =
    let same : (page == page) ≡ true = ground arith in
    let first : add64 page slab_header ≡ page + slab_header = omega (arith, f.mapped) in
    let all : suc (sc.chunks_per_slab - 1) ≡ sc.chunks_per_slab = omega (arith, f.some_chunks) in
    let bound : slab_header + suc (sc.chunks_per_slab - 1) * sc.size ≤ 4096 =
      subst (λ n. slab_header + n * sc.size ≤ 4096) (sym all) f.inside in
    let made =
      link_chunks-Chain (sc.chunks_per_slab - 1) sc.size (page + slab_header) h.word_at f.sized
        (omega arith) (omega (arith, f.mapped, bound)) in
    (
      chunks_from sc.chunks_per_slab sc.size (page + slab_header),
      rw same (length-chunks_from sc.chunks_per_slab sc.size (page + slab_header)),
      rw (same, first)
          (subst
            (λ n.
              Chain (link_chunks (sc.chunks_per_slab - 1) sc.size (page + slab_header) h.word_at)
                (page + slab_header) (chunks_from n sc.size (page + slab_header)))
            all made),
      chunks_from-Within sc.chunks_per_slab sc.size (page + slab_header) (page + 4096)
          (omega (arith, f.inside)),
    )
