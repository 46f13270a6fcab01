-- ===== src/Kstring/Growth.antt =====
-- `ensure_capacity` of kstring.hpp: the loop ends, makes room, and keeps the text. It does not keep the
-- terminating zero.
use hltos.Base.{
  ℕ, zero, suc, ◌*◌, ◌^◌, ◌≤◌, ◌<◌, ◌≡◌, refl, sym, ap, inl, inr, true, false, List, [], ◌∷◌, ◌++◌,
  arith, ltb, ◌==◌, if◌then◌else◌, length, mul64, Bool-cases, ltb→lt, length-append,
}
use mathlib.Core.Path.{subst}
use hltos.Base.Run.{Run, ok}
use hltos.Kstring.{Buffer, Kstring, initial_capacity, grow, grow_loop, ensure_capacity}
use hltos.Kstring.Memory.{Live, Holds, first_bytes_border, copy_at_border, split_at}

-- An allocation has the size that was asked for.
abbrev pub IsFresh : (ℕ → List ℕ) → Type 0
IsFresh fresh = (n : ℕ) → length (fresh n) ≡ n

abbrev double_times : ℕ → ℕ → ℕ
double_times zero c = c
double_times (suc k) c = double_times k (2 * c)

-- The text is kept, with room for more.
abbrev pub Grown : Kstring → List ℕ → ℕ → Run Kstring → Type 0
Grown s text room r =
    (t : Kstring) × (rest : List ℕ) × (r ≡ ok t) × Live t text rest × (room ≤ t.capacity)

grow-steps :
    (fresh : ℕ → List ℕ) (s : Kstring) (text rest front back : List ℕ) (n : ℕ)
    → Live s text rest
    → (if s.capacity == 0 then initial_capacity else mul64 s.capacity 2) ≡ n
    → fresh n ≡ front ++ back
    → length front ≡ length text
    → grow fresh s ≡ ok (record s { buffer = Buffer.live (text ++ back); capacity = n })
unfolding grow
grow-steps fresh s text rest front back n l cap e len =
    let copied =
      copy_at_border (record s { buffer = Buffer.live (front ++ back) }) [] front back text 0 refl
        refl (sym len) in
    rw (l.buffer, cap, first_bytes_border text rest s.size l.size, e, copied) refl

grow-null :
    (fresh : ℕ → List ℕ) (s : Kstring)
    → s.buffer ≡ Buffer.null
    → s.capacity ≡ 0
    → grow fresh s ≡ ok (record s { buffer = Buffer.live (fresh 16); capacity = 16 })
unfolding grow
grow-null fresh s b c = rw (b, c) refl

module _ (fresh : ℕ → List ℕ) (allocates : IsFresh fresh) where
  grow-Live :
      (s : Kstring) (text rest : List ℕ)
      → Live s text rest
      → 0 < s.capacity
      → s.capacity < 2 ^ 63
      → (t : Kstring) × (back : List ℕ) × (grow fresh s ≡ ok t)
        × Live t text back
        × (t.capacity ≡ 2 * s.capacity)
  grow-Live s text rest l some small =
      let cap : (if s.capacity == 0 then initial_capacity else mul64 s.capacity 2)
          ≡ 2 * s.capacity =
        ground (arith, some, small) in
      let size = allocates (2 * s.capacity) in
      let (front, back, e, len) =
        split_at (length text) (fresh (2 * s.capacity)) (omega (arith, size, l.capacity)) in
      (
        record s { buffer = Buffer.live (text ++ back); capacity = 2 * s.capacity },
        back,
        grow-steps fresh s text rest front back (2 * s.capacity) l cap e len,
        record {
          buffer = refl;
          size = l.size;
          capacity = omega (arith, size, ap length e, length-append front back, len);
        },
        refl,
      )

  loop_done :
      (fuel : ℕ) (s : Kstring) (text rest : List ℕ) (room : ℕ)
      → Live s text rest
      → ltb s.capacity room ≡ false
      → Grown s text room (grow_loop fresh (suc fuel) s room)
  unfolding grow_loop
  loop_done fuel s text rest room l done = (s, rest, rw done refl, l, ground (arith, done))

  loop_again :
      (fuel : ℕ) (s t : Kstring) (text : List ℕ) (room : ℕ)
      → ltb s.capacity room ≡ true
      → grow fresh s ≡ ok t
      → Grown t text room (grow_loop fresh fuel t room)
      → Grown s text room (grow_loop fresh (suc fuel) s room)
  unfolding grow_loop
  loop_again fuel s t text room more grown (u, rest, e, l, h) = (u, rest, rw (more, grown) e, l, h)

  -- Doubling reaches every size up to 2 ^ 63.
  grow_loop-Live :
      (k : ℕ) (s : Kstring) (text rest : List ℕ) (room : ℕ)
      → Live s text rest
      → 0 < s.capacity
      → room ≤ 2 ^ 63
      → room ≤ double_times k s.capacity
      → Grown s text room (grow_loop fresh (suc k) s room)
  grow_loop-Live zero s text rest room l some small enough =
      loop_done 0 s text rest room l (ground (arith, enough))
  grow_loop-Live (suc k) s text rest room l some small enough =
      elim (Bool-cases (ltb s.capacity room)) [
        | inr done ↦ loop_done (suc k) s text rest room l done
        | inl more ↦
            let below = ltb→lt s.capacity room more in
            next
              (λ t back lt some1 enough1. grow_loop-Live k t text back room lt some1 small enough1)
              (grow-Live s text rest l some (omega (arith, below, small))) more
      ]
    where
      next :
          ((t : Kstring) (back : List ℕ)
            → Live t text back
            → 0 < t.capacity
            → room ≤ double_times k t.capacity
            → Grown t text room (grow_loop fresh (suc k) t room))
          → (t : Kstring) × (back : List ℕ) × (grow fresh s ≡ ok t)
            × Live t text back
            × (t.capacity ≡ 2 * s.capacity)
          → ltb s.capacity room ≡ true
          → Grown s text room (grow_loop fresh (suc (suc k)) s room)
      next later (t, back, grown, lt, doubled) more = loop_again (suc k) s t text room more grown (
          later t back lt (omega (arith, doubled, some))
            (subst (λ c. room ≤ double_times k c) (sym doubled) enough))

  far : (c room : ℕ) → 0 < c → room ≤ 2 ^ 63 → room ≤ double_times 63 c
  far c room some small = omega arith

  -- For room up to 2 ^ 63 the loop ends, with that room and the same text.
  pub ensure_capacity-Live :
      (s : Kstring) (text rest : List ℕ) (room : ℕ)
      → Live s text rest
      → 0 < s.capacity
      → room ≤ 2 ^ 63
      → Grown s text room (ensure_capacity fresh s room)
  unfolding ensure_capacity
  ensure_capacity-Live s text rest room l some small =
      grow_loop-Live 63 s text rest room l some small (far s.capacity room some small)

  pub ensure_capacity-null :
      (s : Kstring) (room : ℕ)
      → s.buffer ≡ Buffer.null
      → s.size ≡ 0
      → s.capacity ≡ 0
      → 0 < room
      → room ≤ 2 ^ 62
      → Grown s [] room (ensure_capacity fresh s room)
  unfolding ensure_capacity
  ensure_capacity-null s room b n c some small =
      loop_again 63 s (record s { buffer = Buffer.live (fresh 16); capacity = 16 }) [] room
        (ground (arith, c, some)) (grow-null fresh s b c)
        (grow_loop-Live 62 (record s { buffer = Buffer.live (fresh 16); capacity = 16 }) []
          (fresh 16) room
          (record { buffer = refl; size = n; capacity = omega (arith, allocates 16) }) (omega arith)
          (omega (arith, small)) (omega (arith, small)))

  -- A string value with room to spare keeps its text.
  pub ensure_capacity-Holds :
      (s : Kstring) (text : List ℕ) (room : ℕ)
      → Holds s text
      → 0 < room
      → room ≤ 2 ^ 62
      → Grown s text room (ensure_capacity fresh s room)
  ensure_capacity-Holds s text room (inl (rest, l)) some small =
      ensure_capacity-Live s text (0 ∷ rest) room l (omega (arith, l.capacity))
        (omega (arith, small))
  ensure_capacity-Holds s text room (inr (b, n, c, e)) some small =
      subst (λ u. Grown s u room (ensure_capacity fresh s room)) (sym e)
        (ensure_capacity-null s room b n c some small)

-- A buffer that is large enough is kept.
pub ensure_capacity-enough :
    (fresh : ℕ → List ℕ) (s : Kstring) (room : ℕ)
    → room ≤ s.capacity
    → ensure_capacity fresh s room ≡ ok s
unfolding ensure_capacity grow_loop
ensure_capacity-enough fresh s room h =
    let done : ltb s.capacity room ≡ false = ground (arith, h) in rw done refl
