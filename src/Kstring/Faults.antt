-- ===== src/Kstring/Faults.antt =====
-- Uses of memory in kstring.hpp that is not there, and a trim that takes nothing off.
use hltos.Base.{
  ℕ, suc, ◌+◌, ◌^◌, ◌<◌, ◌≡◌, refl, inl, inr, false, List, arith, ltb, ◌==◌, length, Bool-cases,
}
use hltos.Base.Run.{ok, fault}
use hltos.Kstring.{Kstring, ensure_capacity, grow_loop, grow, copy_at, assign_view, trim_back_loop}
use hltos.Kstring.Memory.{Holds, read_border}

module _ (fresh : ℕ → List ℕ) where
  -- Assigning a view to a string with a buffer uses memory that was given back.
  pub assign_view-fault :
      (s : Kstring) (text view : List ℕ)
      → Holds s text
      → 0 < s.capacity
      → length view < 2 ^ 63
      → assign_view fresh s view ≡ fault
  unfolding assign_view ensure_capacity grow_loop grow copy_at
  assign_view-fault s text view (inr (b, n, z, e)) some small = absurd (omega (arith, some, z))
  assign_view-fault s text view (inl (rest, l)) some small =
      elim (Bool-cases (ltb s.capacity (length view + 1))) [
        | inl more ↦ rw (l.buffer, more) refl
        | inr enough ↦ rw (l.buffer, enough) refl
      ]

-- `trim_back` reads the terminating zero first, so it takes nothing off a text.
pub trim_back_loop-end :
    (rounds : ℕ) (s : Kstring) (text : List ℕ) (c b : ℕ)
    → Holds s text
    → 0 < s.capacity
    → 0 < c
    → trim_back_loop (suc rounds) s c b s.size ≡ ok s.size
unfolding trim_back_loop
trim_back_loop-end rounds s text c b (inr (n, z, cap_zero, e)) some nonzero =
    absurd (omega (arith, some, cap_zero))
trim_back_loop-end rounds s text c b (inl (rest, l)) some nonzero =
    let other : (0 == c) ≡ false = ground (arith, nonzero) in
    rw (read_border s text rest 0 s.size l.buffer l.size, other) refl
