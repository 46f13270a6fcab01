-- ===== src/Tty/Texts.antt =====
-- A line as the text before and the text behind the cursor, for src/kernel/lib/fs/devfs/dev_tty.cpp.
use hltos.Base.{
  ℕ, zero, suc, ◌≤◌, ◌<◌, ◌≡◌, refl, ap, ◌∙◌, List, [], ◌∷◌, ◌++◌, arith, length, take, drop, init,
}
use hltos.Tty.{Tty, put_in, erase}

-- The text before the cursor and the text behind it.
abbrev pub View : Type 0
View = List ℕ × List ℕ

unfoldable pub view : Tty → View
view t = (take t.buffer_index t.buffer, drop t.buffer_index t.buffer)

abbrev pub type_in : ℕ → View → View
type_in c (before, after) = (before ++ c ∷ [], after)

abbrev pub cut_before : View → View
cut_before (before, after) = (init before, after)

abbrev pub cut_after : View → View
cut_after (before, []) = (before, [])
cut_after (before, c ∷ after) = (before, after)

abbrev pub last : List ℕ → ℕ
last [] = 0
last (c ∷ []) = c
last (c ∷ d ∷ s) = last (d ∷ s)

abbrev pub go_left : View → View
go_left ([], after) = ([], after)
go_left (c ∷ before, after) = (init (c ∷ before), last (c ∷ before) ∷ after)

abbrev pub go_right : View → View
go_right (before, []) = (before, [])
go_right (before, c ∷ after) = (before ++ c ∷ [], after)

abbrev pub go_start : View → View
go_start (before, after) = ([], before ++ after)

abbrev pub go_end : View → View
go_end (before, after) = (before ++ after, [])

abbrev pub cut_end : View → View
cut_end (before, after) = (before, [])

pub take-all : (s : List ℕ) (n : ℕ) → length s ≤ n → take n s ≡ s
take-all [] zero h = refl
take-all [] (suc n) h = refl
take-all (c ∷ s) zero h = absurd (omega (arith, h))
take-all (c ∷ s) (suc n) h = ap (λ t. c ∷ t) (take-all s n (omega (arith, h)))

pub drop-all : (s : List ℕ) (n : ℕ) → length s ≤ n → drop n s ≡ []
drop-all [] zero h = refl
drop-all [] (suc n) h = refl
drop-all (c ∷ s) zero h = absurd (omega (arith, h))
drop-all (c ∷ s) (suc n) h = drop-all s n (omega (arith, h))

pub length-take : (s : List ℕ) (n : ℕ) → length (take n s) ≤ n
length-take s zero = omega arith
length-take [] (suc n) = omega arith
length-take (c ∷ s) (suc n) = omega (arith, length-take s n)

pub take-drop : (s : List ℕ) (n : ℕ) → take n s ++ drop n s ≡ s
take-drop s zero = refl
take-drop [] (suc n) = refl
take-drop (c ∷ s) (suc n) = ap (λ t. c ∷ t) (take-drop s n)

pub put_in-view :
    (s : List ℕ) (i c : ℕ)
    → i ≤ length s
    → (take (suc i) (put_in s i c) ≡ take i s ++ c ∷ []) × (drop (suc i) (put_in s i c) ≡ drop i s)
put_in-view s zero c h = (refl, refl)
put_in-view [] (suc i) c h = absurd (omega (arith, h))
put_in-view (d ∷ s) (suc i) c h =
    let (e, e') = put_in-view s i c (omega (arith, h)) in (ap (λ t. d ∷ t) e, e')

-- Erasing the character behind the first `i`.
pub erase-view :
    (s : List ℕ) (i : ℕ)
    → i < length s
    → (take i (erase s i) ≡ take i s) × (drop i (erase s i) ≡ drop (suc i) s)
erase-view [] i h = absurd (omega (arith, h))
erase-view (c ∷ s) zero h = (refl, refl)
erase-view (c ∷ s) (suc i) h =
    let (e, e') = erase-view s i (omega (arith, h)) in (ap (λ t. c ∷ t) e, e')

pub init-take : (s : List ℕ) (i : ℕ) → i < length s → init (take (suc i) s) ≡ take i s
init-take [] i h = absurd (omega (arith, h))
init-take (c ∷ s) zero h = refl
init-take (c ∷ []) (suc i) h = absurd (omega (arith, h))
init-take (c ∷ d ∷ s) (suc i) h = ap (λ t. c ∷ t) (init-take (d ∷ s) i (omega (arith, h)))

pub step_left :
    (s : List ℕ) (i : ℕ)
    → i < length s
    → go_left (take (suc i) s, drop (suc i) s) ≡ (take i s, drop i s)
step_left [] i h = absurd (omega (arith, h))
step_left (c ∷ s) zero h = refl
step_left (c ∷ []) (suc i) h = absurd (omega (arith, h))
step_left (c ∷ d ∷ s) (suc i) h =
    let e : go_left (d ∷ take i s, drop i s) ≡ (take i (d ∷ s), drop i (d ∷ s)) =
      step_left (d ∷ s) i (omega (arith, h)) in
    ap (λ (v : View). (c ∷ v.0, v.1)) e

pub go_right-cons :
    (c : ℕ) (before after : List ℕ)
    → go_right (c ∷ before, after)
      ≡ (c ∷ (go_right (before, after)).0, (go_right (before, after)).1)
go_right-cons c before [] = refl
go_right-cons c before (d ∷ after) = refl

pub step_right :
    (s : List ℕ) (i : ℕ)
    → i < length s
    → go_right (take i s, drop i s) ≡ (take (suc i) s, drop (suc i) s)
step_right [] i h = absurd (omega (arith, h))
step_right (c ∷ s) zero h = refl
step_right (c ∷ s) (suc i) h =
    go_right-cons c (take i s) (drop i s)
    ∙ ap (λ (v : View). (c ∷ v.0, v.1)) (step_right s i (omega (arith, h)))

pub cut_after-drop :
    (before s : List ℕ) (i : ℕ)
    → i < length s
    → cut_after (before, drop i s) ≡ (before, drop (suc i) s)
cut_after-drop before [] i h = absurd (omega (arith, h))
cut_after-drop before (c ∷ s) zero h = refl
cut_after-drop before (c ∷ s) (suc i) h = cut_after-drop before s i (omega (arith, h))
