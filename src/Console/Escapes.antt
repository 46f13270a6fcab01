-- ===== src/Console/Escapes.antt =====
-- `put` of a text in console.cpp, and the escape sequences of ansi.cpp.
use hltos.Base.{
  ℕ, zero, suc, ◌+◌, ◌^◌, ◌≤◌, ◌<◌, ◌≡◌, refl, ◌∙◌, false, List, [], ◌∷◌, arith, ◌==◌, Bool-cases,
  inl, inr, none, some, length, None,
}
use hltos.Base.Run.{ok}
use hltos.Console.{Console, put}
use hltos.Console.Ansi.{ansi_escape, put_text, parse_ansi_escape, parse_csi, find_code}
use hltos.Console.Puts.{Page, type_char, Refines, put-Refines}

unfoldable pub type_text : Page → List ℕ → Page
type_text p [] = p
type_text p (c ∷ text) = type_text (type_char p c) text

type_char-row : (p : Page) (c : ℕ) → (type_char p c).row ≤ p.row + 1
unfolding type_char
type_char-row p c = elim (Bool-cases (c == 10)) [
  | inl line ↦ rw line (omega arith)
  | inr other ↦ rw other (ground arith)
]

plain_step :
    (depth rounds : ℕ) (k k' : Console) (c : ℕ) (text : List ℕ)
    → (c == ansi_escape) ≡ false
    → put depth k c ≡ ok k'
    → put_text depth (suc rounds) k (c ∷ text) ≡ put_text depth rounds k' text
unfolding put_text
plain_step depth rounds k k' c text plain e = rw (plain, e) refl

-- A text with no escape character is typed on the page, and the loop ends with its last character.
pub put_text-Refines :
    (depth : ℕ) (k : Console) (p : Page) (text : List ℕ)
    → Refines k p
    → None (λ c. c == ansi_escape) text
    → p.row + length text < 2 ^ 32
    → (k' : Console) × (put_text (suc (suc depth)) (suc (length text)) k text ≡ ok (some k'))
      × Refines k' (type_text p text)
unfolding put_text type_text
put_text-Refines depth k p [] r plain small = (k, refl, r)
put_text-Refines depth k p (c ∷ text) r plain small =
    let (k1, e1, r1) = put-Refines depth k p c r (omega (arith, small)) in
    let (k2, e2, r2) =
      put_text-Refines depth k1 (type_char p c) text r1 (ground (arith, plain))
        (omega (arith, small, type_char-row p c)) in
    (
      k2,
      plain_step (suc (suc depth)) (suc (length text)) k k1 c text (ground (arith, plain)) e1 ∙ e2,
      r2,
    )

-- `ESC [` with no code letter behind it: the loop of `put` stays where it is.
pub put_text-unfinished :
    (depth rounds : ℕ) (k : Console) (text : List ℕ)
    → find_code text ≡ none
    → put_text depth rounds k (ansi_escape ∷ 91 ∷ text) ≡ ok none
unfolding put_text parse_ansi_escape parse_csi find_code
put_text-unfinished depth zero k text open_end = refl
put_text-unfinished depth (suc rounds) k text open_end =
    rw open_end (put_text-unfinished depth rounds k text open_end)
