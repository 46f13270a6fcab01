-- ===== src/Algo/Fields.antt =====
-- `split` and `tokenize` against one reference: the fields between the delimiters.
use mathlib.Core.List.{append-nil, append_assoc}
use hltos.Base.{
  ℕ, ◌≡◌, refl, sym, ap, ◌∙◌, ◌⊎◌, true, false, not, ◌||◌, List, [], ◌∷◌, ◌++◌, arith, ◌==◌,
  if◌then◌else◌, is_empty, Bool-cases, ==_iff, inl, inr,
}
use hltos.Algo.{push_part, split_loop, split, tokenize_loop, tokenize}

-- `part` in front of the first field.
abbrev pub extend : List ℕ → List (List ℕ) → List (List ℕ)
extend part [] = part ∷ []
extend part (f ∷ fs) = (part ++ f) ∷ fs

abbrev pub fields : ℕ → List ℕ → List (List ℕ)
fields delim [] = [] ∷ []
fields delim (c ∷ s) = if c == delim then [] ∷ fields delim s else extend (c ∷ []) (fields delim s)

abbrev pub nonempty : List (List ℕ) → List (List ℕ)
nonempty [] = []
nonempty (f ∷ fs) = if is_empty f then nonempty fs else f ∷ nonempty fs

pub fields-cons :
    (delim : ℕ) (s : List ℕ) → (f : List ℕ) × (fs : List (List ℕ)) × (fields delim s ≡ f ∷ fs)
fields-cons delim [] = ([], [], refl)
fields-cons delim (c ∷ s) = elim (Bool-cases (c == delim)) [
  | inl e ↦ ([], fields delim s, rw e)
  | inr e ↦ let (f, fs, h) = fields-cons delim s in (c ∷ f, fs, rw (e, h))
]

extend-extend :
    (part : List ℕ) (c : ℕ) (delim : ℕ) (s : List ℕ)
    → extend (part ++ c ∷ []) (fields delim s) ≡ extend part (extend (c ∷ []) (fields delim s))
extend-extend part c delim s =
    let (f, fs, h) = fields-cons delim s in rw h (ap (λ x. x ∷ fs) (append_assoc part (c ∷ []) f))

extend-nil : (delim : ℕ) (s : List ℕ) → extend [] (fields delim s) ≡ fields delim s
extend-nil delim s = let (f, fs, h) = fields-cons delim s in rw h refl

is_empty-concat : (part : List ℕ) (c : ℕ) → is_empty (part ++ c ∷ []) ≡ false
is_empty-concat [] c = refl
is_empty-concat (p ∷ part) c = refl

push_part-nonempty :
    (part : List ℕ) (result fs : List (List ℕ))
    → push_part part result ++ nonempty fs ≡ result ++ nonempty (part ∷ fs)
unfolding push_part
push_part-nonempty [] result fs = refl
push_part-nonempty (c ∷ part) result fs = append_assoc result ((c ∷ part) ∷ []) (nonempty fs)

split_loop-fields :
    (delim : ℕ) (s part : List ℕ) (result : List (List ℕ))
    → split_loop delim s part result ≡ result ++ nonempty (extend part (fields delim s))
unfolding split_loop
split_loop-fields delim [] part result =
    sym (append-nil (push_part part result))
    ∙ push_part-nonempty part result []
    ∙ ap (λ p. result ++ nonempty (p ∷ [])) (sym (append-nil part))
split_loop-fields delim (c ∷ s) part result = elim (Bool-cases (c == delim)) [
  | inl e ↦
      rw (e, split_loop)
        (split_loop-fields delim s [] (push_part part result)
          ∙ ap (λ f. push_part part result ++ nonempty f) (extend-nil delim s)
          ∙ push_part-nonempty part result (fields delim s)
          ∙ ap (λ p. result ++ nonempty (p ∷ fields delim s)) (sym (append-nil part)))
  | inr e ↦
      rw (e, split_loop)
        (split_loop-fields delim s (part ++ c ∷ []) result
          ∙ ap (λ f. result ++ nonempty f) (extend-extend part c delim s))
]

-- `split` returns the non-empty fields between the delimiters, in order.
pub split-fields : (str : List ℕ) (delim : ℕ) → split str delim ≡ nonempty (fields delim str)
unfolding split
split-fields str delim = split_loop-fields delim str [] [] ∙ ap nonempty (extend-nil delim str)

-- The last byte of `part` and the field that it belongs to: `tokenize` pushes the last part if it
-- is not empty or the text ended in a delimiter.
tokenize_loop-fields :
    (delim : ℕ) (s part : List ℕ) (result : List (List ℕ)) (last : ℕ)
    → (is_empty part ≡ false) ⊎ (last ≡ delim)
    → tokenize_loop delim s part result last ≡ result ++ extend part (fields delim s)
unfolding tokenize_loop
tokenize_loop-fields delim [] part result last h =
    let kept : (not (is_empty part) || last == delim) ≡ true = ground arith in
    rw kept (ap (λ p. result ++ p ∷ []) (sym (append-nil part)))
tokenize_loop-fields delim (c ∷ s) part result last h = elim (Bool-cases (c == delim)) [
  | inl e ↦
      rw (e, tokenize_loop)
        (tokenize_loop-fields delim s [] (result ++ part ∷ []) c (inr ((==_iff c delim).0 e))
          ∙ ap (◌++◌ (result ++ part ∷ [])) (extend-nil delim s)
          ∙ append_assoc result (part ∷ []) (fields delim s)
          ∙ ap (λ p. result ++ p ∷ fields delim s) (sym (append-nil part)))
  | inr e ↦
      rw (e, tokenize_loop)
        (tokenize_loop-fields delim s (part ++ c ∷ []) result c
            (inl (ground (arith, is_empty-concat part c)))
          ∙ ap (◌++◌ result) (extend-extend part c delim s))
]

-- `tokenize` returns every field, the empty ones too, of a text that is not empty.
pub tokenize-fields :
    (c : ℕ) (s : List ℕ) (delim : ℕ) → tokenize (c ∷ s) delim ≡ fields delim (c ∷ s)
unfolding tokenize
tokenize-fields c s delim = elim (Bool-cases (c == delim)) [
  | inl e ↦
      rw (e, tokenize_loop)
        (tokenize_loop-fields delim s [] ([] ∷ []) c (inr ((==_iff c delim).0 e))
          ∙ ap (◌∷◌ []) (extend-nil delim s))
  | inr e ↦ rw (e, tokenize_loop) (tokenize_loop-fields delim s (c ∷ []) [] c (inl refl))
]
