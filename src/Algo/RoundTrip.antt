-- ===== src/Algo/RoundTrip.antt =====
-- `join` against `split` and `tokenize`.
use mathlib.Core.List.{append_assoc}
use hltos.Base.{
  true, All, ℕ, ◌≡◌, refl, sym, ap, ◌∙◌, false, List, [], ◌∷◌, ◌++◌, arith, ◌==◌, if◌then◌else◌,
  is_empty, init, init-concat, Bool-cases, ==_iff, inl, inr, None,
}
use hltos.Algo.{
  c_str, join_list_loop, join_list, join_loop, join, split, split_loop, push_part, tokenize,
}
use hltos.Algo.Fields.{extend, fields, nonempty, fields-cons, split-fields, tokenize-fields}

-- The parts with one delimiter between neighbours.
abbrev pub glue : ℕ → List (List ℕ) → List ℕ
glue delim [] = []
glue delim (p ∷ []) = p
glue delim (p ∷ q ∷ ps) = p ++ (delim ∷ glue delim (q ∷ ps))

join_loop-glue :
    (delim : ℕ) (p : List ℕ) (ps : List (List ℕ)) (result : List ℕ)
    → join_loop delim (p ∷ ps) result ≡ (result ++ glue delim (p ∷ ps)) ++ delim ∷ []
unfolding join_loop
join_loop-glue delim p [] result = refl
join_loop-glue delim p (q ∷ ps) result =
    join_loop-glue delim q ps ((result ++ p) ++ delim ∷ [])
    ∙ ap (λ r. r ++ delim ∷ [])
        (ap (λ r. r ++ glue delim (q ∷ ps)) (append_assoc result p (delim ∷ []))
          ∙ append_assoc result (p ++ delim ∷ []) (glue delim (q ∷ ps))
          ∙ ap (◌++◌ result) (append_assoc p (delim ∷ []) (glue delim (q ∷ ps))))

drop_delim :
    (r : List ℕ) (delim : ℕ)
    → (let result = r ++ delim ∷ [] in if is_empty result then result else init result) ≡ r
drop_delim [] delim = refl
drop_delim (c ∷ r) delim = init-concat (c ∷ r) delim

-- `join` puts one delimiter between neighbours and none at the end.
pub join-glue : (parts : List (List ℕ)) (delim : ℕ) → join parts delim ≡ glue delim parts
unfolding join
join-glue [] delim = refl
join-glue (p ∷ ps) delim =
    ap (λ result. if is_empty result then result else init result) (join_loop-glue delim p ps [])
    ∙ drop_delim (glue delim (p ∷ ps)) delim

glue-extend :
    (delim c : ℕ) (f : List ℕ) (fs : List (List ℕ))
    → glue delim (extend (c ∷ []) (f ∷ fs)) ≡ c ∷ glue delim (f ∷ fs)
glue-extend delim c f [] = refl
glue-extend delim c f (g ∷ fs) = refl

glue-nil-cons :
    (delim : ℕ) (f : List ℕ) (fs : List (List ℕ))
    → glue delim ([] ∷ f ∷ fs) ≡ delim ∷ glue delim (f ∷ fs)
glue-nil-cons delim f fs = refl

glue-fields : (delim : ℕ) (s : List ℕ) → glue delim (fields delim s) ≡ s
glue-fields delim [] = refl
glue-fields delim (c ∷ s) =
    let (f, fs, h) = fields-cons delim s in
    let ih : glue delim (f ∷ fs) ≡ s = ap (glue delim) (sym h) ∙ glue-fields delim s in
    elim (Bool-cases (c == delim)) [
      | inl e ↦ rw (e, h) (ground (arith, ih, (==_iff c delim).0 e))
      | inr e ↦ rw (e, h) (glue-extend delim c f fs ∙ ap (◌∷◌ c) ih)
    ]

join-tokenize_nil : (delim : ℕ) → join (tokenize [] delim) delim ≡ []
unfolding join tokenize
join-tokenize_nil delim = ground arith

-- Joining the tokens of a text with the delimiter that it was cut at gives the text again.
pub join-tokenize : (str : List ℕ) (delim : ℕ) → join (tokenize str delim) delim ≡ str
join-tokenize [] delim = join-tokenize_nil delim
join-tokenize (c ∷ s) delim =
    ap (λ ts. join ts delim) (tokenize-fields c s delim)
    ∙ join-glue (fields delim (c ∷ s)) delim
    ∙ glue-fields delim (c ∷ s)

-- Each part is not empty and holds no delimiter.
abbrev pub IsParts : ℕ → List (List ℕ) → Type 0
IsParts delim [] = Unit {0}
IsParts delim (p ∷ ps) = (is_empty p ≡ false) × None (λ c. c == delim) p × IsParts delim ps

-- Fields that hold no delimiter, empty or not.
abbrev IsFields : ℕ → List (List ℕ) → Type 0
IsFields delim [] = Unit {0}
IsFields delim (p ∷ ps) = None (λ c. c == delim) p × IsFields delim ps

extend-IsFields :
    (delim c : ℕ) (f : List ℕ) (fs : List (List ℕ))
    → (c == delim) ≡ false
    → IsFields delim (f ∷ fs)
    → IsFields delim (extend (c ∷ []) (f ∷ fs))
extend-IsFields delim c f fs e h = (ground (arith, e, h.0), h.1)

fields-IsFields : (delim : ℕ) (s : List ℕ) → IsFields delim (fields delim s)
fields-IsFields delim [] = (refl, tt)
fields-IsFields delim (c ∷ s) =
    let (f, fs, h) = fields-cons delim s in
    let ih = rw h at (fields-IsFields delim s) in
    elim (Bool-cases (c == delim)) [
      | inl e ↦ rw e (refl, fields-IsFields delim s)
      | inr e ↦ rw (e, h) (extend-IsFields delim c f fs e ih)
    ]

nonempty-IsParts :
    (delim : ℕ) (fs : List (List ℕ)) → IsFields delim fs → IsParts delim (nonempty fs)
nonempty-IsParts delim [] h = tt
nonempty-IsParts delim (f ∷ fs) h = elim (Bool-cases (is_empty f)) [
  | inl e ↦ rw e (nonempty-IsParts delim fs h.1)
  | inr e ↦ rw e (e, h.0, nonempty-IsParts delim fs h.1)
]

-- `split` never returns an empty part, nor one that holds the delimiter.
pub split-IsParts : (str : List ℕ) (delim : ℕ) → IsParts delim (split str delim)
split-IsParts str delim =
    rw (split-fields str delim)
      (nonempty-IsParts delim (fields delim str) (fields-IsFields delim str))

fields-append :
    (delim : ℕ) (p s : List ℕ)
    → None (λ c. c == delim) p
    → fields delim (p ++ (delim ∷ s)) ≡ p ∷ fields delim s
fields-append delim [] s h = rw ((==_iff delim delim).1 refl)
fields-append delim (c ∷ p) s h = elim (Bool-cases (c == delim)) [
  | inl e ↦ absurd (ground (arith, e))
  | inr e ↦ rw (e, fields-append delim p s (ground (arith, e)))
]

fields-part : (delim : ℕ) (p : List ℕ) → None (λ c. c == delim) p → fields delim p ≡ p ∷ []
fields-part delim [] h = refl
fields-part delim (c ∷ p) h = elim (Bool-cases (c == delim)) [
  | inl e ↦ absurd (ground (arith, e))
  | inr e ↦ rw (e, fields-part delim p (ground (arith, e)))
]

nonempty-fields-glue :
    (delim : ℕ) (ps : List (List ℕ))
    → IsParts delim ps
    → nonempty (fields delim (glue delim ps)) ≡ ps
nonempty-fields-glue delim [] h = refl
nonempty-fields-glue delim (p ∷ []) h = rw (fields-part delim p h.1) (rw h.0)
nonempty-fields-glue delim (p ∷ q ∷ ps) h =
    rw (fields-append delim p (glue delim (q ∷ ps)) h.1)
      (rw (h.0, nonempty-fields-glue delim (q ∷ ps) h.2))

-- `split` gives back the parts that `join` put together, if none is empty or holds the delimiter.
pub split-join :
    (parts : List (List ℕ)) (delim : ℕ)
    → IsParts delim parts
    → split (join parts delim) delim ≡ parts
split-join parts delim h =
    ap (λ s. split s delim) (join-glue parts delim)
    ∙ split-fields (glue delim parts) delim
    ∙ nonempty-fields-glue delim parts h

-- A leading delimiter adds no part.
pub split-delim : (s : List ℕ) (delim : ℕ) → split (delim ∷ s) delim ≡ split s delim
unfolding split split_loop push_part
split-delim s delim =
    let self : (delim == delim) ≡ true = (==_iff delim delim).1 refl in
    rw (split, split_loop, self) refl

split-nil : (delim : ℕ) → split [] delim ≡ []
unfolding split split_loop push_part
split-nil delim = refl

-- A text of delimiters has no part.
pub split-delims : (s : List ℕ) (delim : ℕ) → All (λ c. c == delim) s → split s delim ≡ []
split-delims [] delim h = split-nil delim
split-delims (c ∷ s) delim h =
    let same : c ≡ delim = ground (arith, h) in
    ap (λ d. split (d ∷ s) delim) same
    ∙ split-delim s delim
    ∙ split-delims s delim (ground (arith, h))

-- No part holds a zero character.
abbrev pub WithoutZero : List (List ℕ) → Type 0
WithoutZero [] = Unit {0}
WithoutZero (p ∷ ps) = None (λ c. c == 0) p × WithoutZero ps

c_str-whole : (s : List ℕ) → None (λ c. c == 0) s → c_str s ≡ s
c_str-whole [] h = refl
c_str-whole (c ∷ s) h =
    let here : (c == 0) ≡ false = ground (arith, h) in
    rw (here, c_str-whole s (ground (arith, h))) refl

join_list_loop-join_loop :
    (delim : ℕ) (ps : List (List ℕ)) (result : List ℕ)
    → WithoutZero ps
    → join_list_loop delim ps result ≡ join_loop delim ps result
unfolding join_list_loop join_loop
join_list_loop-join_loop delim [] result h = refl
join_list_loop-join_loop delim (p ∷ ps) result h =
    rw (c_str-whole p h.0) (join_list_loop-join_loop delim ps ((result ++ p) ++ delim ∷ []) h.1)

-- The two overloads of `join` agree on parts without zero characters.
pub join_list-join :
    (ps : List (List ℕ)) (delim : ℕ) → WithoutZero ps → join_list ps delim ≡ join ps delim
unfolding join_list join
join_list-join ps delim h =
    ap (λ (r : List ℕ). if is_empty r then r else init r) (join_list_loop-join_loop delim ps [] h)
