-- ===== src/Algo/Tests.antt =====
-- Runs of algo.cpp's functions on small texts, and the theorems at inputs.
use hltos.Base.{ℕ, ◌≡◌, refl, List, [], ◌∷◌}
use hltos.Algo.{split, tokenize, join}
use hltos.Algo.RoundTrip.{join-tokenize}

-- "a::b:" and its parts.
abbrev text : List ℕ
text = b'a' ∷ b':' ∷ b':' ∷ b'b' ∷ b':' ∷ []

abbrev two_parts : List (List ℕ)
two_parts = (b'a' ∷ []) ∷ (b'b' ∷ []) ∷ []

splits_text : split text b':' ≡ two_parts
unfolding split
splits_text = refl

tokenizes_text : tokenize text b':' ≡ (b'a' ∷ []) ∷ [] ∷ (b'b' ∷ []) ∷ [] ∷ []
unfolding tokenize
tokenizes_text = refl

join-tokenize_example : join (tokenize text b':') b':' ≡ text
join-tokenize_example = join-tokenize text b':'
