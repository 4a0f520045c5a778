-- ===== src/Text/Split.antt =====
-- Texts with a separator: a text that does not hold the separator is read back from in front of it.
use oo_workers.Prelude.{ℕ, ◌≡◌, refl, sym, ap, ◌≢◌, List, [], ◌∷◌, ◌++◌, arith, All}

-- No character of the text is `c`.
abbrev pub Lacks : ℕ → List ℕ → Type 0
Lacks c s = All (λ d. d ≢ c) s

abbrev head_or : ℕ → List ℕ → ℕ
head_or d [] = d
head_or d (x ∷ xs) = x

abbrev tail_of : List ℕ → List ℕ
tail_of [] = []
tail_of (x ∷ xs) = xs

pub split_unique :
    (c : ℕ) (a b s t : List ℕ) → Lacks c a → Lacks c b → a ++ c ∷ s ≡ b ++ c ∷ t → (a ≡ b) × (s ≡ t)
split_unique c [] [] s t h k e = (refl, ap tail_of e)
split_unique c [] (y ∷ b) s t h (k, ks) e = absurd (k (sym (ap (head_or c) e)))
split_unique c (x ∷ a) [] s t (h, hs) k e = absurd (h (ap (head_or c) e))
split_unique c (x ∷ a) (y ∷ b) s t (h, hs) (k, ks) e =
    let (same, rest) = split_unique c a b s t hs ks (ap tail_of e) in
    (ground (arith, ap (head_or c) e), rest)
