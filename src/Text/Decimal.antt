-- ===== src/Text/Decimal.antt =====
-- Numbers in template literals: decimal digits, and why two numbers never print alike.
use oo_workers.Prelude.{
  ℕ, zero, suc, ◌+◌, ◌-◌, ◌*◌, ◌/◌, ◌%◌, ◌<◌, ◌≤◌, ◌≡◌, sym, ap, ◌∙◌, List, [], ◌∷◌, arith, ltb,
  All, if◌then◌else◌, Bool-cases, inl, inr,
}
use oo_workers.Text.Split.{Lacks}

-- The digits of `n`, most significant first, in front of `out`; each round divides by ten.
digits : ℕ → ℕ → List ℕ → List ℕ
digits zero n out = out
digits (suc fuel) n out =
    let more = digits fuel (n / 10) ((b'0' + n % 10) ∷ out) in
    if ltb n 10 then (b'0' + n) ∷ out else more

-- `${n}`; n + 1 rounds are enough for every n.
unfoldable pub show : ℕ → List ℕ
unfolding digits
show n = digits (suc n) n []

-- What a text of digits stands for.
pub value : ℕ → List ℕ → ℕ
value acc [] = acc
value acc (c ∷ s) = value (acc * 10 + (c - b'0')) s

value-digits : (fuel n : ℕ) (out : List ℕ) → n < fuel → value 0 (digits fuel n out) ≡ value n out
unfolding digits value
value-digits zero n out h = absurd (omega arith)
value-digits (suc fuel) n out h = elim (Bool-cases (ltb n 10)) [
  | inl small ↦ rw small (ap (λ k. value k out) (omega arith))
  | inr large ↦ rw large (
      value-digits fuel (n / 10) ((b'0' + n % 10) ∷ out) (ground arith)
      ∙ ap (λ k. value k out) (omega arith))
]

pub value-show : (n : ℕ) → value 0 (show n) ≡ n
unfolding show value
value-show n = value-digits (suc n) n [] (omega arith)

pub show-injective : (n m : ℕ) → show n ≡ show m → n ≡ m
show-injective n m e = sym (value-show n) ∙ ap (value 0) e ∙ value-show m

abbrev pub IsDigit : ℕ → Type 0
IsDigit c = (b'0' ≤ c) × (c ≤ b'9')

digits-IsDigit : (fuel n : ℕ) (out : List ℕ) → All IsDigit out → All IsDigit (digits fuel n out)
unfolding digits
digits-IsDigit zero n out h = h
digits-IsDigit (suc fuel) n out h = elim (Bool-cases (ltb n 10)) [
  | inl small ↦ rw small ((omega arith, ground arith), h)
  | inr large ↦
      rw large
        (digits-IsDigit fuel (n / 10) ((b'0' + n % 10) ∷ out) ((omega arith, omega arith), h))
]

pub show-IsDigit : (n : ℕ) → All IsDigit (show n)
unfolding show
show-IsDigit n = digits-IsDigit (suc n) n [] tt

Lacks-digits : (c : ℕ) (s : List ℕ) → b'9' < c → All IsDigit s → Lacks c s
Lacks-digits c [] h d = tt
Lacks-digits c (x ∷ s) h (p, d) = (omega arith, Lacks-digits c s h d)

-- A printed number holds no character above '9', such as ':'.
pub show-Lacks : (c n : ℕ) → b'9' < c → Lacks c (show n)
show-Lacks c n h = Lacks-digits c (show n) h (show-IsDigit n)
