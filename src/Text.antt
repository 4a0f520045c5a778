-- ===== src/Text.antt =====
-- JavaScript strings as lists of code units, with the operations of `String.prototype` that the
-- source calls: comparison, concatenation, case mapping over ASCII, search, and decimal numbers.
pub mod Decimal
pub mod Split
use Prim.Native.Char.{code}
use Prim.Native.String.{String}
use mathlib.Core.Option
use oo_workers.Prelude.{
  ℕ, suc, ◌+◌, ◌-◌, ◌≡◌, refl, Bool, true, false, ◌&&◌, ◌||◌, List, [], ◌∷◌, map, Option, none,
  some, arith, leb, ◌==◌, ◌↔◌, if◌then◌else◌, ◌⊎◌, inl, inr, any, Bool-cases, ap,
}

abbrev pub Text : Type 0
Text = List ℕ

-- The text of a literal.
abbrev pub codes : String → Text
codes String.[] = []
codes (String.◌∷◌ c s) = code c ∷ codes s

-- `===` on strings.
abbrev pub text_eq : Text → Text → Bool
text_eq [] [] = true
text_eq [] (y ∷ ys) = false
text_eq (x ∷ xs) [] = false
text_eq (x ∷ xs) (y ∷ ys) = x == y && text_eq xs ys

pub text_eq_sound : (s t : Text) → text_eq s t ≡ true → s ≡ t
text_eq_sound [] [] h = refl
text_eq_sound [] (y ∷ ys) h = ground arith
text_eq_sound (x ∷ xs) [] h = ground arith
text_eq_sound (x ∷ xs) (y ∷ ys) h = ground (arith, text_eq_sound xs ys)

pub text_eq_refl : (s : Text) → text_eq s s ≡ true
text_eq_refl [] = refl
text_eq_refl (x ∷ xs) = ground (arith, text_eq_refl xs)

pub text_eq_iff : (s t : Text) → (text_eq s t ≡ true) ↔ (s ≡ t)
text_eq_iff s t = (text_eq_sound s t, λ e. subst_eq s t e)
  where
    subst_eq : (a b : Text) → a ≡ b → text_eq a b ≡ true
    subst_eq a b e = ground (arith, text_eq_refl b)

-- `toLowerCase` and `toUpperCase` over ASCII; other code units stay as they are.
abbrev pub lower : ℕ → ℕ
lower c = if leb b'A' c && leb c b'Z' then c + 32 else c

abbrev pub upper : ℕ → ℕ
upper c = if leb b'a' c && leb c b'z' then c - 32 else c

abbrev pub to_lower : Text → Text
to_lower = map lower

abbrev pub to_upper : Text → Text
to_upper = map upper

-- `startsWith`, and `includes`.
abbrev pub starts_with : Text → Text → Bool
starts_with [] s = true
starts_with (p ∷ ps) [] = false
starts_with (p ∷ ps) (c ∷ s) = p == c && starts_with ps s

unfoldable pub includes : Text → Text → Bool
includes p [] = starts_with p []
includes p (c ∷ s) = starts_with p (c ∷ s) || includes p s

-- `indexOf` of one character.
unfoldable pub index_of : ℕ → Text → Option ℕ
index_of c [] = none
index_of c (d ∷ s) = if c == d then some 0 else Option.map suc (index_of c s)

-- The class `\s`: the white space and the line ends of ECMAScript.
unfoldable pub whitespace : ℕ → Bool
whitespace c =
    (leb 9 c && leb c 13)
    || (c == 32
        || (c == 160
            || (c == 5760
                || ((leb 8192 c && leb c 8202)
                    || (c == 8232
                        || (c == 8233
                            || (c == 8239 || (c == 8287 || (c == 12288 || c == 65279)))))))))

-- A text is one of a list.
abbrev pub OneOf : Text → List Text → Type 0
OneOf t [] = ⊥
OneOf t (s ∷ ss) = (t ≡ s) ⊎ OneOf t ss

pub any-OneOf : (t : Text) (ss : List Text) → any (text_eq t) ss ≡ true → OneOf t ss
unfolding any
any-OneOf t [] h = ground (arith, h)
any-OneOf t (s ∷ ss) h = elim (Bool-cases (text_eq t s)) [
  | inl same ↦ inl (text_eq_sound t s same)
  | inr other ↦ inr (any-OneOf t ss (ground (arith, h, other)))
]

pub any-none : (t : Text) (ss : List Text) → any (text_eq t) ss ≡ false → OneOf t ss → ⊥
unfolding any
any-none t [] h m = m
any-none t (s ∷ ss) h (inl e) = ground (arith, text_eq_refl t, ap (text_eq t) e, h)
any-none t (s ∷ ss) h (inr m) = any-none t ss (ground (arith, h)) m
