-- ===== src/Prelude/Members.antt =====
-- Members of a list that is filtered.
use mathlib.Core.List.{Memᴰ}
use mathlib.Core.List.Memᴰ.{head, tail, not-nil, cases_cons}
use mathlib.Core.Path.{◌≡◌, sym, ap, ◌∙◌}
use mathlib.Core.Logic.{inl, inr}
use mathlib.Core.Bool.{Bool, true}
use mathlib.Core.List.{List, [], ◌∷◌}
use native.Mathlib.Omega.{arith}
use oo_workers.Prelude.Tests.{Bool-cases}
use oo_workers.Prelude.Lists.{keep}

module _ {ℓ} {A : Type ℓ} where
  pub keep_Mem-to :
      (p : A → Bool) (xs : List A) (x : A) → Memᴰ x (keep p xs) → Memᴰ x xs × (p x ≡ true)
  unfolding keep
  keep_Mem-to p [] x m = absurd (not-nil m)
  keep_Mem-to p (y ∷ ys) x m = elim (Bool-cases (p y)) [
    | inl h ↦ elim (cases_cons (rw (keep, h) at m)) [
      | inl e ↦ (head e, ap p e ∙ h)
      | inr m' ↦ let (inside, held) = keep_Mem-to p ys x m' in (tail inside, held)
    ]
    | inr h ↦ let (inside, held) = keep_Mem-to p ys x (rw (keep, h) at m) in (tail inside, held)
  ]

  pub keep_Mem-from :
      (p : A → Bool) (xs : List A) (x : A) → Memᴰ x xs → p x ≡ true → Memᴰ x (keep p xs)
  unfolding keep
  keep_Mem-from p [] x m h = absurd (not-nil m)
  keep_Mem-from p (y ∷ ys) x m h = elim (Bool-cases (p y)) [
    | inl good ↦ elim (cases_cons m) [
      | inl e ↦ rw (keep, good) (head e)
      | inr m' ↦ rw (keep, good) (tail (keep_Mem-from p ys x m' h))
    ]
    | inr bad ↦ elim (cases_cons m) [
      | inl e ↦ absurd (ground (arith, sym h ∙ ap p e ∙ bad))
      | inr m' ↦ rw (keep, bad) (keep_Mem-from p ys x m' h)
    ]
  ]
