-- ===== src/Transition/Latest.antt =====
-- `ORDER BY start DESC LIMIT 1` (src/services/transition-detector.ts): the row with the greatest
-- start time; of rows that started at once the first in the table is taken, which SQL leaves open.
use mathlib.Core.Option.{some-injective}
use oo_workers.Prelude.{
  ℕ, ◌≤◌, ◌≡◌, refl, List, [], ◌∷◌, Option, none, some, arith, ltb, subst, if◌then◌else◌, All, inl,
  inr, Bool-cases,
}

module _ {ℓ} {A : Type ℓ} (start : A → ℕ) where
  unfoldable pub later : A → Option A → Option A
  later r none = some r
  later r (some q) = if ltb (start r) (start q) then some q else some r

  unfoldable pub latest : List A → Option A
  unfolding later
  latest [] = none
  latest (r ∷ rows) = later r (latest rows)

  later-le :
      (r : A) (t : ℕ) (o : Option A)
      → start r ≤ t
      → ((q : A) → o ≡ some q → start q ≤ t)
      → (q : A) → later r o ≡ some q
      → start q ≤ t
  unfolding later
  later-le r t none h k q e = ground (arith, e)
  later-le r t (some p) h k q e = elim (Bool-cases (ltb (start r) (start p))) [
    | inl lt ↦ k q (rw lt at e)
    | inr ge ↦
        let same : some r ≡ some q = rw ge at e in
        subst (λ x. start x ≤ t) (some-injective r q same) h
  ]

  latest-le :
      (rows : List A) (t : ℕ)
      → All (λ q. start q ≤ t) rows
      → (q : A) → latest rows ≡ some q
      → start q ≤ t
  unfolding latest
  latest-le [] t h q e = cc
  latest-le (r ∷ rows) t (p, h) q e = later-le r t (latest rows) p (latest-le rows t h) q e

  -- A row that no other started after is the latest.
  pub latest-head :
      (r : A) (rows : List A) → All (λ q. start q ≤ start r) rows → latest (r ∷ rows) ≡ some r
  unfolding latest
  latest-head r rows h = pick (latest rows) (latest-le rows (start r) h)
    where
      pick : (o : Option A) → ((q : A) → o ≡ some q → start q ≤ start r) → later r o ≡ some r
      pick none k = refl
      pick (some q) k = let le = k q refl in ground arith
