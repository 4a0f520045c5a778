-- ===== src/Qa/Claim.antt =====
-- The claim of a run (src/db/repositories/qa-project.repo.ts, `claimRunAlert`): what it leaves of
-- the rows, won or lost.
use native.Mathlib.Nat.{zero-add}
use oo_workers.Prelude.{
  ℕ, ◌+◌, ◌≤◌, ◌<◌, ◌≡◌, refl, false, ◌&&◌, List, [], ◌∷◌, arith, All, ◌==◌, ==_iff, if◌then◌else◌,
  Bool-cases, inl, inr, and-true,
}
use oo_workers.Text.{Text}
use oo_workers.Qa.{QaRun, is_none, claim_rows}

-- No row with the id waits for its claim.
abbrev pub IsClosed : ℕ → List QaRun → Type 0
IsClosed id runs = All (λ (r : QaRun). r.id ≡ id → is_none r.alerted_at ≡ false) runs

abbrev pub IsBelow : ℕ → List QaRun → Type 0
IsBelow next runs = All (λ (r : QaRun). r.id < next) runs

module _ (id : ℕ) (outcome : Text) (now : ℕ) where
  claim_self-IsClosed : (rs : List QaRun) → IsClosed id (claim_rows id outcome now rs).0
  unfolding claim_rows
  claim_self-IsClosed [] = tt
  claim_self-IsClosed (r ∷ rs) = elim (Bool-cases (r.id == id && is_none r.alerted_at)) [
    | inl hit ↦ rw (hit, claim_rows) ((λ e. refl), claim_self-IsClosed rs)
    | inr miss ↦ rw (miss, claim_rows) ((λ e. ground (arith, miss, e)), claim_self-IsClosed rs)
  ]

  claim-IsClosed :
      (i : ℕ) (rs : List QaRun) → IsClosed i rs → IsClosed i (claim_rows id outcome now rs).0
  unfolding claim_rows
  claim-IsClosed i [] h = tt
  claim-IsClosed i (r ∷ rs) (p, h) = elim (Bool-cases (r.id == id && is_none r.alerted_at)) [
    | inl hit ↦ rw (hit, claim_rows) ((λ e. refl), claim-IsClosed i rs h)
    | inr miss ↦ rw (miss, claim_rows) (p, claim-IsClosed i rs h)
  ]

  claim-IsBelow :
      (next : ℕ) (rs : List QaRun) → IsBelow next rs → IsBelow next (claim_rows id outcome now rs).0
  unfolding claim_rows
  claim-IsBelow next [] h = tt
  claim-IsBelow next (r ∷ rs) (p, h) = elim (Bool-cases (r.id == id && is_none r.alerted_at)) [
    | inl hit ↦ rw (hit, claim_rows) (p, claim-IsBelow next rs h)
    | inr miss ↦ rw (miss, claim_rows) (p, claim-IsBelow next rs h)
  ]

  claim_lost : (rs : List QaRun) → IsClosed id rs → (claim_rows id outcome now rs).1 ≡ 0
  unfolding claim_rows
  claim_lost [] h = refl
  claim_lost (r ∷ rs) (p, h) = elim (Bool-cases (r.id == id && is_none r.alerted_at)) [
    | inl hit ↦
        let (same, open_row) = and-true (r.id == id) (is_none r.alerted_at) hit in
        cc (open_row, p ((==_iff r.id id).0 same))
    | inr miss ↦ rw (miss, claim_rows) (claim_lost rs h)
  ]

  claim_won-lt :
      (next : ℕ) (rs : List QaRun)
      → IsBelow next rs
      → 0 < (claim_rows id outcome now rs).1
      → id < next
  unfolding claim_rows
  claim_won-lt next [] h w = absurd (omega arith)
  claim_won-lt next (r ∷ rs) (p, h) w = elim (Bool-cases (r.id == id && is_none r.alerted_at)) [
    | inl hit ↦ omega (arith, (==_iff r.id id).0 (and-true _ _ hit).0)
    | inr miss ↦ claim_won-lt next rs h (rw (miss, claim_rows) at w)
  ]

abbrev pub count : ℕ → List ℕ → ℕ
count id [] = 0
count id (x ∷ xs) = (if x == id then 1 else 0) + count id xs

-- What holds of one run while it has been finalized `c` times.
pub record Holds (id : ℕ) (runs : List QaRun) (next c : ℕ) : Type 0 where
  pub once : c ≤ 1
  pub closed : 0 < c → IsClosed id runs × (id < next)
  pub below : IsBelow next runs

module _ (id : ℕ) (outcome : Text) (now : ℕ) (runs : List QaRun) (next c : ℕ)
    (h : Holds id runs next c) where
  other-Holds : (run : ℕ) → Holds id (claim_rows run outcome now runs).0 next c
  other-Holds run = record {
    once = h.once;
    closed = λ p. (claim-IsClosed run outcome now id runs (h.closed p).0, (h.closed p).1);
    below = claim-IsBelow run outcome now next runs h.below;
  }

  won-Holds :
      (claim_rows id outcome now runs).1 ≡ 1
      → Holds id (claim_rows id outcome now runs).0 next (1 + c)
  won-Holds won =
      let fresh : 0 < c → ⊥ =
        λ p. omega (arith, won, claim_lost id outcome now runs (h.closed p).0) in
      record {
        once = omega (arith, fresh);
        closed = λ p. (
          claim_self-IsClosed id outcome now runs,
          claim_won-lt id outcome now next runs h.below (omega (arith, won)),
        );
        below = claim-IsBelow id outcome now next runs h.below;
      }

-- One claim, won or lost, of the run or of another.
pub claim-Holds :
    (id run : ℕ) (outcome : Text) (now : ℕ) (runs : List QaRun) (next c : ℕ)
    → Holds id runs next c
    → Holds id
        (claim_rows run outcome now runs).0
        next
        ((if (claim_rows run outcome now runs).1 == 1 then (if run == id then 1 else 0) else 0) + c)
claim-Holds id run outcome now runs next c h =
    elim (Bool-cases ((claim_rows run outcome now runs).1 == 1)) [
      | inr lost ↦ rw (lost, zero-add c) (other-Holds id outcome now runs next c h run)
      | inl won ↦ elim (Bool-cases (run == id)) [
        | inr other ↦ rw (won, other, zero-add c) (other-Holds id outcome now runs next c h run)
        | inl same ↦
            let e = (==_iff run id).0 same in
            rw (won, same)
              (rw e (won-Holds id outcome now runs next c h (rw e at ((==_iff _ 1).0 won))))
      ]
    ]
