-- ===== src/StatusPage/Uptime.antt =====
-- The uptime of a monitor (src/services/status-page-aggregator.ts, `uptime24h`).
use oo_workers.Prelude.{
  ℕ, ◌+◌, ◌*◌, ◌^◌, ◌≤◌, ◌<◌, ◌≡◌, refl, Bool, ◌&&◌, List, [], ◌∷◌, none, some, arith, ◌==◌, ==_iff,
  leb, keep, length, Bool-cases, ◌⊎◌, inl, inr,
}
use oo_workers.Db.{MonitorType, Exec}
use oo_workers.StatusPage.{is_of, is_success, uptime24h}
use oo_workers.Double.{rounded, rounded-near, rounded-le}

keep-length {ℓ} : {A : Type ℓ} (p : A → Bool) (xs : List A) → length (keep p xs) ≤ length xs
unfolding keep
keep-length p [] = omega arith
keep-length p (x ∷ xs) = elim (Bool-cases (p x)) [
  | inl hit ↦ rw (hit, keep) (omega (arith, keep-length p xs))
  | inr miss ↦ rw (miss, keep) (omega (arith, keep-length p xs))
]

-- The runs of the window, and those among them that succeeded.
abbrev pub runs : MonitorType → ℕ → ℕ → List Exec → List Exec
runs kind id since rows = keep (λ r. is_of kind id r && leb since r.start_time) rows

abbrev pub good_runs : MonitorType → ℕ → ℕ → List Exec → List Exec
good_runs kind id since rows = keep is_success (runs kind id since rows)

-- The uptime is missing exactly if no run fell into the window. Otherwise, for fewer than 2 ^ 40 runs,
-- it is the share of the runs that succeeded to a tenth of a percent: a number of tenths nearest to
-- the share, either one where two are equally near, and at most 1000.
pub uptime24h-nearest :
    (kind : MonitorType) (id since : ℕ) (rows : List Exec)
    → length (runs kind id since rows) < 2 ^ 40
    → (let total = length (runs kind id since rows) in
        let ok = length (good_runs kind id since rows) in
        ((total ≡ 0) × (uptime24h kind id since rows ≡ none))
        ⊎ ((0 < total)
            × ((u : ℕ) × (uptime24h kind id since rows ≡ some u)
                × (2 * total * u ≤ 2000 * ok + total)
                × (2000 * ok ≤ 2 * total * u + total)
                × (u ≤ 1000))))
unfolding uptime24h
uptime24h-nearest kind id since rows small =
    let total = length (runs kind id since rows) in
    let ok = length (good_runs kind id since rows) in
    let within : ok ≤ total = keep-length is_success (runs kind id since rows) in
    elim (Bool-cases (total == 0)) [
      | inl empty ↦ inl ((==_iff total 0).0 empty, rw empty refl)
      | inr some_run ↦
          let pos : 0 < total = ground (arith, some_run) in
          let (near, near') = rounded-near ok total within small in
          inr (
            pos,
            (rounded ok total, rw some_run refl, near, near', rounded-le ok total pos within small),
          )
    ]
