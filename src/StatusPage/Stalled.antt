-- ===== src/StatusPage/Stalled.antt =====
-- Two readings of a run that never reported (src/services/status-page-aggregator.ts and
-- src/services/exec-projection.ts).
use oo_workers.Prelude.{
  ℕ, ◌*◌, ◌-◌, ◌≡◌, refl, sym, ap, true, false, Option, none, some, arith, ltb, leb, List, keep,
  Bool-cases, inl, inr,
}
use oo_workers.Text.{text_eq}
use oo_workers.Db.{MonitorType, Exec, pending, failed}
use oo_workers.Transition.Latest.{latest}
use oo_workers.StatusPage.{DayState, is_of, normalize, state_of, current_status, project_stalled}

-- What the dashboard makes of the newest row.
abbrev pub shown : ℕ → ℕ → Option Exec → DayState
shown now interval none = DayState.unknown
shown now interval (some r) = normalize (project_stalled now interval r).status

module _ (now interval : ℕ) (r : Exec) where
  state-reported :
      text_eq r.status pending ≡ false
      → state_of now interval (some r) ≡ shown now interval (some r)
  state-reported reported =
      let same : project_stalled now interval r ≡ r = unfold project_stalled in rw reported refl in
      rw reported (ap (λ (q : Exec). normalize q.status) (sym same))

  state-young :
      text_eq r.status pending ≡ true
      → leb (now - r.start_time) (interval * 2000) ≡ true
      → state_of now interval (some r) ≡ shown now interval (some r)
  state-young waits young =
      let same : project_stalled now interval r ≡ r =
        unfold project_stalled in rw (waits, young) refl in
      let fresh : ltb (interval * 2000) (now - r.start_time) ≡ false = ground (arith, young) in
      rw (waits, fresh) (ap (λ (q : Exec). normalize q.status) (sym same))

  state-old :
      text_eq r.status pending ≡ true
      → leb (now - r.start_time) (interval * 2000) ≡ false
      → state_of now interval (some r) ≡ shown now interval (some r)
  state-old waits old =
      let is_failed : (project_stalled now interval r).status ≡ failed =
        unfold project_stalled in rw (waits, old) refl in
      let stale : ltb (interval * 2000) (now - r.start_time) ≡ true = ground (arith, old) in
      rw (waits, stale, is_failed) (unfold normalize in refl)

-- The status page and the dashboard agree on the current state of a monitor: the state that the page
-- reads off the newest row is the state of that row as the dashboard projects it.
pub current_status-projected :
    (kind : MonitorType) (id now interval : ℕ) (rows : List Exec)
    → current_status kind id now interval rows
      ≡ shown now interval (latest (λ r. r.start_time) (keep (is_of kind id) rows))
unfolding current_status
current_status-projected kind id now interval rows =
    agree (latest (λ r. r.start_time) (keep (is_of kind id) rows))
  where
    agree : (o : Option Exec) → state_of now interval o ≡ shown now interval o
    agree none = refl
    agree (some r) = elim (Bool-cases (text_eq r.status pending)) [
      | inr reported ↦ state-reported now interval r reported
      | inl waits ↦ elim (Bool-cases (leb (now - r.start_time) (interval * 2000))) [
        | inl young ↦ state-young now interval r waits young
        | inr old ↦ state-old now interval r waits old
      ]
    ]
