-- ===== src/Transition.antt =====
-- src/services/transition-detector.ts: which result of a monitor is an outage or a recovery.
-- `Latest` has the lookup of the newest row, `Probes` the detector of monitors with a row a probe.
pub mod Latest
pub mod Probes
pub mod Runs
use oo_workers.Prelude.{Bool, ◌||◌, if◌then◌else◌}
use oo_workers.Text.{Text, codes, text_eq, to_upper}

pub data Outcome : Type 0 where
  up down other : Outcome

-- `toUpperCase` is taken over ASCII, where the statuses of the program are.
unfoldable pub normalize_outcome : Text → Outcome
normalize_outcome status =
    let s = to_upper status in
    if text_eq s (codes "SUCCESS") || text_eq s (codes "PASSED")
    then up
    else if text_eq s (codes "FAILED") || text_eq s (codes "FAILURE") || text_eq s (codes "ERROR")
    then down
    else other
