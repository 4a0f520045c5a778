-- ===== src/Tests/Pages.antt =====
-- Runs of the status page and of the renderer of incidents: src/services/status-page-aggregator.ts,
-- src/services/incident-render.ts.
use oo_workers.Incident.{
  render_incident_markdown, render_block, join, split_blocks, blank_line, replace_all, crlf, bold,
  code_span, line_break, run, trim_start, trim_end, escape_html, escape_char,
}
use oo_workers.Incident.Tags.{IsTagged}
use oo_workers.Incident.Rendered.{render_incident_markdown-IsTagged}
use oo_workers.Prelude.{
  ℕ, ◌+◌, ◌*◌, ◌-◌, ◌≤◌, ◌<◌, ◌≡◌, refl, ◌↔◌, ◌⊎◌, List, [], ◌∷◌, some, none, All, length, head_opt,
  drop, keep, arith,
}
use oo_workers.Text.{Text, codes, whitespace}
use oo_workers.Db.{MonitorType, Exec, no_extra, success, failed, pending}
use oo_workers.Transition.Latest.{latest}
use oo_workers.StatusPage.{
  DayState, OverallStatus, overall, uptime24h, bars, day_ms, day_of, current_status, is_of,
}
use oo_workers.StatusPage.Overall.{SomeDown, overall_iff}
use oo_workers.StatusPage.Uptime.{runs, good_runs, uptime24h-nearest}
use oo_workers.Double.{rounded, nearest_even, exponent}
use oo_workers.StatusPage.Bars.{FailedOn, bars-down_iff}
use oo_workers.StatusPage.Stalled.{shown, current_status-projected}

abbrev states : List DayState
states = DayState.up ∷ DayState.unknown ∷ []

overall_iff_example :
    ((overall states ≡ OverallStatus.down) ↔ SomeDown states)
    × ((overall states ≡ OverallStatus.unknown) ↔ All (λ s. s ≡ DayState.unknown) states)
    × ((overall states ≡ OverallStatus.up) ↔ ((0 < 2) × All (λ s. s ≡ DayState.up) states))
overall_iff_example = overall_iff states

abbrev check : ℕ → Text → Exec
check time status = record {
  kind = MonitorType.tcp;
  id = time;
  monitor_id = 4;
  region_id = none;
  run_id = none;
  status = status;
  latency_ms = none;
  error_message = none;
  extra = no_extra;
  start_time = time;
  end_time = none;
}

-- Day 100 is today.
abbrev now : ℕ
now = 8640000500

abbrev checks : List Exec
checks = check 8640000400 pending ∷ check 8640000300 success ∷ check 8553600001 failed ∷ []

uptime24h-nearest_example :
    (let total = length (runs MonitorType.tcp 4 8553600500 checks) in
      let ok = length (good_runs MonitorType.tcp 4 8553600500 checks) in
      ((total ≡ 0) × (uptime24h MonitorType.tcp 4 8553600500 checks ≡ none))
      ⊎ ((0 < total)
          × ((u : ℕ) × (uptime24h MonitorType.tcp 4 8553600500 checks ≡ some u)
              × (2 * total * u ≤ 2000 * ok + total)
              × (2000 * ok ≤ 2 * total * u + total)
              × (u ≤ 1000))))
uptime24h-nearest_example =
    uptime24h-nearest MonitorType.tcp 4 8553600500 checks (unfold keep in omega arith)

-- Doubles, not exact quotients: 201 of 400 is 50.25 percent, and shows as 50.2; 3 of 8 as 37.5.
tenths : (rounded 201 400 ≡ 502) × (rounded 3 8 ≡ 375) × (rounded 400 400 ≡ 1000)
unfolding rounded nearest_even exponent
tenths = (refl, refl, refl)

bars-down_iff_example :
    (length (bars MonitorType.tcp 4 now checks 90) ≡ 90)
    × ((head_opt (drop 88 (bars MonitorType.tcp 4 now checks 90)) ≡ some DayState.down)
        ↔ FailedOn MonitorType.tcp 4 (day_of (now - (89 - 88) * day_ms)) checks)
bars-down_iff_example = bars-down_iff MonitorType.tcp 4 now checks 88 (omega arith) (omega arith)

current_status-projected_example :
    current_status MonitorType.tcp 4 now 60 checks
    ≡ shown now 60 (latest (λ r. r.start_time) (keep (is_of MonitorType.tcp 4) checks))
current_status-projected_example = current_status-projected MonitorType.tcp 4 now 60 checks

abbrev injected : Text
injected = codes "**<b>**"

render_incident_markdown-IsTagged_example : IsTagged (render_incident_markdown injected)
render_incident_markdown-IsTagged_example = render_incident_markdown-IsTagged injected

injected_rendered : render_incident_markdown injected ≡ codes "<p><strong>&lt;b&gt;</strong></p>"
unfolding render_incident_markdown render_block join split_blocks blank_line replace_all crlf bold
    code_span line_break run trim_start trim_end escape_html escape_char whitespace
injected_rendered = refl
