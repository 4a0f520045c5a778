-- ===== src/Transition/Runs/Rows.antt =====
-- What a browser-check run finds when it looks for the run before it
-- (src/services/transition-detector.ts, `maybeAlertOnQaRunTransition`).
use oo_workers.Prelude.{
  ℕ, ◌<◌, ◌≡◌, refl, ◌∙◌, ap, ◌⊎◌, inl, inr, Bool, true, false, ◌&&◌, List, [], ◌∷◌, Option, none,
  some, arith, All, All-imp, ◌==◌, ==_iff, opt_eq, opt_eq_sound, keep, keep-cong, keep-All,
  head_opt, head-keep, Bool-cases, Option-cases, and-true, lt→ltb,
}
use oo_workers.Text.{Text, text_eq, text_eq_sound}
use oo_workers.Db.{success, failed}
use oo_workers.Qa.{QaRun, qa_run_abandoned}
use oo_workers.Transition.Latest.{latest, latest-head}
use oo_workers.Transition.Runs.{is_verdict, is_previous_run}

-- The rows of a table in which each run started later than the next one, and the first before `n`.
abbrev pub IsPast : ℕ → List QaRun → Type 0
IsPast n [] = Unit
IsPast n (r ∷ rs) = (r.started_at < n) × IsPast r.started_at rs

IsPast-All :
    (n : ℕ) (rows : List QaRun) → IsPast n rows → All (λ (r : QaRun). r.started_at < n) rows
IsPast-All n [] h = tt
IsPast-All n (r ∷ rs) (lt, h) =
    (lt, All-imp _ _ rs (λ q le. omega arith) (IsPast-All r.started_at rs h))

latest-keep :
    (p : QaRun → Bool) (n : ℕ) (rows : List QaRun)
    → IsPast n rows
    → latest (λ r. r.started_at) (keep p rows) ≡ head_opt (keep p rows)
unfolding keep latest
latest-keep p n [] h = refl
latest-keep p n (r ∷ rs) (lt, h) = elim (Bool-cases (p r)) [
  | inl hit ↦
      rw (hit, keep)
        (latest-head (λ q. q.started_at) r (keep p rs)
          (All-imp _ _ (keep p rs) (λ q le. omega arith)
            (keep-All _ p rs (IsPast-All r.started_at rs h))))
  | inr miss ↦ rw (miss, keep) (latest-keep p r.started_at rs h)
]

-- What the program writes as an outcome: nothing yet, a verdict, or that the run was given up.
abbrev pub IsOutcome : Option Text → Type 0
IsOutcome o = (o ≡ none) ⊎ ((o ≡ some success) ⊎ ((o ≡ some failed) ⊎ (o ≡ some qa_run_abandoned)))

is_verdict-cases : (o : Option Text) → is_verdict o ≡ true → (o ≡ some success) ⊎ (o ≡ some failed)
is_verdict-cases none h = cc
is_verdict-cases (some s) h = elim (Bool-cases (text_eq s success)) [
  | inl hit ↦ inl (ap some (text_eq_sound s success hit))
  | inr miss ↦ inr (ap some (text_eq_sound s failed (rw miss at h)))
]

abbrev pub stamp : ℕ → QaRun → QaRun
stamp n r = record r { id = n; started_at = n }

and_nested : (a b c : Bool) → (a && (b && (true && c))) ≡ ((a && b) && c)
and_nested a b c = ground arith

module _ (project : ℕ) (region : Option ℕ) where
  abbrev pub is_here : QaRun → Bool
  is_here r = r.project_id == project && opt_eq r.region_id region

  abbrev pub is_mine : QaRun → Bool
  is_mine r = is_here r && is_verdict r.outcome

  abbrev bind_outcome : Option QaRun → Option Text
  bind_outcome none = none
  bind_outcome (some r) = r.outcome

  -- The newest verdict of the project in the region.
  unfoldable pub last_verdict : List QaRun → Option Text
  last_verdict rows = bind_outcome (head_opt (keep is_mine rows))

  is_previous-mine :
      (n : ℕ) (r q : QaRun)
      → r.project_id ≡ project
      → r.region_id ≡ region
      → q.started_at < n
      → is_previous_run (stamp n r) q ≡ is_mine q
  unfolding is_previous_run
  is_previous-mine n r q same_project same_region lt =
      rw (same_project, same_region, lt→ltb q.started_at n lt)
        (and_nested (q.project_id == project) (opt_eq q.region_id region) (is_verdict q.outcome))

  not_itself : (n : ℕ) (r : QaRun) → is_previous_run (stamp n r) (stamp n r) ≡ false
  unfolding is_previous_run
  not_itself n r = ground arith

  -- The run looks at exactly the older runs of its own project and region that reached a verdict.
  pub previous-eq :
      (n : ℕ) (r : QaRun) (rows : List QaRun)
      → is_here r ≡ true
      → IsPast n rows
      → latest (λ q. q.started_at) (keep (is_previous_run (stamp n r)) (stamp n r ∷ rows))
        ≡ head_opt (keep is_mine rows)
  unfolding keep
  previous-eq n r rows here h =
      let (p, g) = and-true _ _ here in
      let same_project = (==_iff r.project_id project).0 p in
      let same_region = opt_eq_sound r.region_id region g in
      rw (not_itself n r) (
        ap (latest (λ q. q.started_at)) (
          keep-cong (is_previous_run (stamp n r)) is_mine rows (
            All-imp _ _ rows (λ q lt. is_previous-mine n r q same_project same_region lt)
              (IsPast-All n rows h)))
        ∙ latest-keep is_mine n rows h)

  -- The newest verdict, if there is one, is one of the two texts.
  pub newest-cases :
      (rows : List QaRun)
      → (head_opt (keep is_mine rows) ≡ none)
        ⊎ ((q : QaRun) × (head_opt (keep is_mine rows) ≡ some q)
            × ((q.outcome ≡ some success) ⊎ (q.outcome ≡ some failed)))
  newest-cases rows = elim (Option-cases (head_opt (keep is_mine rows))) [
    | inl nothing ↦ inl nothing
    | inr (q, found) ↦
        inr (q, found, is_verdict-cases q.outcome (and-true _ _ (head-keep is_mine rows q found)).1)
  ]

  pub last-new :
      (n : ℕ) (r : QaRun) (rows : List QaRun)
      → is_mine r ≡ true
      → last_verdict (stamp n r ∷ rows) ≡ r.outcome
  unfolding last_verdict keep
  last-new n r rows mine = rw mine refl

  pub last-old :
      (n : ℕ) (r : QaRun) (rows : List QaRun)
      → is_mine r ≡ false
      → last_verdict (stamp n r ∷ rows) ≡ last_verdict rows
  unfolding last_verdict keep
  last-old n r rows not_mine = rw not_mine refl
