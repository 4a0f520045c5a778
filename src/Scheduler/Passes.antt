-- ===== src/Scheduler/Passes.antt =====
-- A second pass over a monitor in the same bucket (src/scheduler.ts), such as that of an
-- overlapping tick or of another scheduler that read the same due row.
use oo_workers.Prelude.{
  ℕ, ◌≤◌, ◌≡◌, refl, ◌∙◌, false, List, [], ◌∷◌, arith, max, ◌⊎◌, Bool-cases, inl, inr, All, All-imp,
}
use oo_workers.Text.{Text, text_eq, text_eq_sound, text_eq_refl}
use oo_workers.Db.{MonitorType}
use oo_workers.Scheduler.Slots.{SlotStore}
use oo_workers.Scheduler.Keys.{FanOutTarget, dispatch_slot_key}
use oo_workers.Scheduler.Dispatch.{
  Body, Env, World, claim_dispatch_slot, fan_out_targets, dispatch_or_mark_failed, dispatch,
  create_execution,
}
use oo_workers.Scheduler.Ticks.{Due, bucket_of, launch, visit, visit_all, too_young, tick_one}
use oo_workers.Scheduler.Once.{Covers, set-Covers, set_win-Covers}

module _ (R : SlotStore) (kind : MonitorType) (queue : Text) (id interval bucket : ℕ)
    (body : Body) where
  abbrev key : FanOutTarget → Text
  key t = dispatch_slot_key kind id bucket t.region_id

  abbrev IsCovered : World R → FanOutTarget → Type 0
  IsCovered w t = Covers R (key t) interval bucket w.slots

  module _ (env : Env) (here : bucket_of env.now interval ≡ bucket)
      (quiet : (k : Text) → env.claim_throws k ≡ false) where
    launch-slots :
        (b : ℕ) (t : FanOutTarget) (w : World R)
        → (launch R env kind queue id b body t w).slots ≡ w.slots
    unfolding launch dispatch_or_mark_failed dispatch create_execution
    launch-slots b t w = ground arith

    visit_of_IsCovered :
        (t : FanOutTarget) (w : World R)
        → IsCovered w t
        → visit R env kind queue id interval body t w ≡ w
    unfolding visit claim_dispatch_slot
    visit_of_IsCovered t w v =
        rw
          (
            here,
            quiet (key t),
            R.set_taken w.slots env.now (key t) (max 1 interval) (v env.now here),
          )
          refl

    visit-slots :
        (t : FanOutTarget) (w : World R)
        → (visit R env kind queue id interval body t w).slots
          ≡ (R.set_nx w.slots env.now (key t) (max 1 interval)).0
    unfolding visit claim_dispatch_slot
    visit-slots t w =
        rw (here, quiet (key t))
          (elim (Bool-cases (R.set_nx w.slots env.now (key t) (max 1 interval)).1) [
            | inl won ↦ rw won (launch-slots bucket t _)
            | inr lost ↦ rw lost refl
          ])

    -- Before the pass a slot is free, or it is held for the whole bucket.
    abbrev IsReady : World R → FanOutTarget → Type 0
    IsReady w t = IsCovered w t ⊎ (R.held w.slots (key t) env.now ≡ false)

    visit-IsCovered :
        (t u : FanOutTarget) (w : World R)
        → IsCovered w t
        → IsCovered (visit R env kind queue id interval body u w) t
    visit-IsCovered t u w v =
        rw (visit-slots u w)
          (set-Covers R (key t) interval bucket w.slots env.now (key u) (max 1 interval) (λ _. here)
            v).0

    visit_self-IsCovered :
        (t : FanOutTarget) (w : World R)
        → 1 ≤ interval
        → IsReady w t
        → IsCovered (visit R env kind queue id interval body t w) t
    visit_self-IsCovered t w pos (inl v) = visit-IsCovered t t w v
    visit_self-IsCovered t w pos (inr free) = rw (visit-slots t w) (
        set_win-Covers R (key t) interval bucket w.slots env.now (key t) interval pos refl here
          (text_eq_refl (key t)) (R.set_free w.slots env.now (key t) (max 1 interval) free))

    visit-IsReady :
        (t u : FanOutTarget) (w : World R)
        → 1 ≤ interval
        → IsReady w u
        → IsReady w t
        → IsReady (visit R env kind queue id interval body u w) t
    visit-IsReady t u w pos ru (inl v) = inl (visit-IsCovered t u w v)
    visit-IsReady t u w pos (inl v) (inr free) = inr (rw (visit_of_IsCovered u w v) free)
    visit-IsReady t u w pos (inr free_u) (inr free) = elim (Bool-cases (text_eq (key u) (key t))) [
      | inl same ↦
          inl
            (rw (← text_eq_sound (key u) (key t) same) (visit_self-IsCovered u w pos (inr free_u)))
      | inr other ↦ inr (
          rw (visit-slots u w) (
            R.held_set w.slots env.now (key u) (max 1 interval) (key t) env.now free_u
            ∙ rw other free))
    ]

    visit_all-IsCovered :
        (ts us : List FanOutTarget) (w : World R)
        → 1 ≤ interval
        → All (IsReady w) ts
        → All (IsCovered w) us
        → All (IsCovered (visit_all R env kind queue id interval body ts w)) us
          × All (IsCovered (visit_all R env kind queue id interval body ts w)) ts
    unfolding visit_all
    visit_all-IsCovered [] us w pos r v = (v, tt)
    visit_all-IsCovered (t ∷ ts) us w pos (r, rs) v =
        let w' = visit R env kind queue id interval body t w in
        let (old, new) =
          visit_all-IsCovered ts (t ∷ us) w' pos
            (All-imp _ _ ts (λ u. visit-IsReady u t w pos r) rs)
            (visit_self-IsCovered t w pos r, All-imp _ _ us (λ u. visit-IsCovered u t w) v) in
        (old.1, (old.0, new))

    visit_all_of_IsCovered :
        (ts : List FanOutTarget) (w : World R)
        → All (IsCovered w) ts
        → visit_all R env kind queue id interval body ts w ≡ w
    unfolding visit_all
    visit_all_of_IsCovered [] w v = refl
    visit_all_of_IsCovered (t ∷ ts) w (v, vs) =
        rw (visit_of_IsCovered t w v) (visit_all_of_IsCovered ts w vs)

module _ (R : SlotStore) {F : Type 0} (kind : MonitorType) (queue : Text)
    (body₁ body₂ : Due F → Body) where
  -- A second pass over the same due row in the same bucket changes nothing at all: no row, no job.
  -- The two passes may be of different schedulers; Redis answers both, the monitor has the same
  -- regions in both, and each of its slots was free before the first pass, or held for the bucket.
  pub tick_one-again :
      (first second : Env) (m : Due F) (w : World R)
      → 1 ≤ m.interval_seconds
      → bucket_of second.now m.interval_seconds ≡ bucket_of first.now m.interval_seconds
      → ((k : Text) → first.claim_throws k ≡ false)
      → ((k : Text) → second.claim_throws k ≡ false)
      → second.targets kind m.id ≡ first.targets kind m.id
      → All
          (λ t.
            Covers R
              (dispatch_slot_key kind m.id (bucket_of first.now m.interval_seconds) t.region_id)
              m.interval_seconds
              (bucket_of first.now m.interval_seconds)
              w.slots
            ⊎ (R.held w.slots
                  (dispatch_slot_key kind m.id (bucket_of first.now m.interval_seconds) t.region_id)
                  first.now
                ≡ false))
          (fan_out_targets (first.targets kind m.id))
      → tick_one R second kind queue body₂ m (tick_one R first kind queue body₁ m w)
        ≡ tick_one R first kind queue body₁ m w
  unfolding tick_one
  tick_one-again first second m w pos same quiet quiet' targets ready =
      elim (Bool-cases (too_young m.age_seconds m.interval_seconds)) [
        | inl young ↦ rw young refl
        | inr old ↦
            rw (old, targets)
              (visit_all_of_IsCovered R kind queue m.id m.interval_seconds
                (bucket_of first.now m.interval_seconds) (body₂ m) second same quiet'
                (fan_out_targets (first.targets kind m.id)) _
                (visit_all-IsCovered R kind queue m.id m.interval_seconds
                  (bucket_of first.now m.interval_seconds) (body₁ m) first refl quiet
                  (fan_out_targets (first.targets kind m.id)) [] w pos ready tt).1)
      ]
