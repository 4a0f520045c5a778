-- ===== src/Scheduler/Accounting.antt =====
-- No execution row is left waiting for a job that was never placed (src/scheduler.ts).
use oo_workers.Prelude.{
  ℕ, ◌≡◌, refl, Bool, true, false, ◌&&◌, List, [], ◌∷◌, arith, ◌⊎◌, Option, none, some, any, ◌==◌,
  opt_eq, ap, ==_iff, Bool-cases, Option-cases, inl, inr, All, All-imp, map,
}
use oo_workers.Text.{Text, codes, text_eq, text_eq_iff}
use oo_workers.Db.{MonitorType, type_eq, type_index, Exec, update_where, is_row, pending}
use oo_workers.Scheduler.Slots.{SlotStore}
use oo_workers.Scheduler.Keys.{FanOutTarget, build_job_id, dispatch_slot_key, regional_list_key}
use oo_workers.Scheduler.Dispatch.{
  Body, Env, World, QueueAdd, JobPayload, claim_dispatch_slot, fan_out_targets,
  dispatch_or_mark_failed, dispatch, create_execution, mark_failed,
}
use oo_workers.Scheduler.Ticks.{
  Due, bucket_of, launch, visit, visit_all, too_young, tick_one, tick_rows, UrlFields, ApiFields,
  TcpFields, UdpFields, DbFields, TlsFields, tick_url_monitors, tick_api_checks, tick_tcp_monitors,
  tick_udp_monitors, tick_db_monitors, tick_tls_monitors,
}

-- The BullMQ queue of each kind.
abbrev pub queue_of : MonitorType → Text
queue_of MonitorType.url = codes "url-monitor"
queue_of MonitorType.api = codes "api-check"
queue_of MonitorType.tcp = codes "tcp-monitor"
queue_of MonitorType.udp = codes "udp-monitor"
queue_of MonitorType.qa = codes "qa-project"
queue_of MonitorType.db = codes "db-monitor"
queue_of MonitorType.tls = codes "tls-monitor"
queue_of MonitorType.heartbeat = []

-- The job of a row: in the queue of its kind for a row of the master; in the list of its region,
-- with its kind and region, for a row of a region.
pub placed_among :
    (ℕ → Text) → List QueueAdd → List (Text × JobPayload) → MonitorType → ℕ → Option ℕ → Bool
placed_among slug_of added pushed kind id none =
    any (λ q. text_eq q.queue (queue_of kind) && q.execution_id == id) added
placed_among slug_of added pushed kind id (some region) =
    any
      (λ p.
        text_eq p.0 (regional_list_key (slug_of region))
        && (type_eq p.1.type kind
            && (p.1.execution_id == id && opt_eq p.1.region_id (some region))))
      pushed

abbrev pub IsPlaced : (ℕ → Text) → List QueueAdd → List (Text × JobPayload) → Exec → Type 0
IsPlaced slug_of added pushed r =
    text_eq r.status pending ≡ true
    → placed_among slug_of added pushed r.kind r.id r.region_id ≡ true

-- Every row that waits has its job placed.
abbrev pub IsAccounted : (ℕ → Text) → {R : SlotStore} → World R → Type 0
IsAccounted slug_of w = All (IsPlaced slug_of w.added w.pushed) w.rows

module _ (slug_of : ℕ → Text) (added : List QueueAdd) (pushed : List (Text × JobPayload)) where
  placed_add :
      (q : QueueAdd) (kind : MonitorType) (id : ℕ) (g : Option ℕ)
      → placed_among slug_of added pushed kind id g ≡ true
      → placed_among slug_of (q ∷ added) pushed kind id g ≡ true
  unfolding placed_among any
  placed_add q kind id none h = ground arith
  placed_add q kind id (some g) h = h

  placed_push :
      (p : Text × JobPayload) (kind : MonitorType) (id : ℕ) (g : Option ℕ)
      → placed_among slug_of added pushed kind id g ≡ true
      → placed_among slug_of added (p ∷ pushed) kind id g ≡ true
  unfolding placed_among any
  placed_push p kind id none h = h
  placed_push p kind id (some g) h = ground arith

  placed_add_new :
      (q : QueueAdd) (kind : MonitorType) (id : ℕ)
      → q.queue ≡ queue_of kind
      → q.execution_id ≡ id
      → placed_among slug_of (q ∷ added) pushed kind id none ≡ true
  unfolding placed_among any
  placed_add_new q kind id e f =
      ground (arith, (text_eq_iff q.queue (queue_of kind)).1 e, (==_iff q.execution_id id).1 f)

  placed_push_new :
      (p : Text × JobPayload) (kind : MonitorType) (id g : ℕ)
      → p.0 ≡ regional_list_key (slug_of g)
      → p.1.type ≡ kind
      → p.1.execution_id ≡ id
      → p.1.region_id ≡ some g
      → placed_among slug_of added (p ∷ pushed) kind id (some g) ≡ true
  unfolding placed_among any
  placed_push_new p kind id g k t e f = ground (
    arith,
    (text_eq_iff p.0 (regional_list_key (slug_of g))).1 k,
    (==_iff p.1.execution_id id).1 e,
    ap type_index t,
    f,
  )

  mark-IsAccounted :
      (kind : MonitorType) (id : ℕ) (f : Exec → Exec) (rows : List Exec)
      → ((r : Exec) → text_eq (f r).status pending ≡ false)
      → All (IsPlaced slug_of added pushed) rows
      → All (IsPlaced slug_of added pushed) (update_where (is_row kind id) f rows)
  unfolding update_where
  mark-IsAccounted kind id f [] dead h = tt
  mark-IsAccounted kind id f (r ∷ rows) dead (p, h) = elim (Bool-cases (is_row kind id r)) [
    | inl same ↦ rw same ((λ e. cc (e, dead r)), mark-IsAccounted kind id f rows dead h)
    | inr other ↦ rw other (p, mark-IsAccounted kind id f rows dead h)
  ]

  mark_new-IsAccounted :
      (kind : MonitorType) (f : Exec → Exec) (new : Exec) (rows : List Exec)
      → new.kind ≡ kind
      → ((r : Exec) → text_eq (f r).status pending ≡ false)
      → All (IsPlaced slug_of added pushed) rows
      → All (IsPlaced slug_of added pushed) (update_where (is_row kind new.id) f (new ∷ rows))
  unfolding update_where
  mark_new-IsAccounted kind f new rows same dead h =
      let hit : is_row kind new.id new ≡ true = ground (arith, same) in
      rw hit ((λ e. cc (e, dead new)), mark-IsAccounted kind new.id f rows dead h)

module _ (slug_of : ℕ → Text) where
  abbrev IsConsistent : FanOutTarget → Type 0
  IsConsistent t =
      ((t.region_id ≡ none) × (t.region_slug ≡ none))
      ⊎ ((g : ℕ) × (t.region_id ≡ some g) × (t.region_slug ≡ some (slug_of g)))

  -- The rows name the regions by their slugs.
  abbrev pub IsNamed : List (ℕ × Text) → Type 0
  IsNamed rows = All (λ (q : ℕ × Text). q.1 ≡ slug_of q.0) rows

  regions-IsConsistent :
      (rows : List (ℕ × Text))
      → IsNamed rows
      → All IsConsistent
          (map (λ (q : ℕ × Text). record { region_id = some q.0; region_slug = some q.1 }) rows)
  regions-IsConsistent [] h = tt
  regions-IsConsistent ((g, s) ∷ rows) (e, h) =
      (inr (g, refl, ap some e), regions-IsConsistent rows h)

  fan_out_targets-IsConsistent :
      (rows : List (ℕ × Text)) → IsNamed rows → All IsConsistent (fan_out_targets rows)
  unfolding fan_out_targets
  fan_out_targets-IsConsistent [] h = (inl (refl, refl), tt)
  fan_out_targets-IsConsistent (r ∷ rows) h = regions-IsConsistent (r ∷ rows) h

module _ (R : SlotStore) (env : Env) (slug_of : ℕ → Text)
    (named : (kind : MonitorType) (id : ℕ) → IsNamed slug_of (env.targets kind id))
    (new_jobs : (queue id : Text) → env.job_exists queue id ≡ false)
    (marks : (id : ℕ) → env.mark_throws id ≡ false) (kind : MonitorType) where
  launch-IsAccounted :
      (id b : ℕ) (body : Body) (t : FanOutTarget) (w : World R)
      → IsConsistent slug_of t
      → IsAccounted slug_of w
      → IsAccounted slug_of (launch R env kind (queue_of kind) id b body t w)
  unfolding launch dispatch_or_mark_failed dispatch create_execution mark_failed
  launch-IsAccounted id b body t w c h =
      let job = build_job_id kind id b t env.nonce in
      elim (Option-cases (env.dispatch_throws job)) [
        | inr (message, bad) ↦
            rw (bad, launch, marks w.next_id)
              (mark_new-IsAccounted slug_of w.added w.pushed kind _ _ w.rows refl (λ r. refl) h)
        | inl fine ↦ elim c [
          | inl (no_id, no_slug) ↦
              let t' : FanOutTarget = record { region_id = t.region_id; region_slug = none } in
              rw
                (
                  fine,
                  no_slug,
                  launch,
                  new_jobs (queue_of kind) (build_job_id kind id b t' env.nonce),
                )
                (
                  λ e.
                      rw no_id (placed_add_new slug_of w.added w.pushed _ kind w.next_id refl refl),
                  All-imp _ _ w.rows
                      (λ r p e. placed_add slug_of w.added w.pushed _ r.kind r.id r.region_id (p e))
                      h,
                )
          | inr (g, an_id, a_slug) ↦
              rw (fine, a_slug, launch)
                (
                  λ e. rw an_id (
                      placed_push_new slug_of w.added w.pushed _ kind w.next_id g refl refl refl
                        refl),
                  All-imp _ _ w.rows
                      (λ r p e.
                        placed_push slug_of w.added w.pushed _ r.kind r.id r.region_id (p e))
                      h,
                )
        ]
      ]

  visit-IsAccounted :
      (id interval : ℕ) (body : Body) (t : FanOutTarget) (w : World R)
      → IsConsistent slug_of t
      → IsAccounted slug_of w
      → IsAccounted slug_of (visit R env kind (queue_of kind) id interval body t w)
  unfolding visit
  visit-IsAccounted id interval body t w c h =
      elim (Bool-cases
        (claim_dispatch_slot R env w.slots
          (dispatch_slot_key kind id (bucket_of env.now interval) t.region_id) interval).1) [
            | inl won ↦ rw (won, visit) (launch-IsAccounted id _ body t _ c h)
            | inr lost ↦ rw (lost, visit) h
          ]

  visit_all-IsAccounted :
      (id interval : ℕ) (body : Body) (ts : List FanOutTarget) (w : World R)
      → All (IsConsistent slug_of) ts
      → IsAccounted slug_of w
      → IsAccounted slug_of (visit_all R env kind (queue_of kind) id interval body ts w)
  unfolding visit_all
  visit_all-IsAccounted id interval body [] w c h = h
  visit_all-IsAccounted id interval body (t ∷ ts) w (c, cs) h =
      visit_all-IsAccounted id interval body ts _ cs (visit-IsAccounted id interval body t w c h)

  module _ {F : Type 0} (body_of : Due F → Body) where
    tick_one-IsAccounted :
        (m : Due F) (w : World R)
        → IsAccounted slug_of w
        → IsAccounted slug_of (tick_one R env kind (queue_of kind) body_of m w)
    unfolding tick_one
    tick_one-IsAccounted m w h = elim (Bool-cases (too_young m.age_seconds m.interval_seconds)) [
      | inl young ↦ rw (young, tick_one) h
      | inr old ↦
          rw (old, tick_one)
            (visit_all-IsAccounted m.id m.interval_seconds (body_of m) _ w
              (fan_out_targets-IsConsistent slug_of (env.targets kind m.id) (named kind m.id)) h)
    ]

    tick_rows-IsAccounted :
        (due : List (Due F)) (w : World R)
        → IsAccounted slug_of w
        → IsAccounted slug_of (tick_rows R env kind (queue_of kind) body_of due w)
    unfolding tick_rows
    tick_rows-IsAccounted [] w h = h
    tick_rows-IsAccounted (m ∷ due) w h = tick_rows-IsAccounted due _ (tick_one-IsAccounted m w h)

-- A pass over the due monitors of each kind with execution rows keeps the job of every waiting row
-- placed, whichever dispatches throw: in the queue of the row's kind for the master, and for a region
-- in the list of its slug, with the row's kind and region. The regions of the monitors go by their
-- slugs, BullMQ holds no job of the same id yet, and the row of a failed dispatch can be updated.
pub ticks-IsAccounted :
    (R : SlotStore) (env : Env) (slug_of : ℕ → Text)
    → ((kind : MonitorType) (id : ℕ) → IsNamed slug_of (env.targets kind id))
    → ((queue id : Text) → env.job_exists queue id ≡ false)
    → ((id : ℕ) → env.mark_throws id ≡ false)
    → (w : World R) → IsAccounted slug_of w
    → ((due : List (Due UrlFields)) → IsAccounted slug_of (tick_url_monitors R env due w))
      × ((due : List (Due ApiFields)) → IsAccounted slug_of (tick_api_checks R env due w))
      × ((due : List (Due TcpFields)) → IsAccounted slug_of (tick_tcp_monitors R env due w))
      × ((due : List (Due UdpFields)) → IsAccounted slug_of (tick_udp_monitors R env due w))
      × ((due : List (Due DbFields)) → IsAccounted slug_of (tick_db_monitors R env due w))
      × ((due : List (Due TlsFields)) → IsAccounted slug_of (tick_tls_monitors R env due w))
unfolding tick_url_monitors tick_api_checks tick_tcp_monitors tick_udp_monitors tick_db_monitors
    tick_tls_monitors
ticks-IsAccounted R env slug_of named new_jobs marks w h = (
  (λ due. tick_rows-IsAccounted R env slug_of named new_jobs marks MonitorType.url _ due w h),
  (λ due. tick_rows-IsAccounted R env slug_of named new_jobs marks MonitorType.api _ due w h),
  (λ due. tick_rows-IsAccounted R env slug_of named new_jobs marks MonitorType.tcp _ due w h),
  (λ due. tick_rows-IsAccounted R env slug_of named new_jobs marks MonitorType.udp _ due w h),
  (λ due. tick_rows-IsAccounted R env slug_of named new_jobs marks MonitorType.db _ due w h),
  (λ due. tick_rows-IsAccounted R env slug_of named new_jobs marks MonitorType.tls _ due w h),
)
