-- ===== src/Scheduler/Once.antt =====
-- At most one dispatch of a monitor for each interval bucket and region (src/scheduler.ts).
use native.Mathlib.Nat.{div-add-mod, mod-lt}
use oo_workers.Prelude.{
  ℕ, ◌+◌, ◌*◌, ◌/◌, ◌≤◌, ◌<◌, ◌≡◌, refl, sym, ap, ◌∙◌, Bool, true, false, ◌&&◌, List, [], ◌∷◌,
  arith, max, if◌then◌else◌, Bool-cases, inl, inr, All, lt→ltb, and-true,
}
use oo_workers.Text.{Text, text_eq, text_eq_sound}
use oo_workers.Scheduler.Slots.{SlotStore}
use oo_workers.Scheduler.Dispatch.{Env, claim_dispatch_slot}

-- Two times in one bucket are less than a bucket apart.
pub bucket_width : (m t n : ℕ) → 0 < m → t / m ≡ n / m → t < n + m
bucket_width m t n h e =
    omega (arith, div-add-mod t m, div-add-mod n m, mod-lt t h, mod-lt n h, ap (λ (q : ℕ). m * q) e)

-- A claim that some scheduler makes, with what it is given at that time.
pub record Claim : Type 0 where
  pub env : Env
  pub key : Text
  pub ttl_seconds : ℕ

module _ (R : SlotStore) (k : Text) (interval bucket : ℕ) where
  -- The slot is held for the whole of its bucket.
  abbrev pub Covers : R.State → Type 0
  Covers s = (t : ℕ) → t / (interval * 1000) ≡ bucket → R.held s k t ≡ true

  -- Redis answers, and a claim of this slot is made in the slot's bucket, for the interval.
  abbrev pub InBucket : Claim → Type 0
  InBucket c =
      (c.env.claim_throws c.key ≡ false)
      × (text_eq c.key k ≡ true
          → (c.ttl_seconds ≡ interval) × (c.env.now / (interval * 1000) ≡ bucket))

  -- How many of the claims of the slot are won.
  pub wins : List Claim → R.State → ℕ
  wins [] s = 0
  wins (c ∷ cs) s =
      let (s', won) = claim_dispatch_slot R c.env s c.key c.ttl_seconds in
      (if text_eq c.key k && won then 1 else 0) + wins cs s'

  pub set-Covers :
      (s : R.State) (now : ℕ) (key : Text) (ttl : ℕ)
      → (text_eq key k ≡ true → now / (interval * 1000) ≡ bucket)
      → Covers s
      → Covers (R.set_nx s now key ttl).0 × ((text_eq key k && (R.set_nx s now key ttl).1) ≡ false)
  set-Covers s now key ttl here v = elim (Bool-cases (R.held s key now)) [
    | inl taken ↦ rw (R.set_taken s now key ttl taken) (v, ground arith)
    | inr free ↦
        let other : text_eq key k ≡ false = other_key free in
        (λ t e. R.held_set s now key ttl k t free ∙ rw other (v t e), rw other refl)
  ]
    where
      other_key : R.held s key now ≡ false → text_eq key k ≡ false
      other_key free = elim (Bool-cases (text_eq key k)) [
        | inl same ↦ cc (free, v now (here same), text_eq_sound key k same)
        | inr other ↦ other
      ]

  pub set_win-Covers :
      (s : R.State) (now : ℕ) (key : Text) (ttl : ℕ)
      → 1 ≤ interval
      → ttl ≡ interval
      → now / (interval * 1000) ≡ bucket
      → text_eq key k ≡ true
      → (R.set_nx s now key (max 1 ttl)).1 ≡ true
      → Covers (R.set_nx s now key (max 1 ttl)).0
  set_win-Covers s now key ttl pos long here same won t e = elim (Bool-cases (R.held s key now)) [
    | inl taken ↦
        cc (won, ap (λ (r : R.State × Bool). r.1) (R.set_taken s now key (max 1 ttl) taken))
    | inr free ↦
        R.held_set s now key (max 1 ttl) k t free
        ∙ rw same (
            lt→ltb t _ (
              omega
                (arith, bucket_width (interval * 1000) t now (omega arith) (e ∙ sym here), long)))
  ]

  claim-Covers :
      (c : Claim) (s : R.State)
      → InBucket c
      → Covers s
      → Covers (claim_dispatch_slot R c.env s c.key c.ttl_seconds).0
        × ((text_eq c.key k && (claim_dispatch_slot R c.env s c.key c.ttl_seconds).1) ≡ false)
  unfolding claim_dispatch_slot
  claim-Covers c s h v =
      rw h.0 (set-Covers s c.env.now c.key (max 1 c.ttl_seconds) (λ same. (h.1 same).1) v)

  wins-Covers : (cs : List Claim) (s : R.State) → All InBucket cs → Covers s → wins cs s ≡ 0
  unfolding wins
  wins-Covers [] s h v = refl
  wins-Covers (c ∷ cs) s (h, hs) v =
      let (v', lost) = claim-Covers c s h v in rw lost (omega (arith, wins-Covers cs _ hs v'))

  claim_win-Covers :
      (c : Claim) (s : R.State)
      → 1 ≤ interval
      → InBucket c
      → (text_eq c.key k && (claim_dispatch_slot R c.env s c.key c.ttl_seconds).1) ≡ true
      → Covers (claim_dispatch_slot R c.env s c.key c.ttl_seconds).0
  unfolding claim_dispatch_slot
  claim_win-Covers c s pos h won =
      let (same, ok) = and-true _ _ won in
      rw h.0 (
        set_win-Covers s c.env.now c.key c.ttl_seconds pos (h.1 same).0 (h.1 same).1 same
          (rw h.0 at ok))

  -- If the interval is at least 1, Redis answers, and every claim of a slot is made within the slot's
  -- bucket and for the interval, then the slot is won at most once, whoever claims what and in
  -- whatever order.
  pub wins-le-one : (cs : List Claim) (s : R.State) → 1 ≤ interval → All InBucket cs → wins cs s ≤ 1
  unfolding wins
  wins-le-one [] s pos h = omega arith
  wins-le-one (c ∷ cs) s pos (h, hs) =
      elim (Bool-cases (text_eq c.key k && (claim_dispatch_slot R c.env s c.key c.ttl_seconds).1)) [
        | inl won ↦ rw won (omega (arith, wins-Covers cs _ hs (claim_win-Covers c s pos h won)))
        | inr lost ↦ rw lost (omega (arith, wins-le-one cs _ pos hs))
      ]
