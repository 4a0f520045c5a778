-- ===== src/Scheduler/Slots.antt =====
-- The Redis command behind `claimDispatchSlot`: `SET key 1 EX ttl NX`, as an interface with the
-- documented behaviour of the command, and one store that has it.
use oo_workers.Prelude.{
  ℕ, ◌+◌, ◌*◌, ◌≡◌, Bool, true, false, ltb, if◌then◌else◌, Bool-cases, inl, inr,
}
use oo_workers.Text.{Text, text_eq}

-- Times are in milliseconds, the time to live in seconds.
pub record SlotStore : Type 1 where
  pub State : Type 0
  pub held : State → Text → ℕ → Bool
  pub set_nx : State → ℕ → Text → ℕ → State × Bool
  -- A key that is live is left alone, and the reply is nil.
  pub set_taken :
      (s : State) (now : ℕ) (k : Text) (ttl : ℕ)
      → held s k now ≡ true
      → set_nx s now k ttl ≡ (s, false)
  -- A key that is not live is set, and the reply is OK.
  pub set_free :
      (s : State) (now : ℕ) (k : Text) (ttl : ℕ)
      → held s k now ≡ false
      → (set_nx s now k ttl).1 ≡ true
  -- It then lives until its time is over, and no other key is touched.
  pub held_set :
      (s : State) (now : ℕ) (k : Text) (ttl : ℕ) (j : Text) (t : ℕ)
      → held s k now ≡ false
      → held (set_nx s now k ttl).0 j t
        ≡ (if text_eq k j then ltb t (now + ttl * 1000) else held s j t)

-- A store that maps each key to the time at which it ends.
abbrev pub Expiries : Type 0
Expiries = Text → ℕ

abbrev pub expiry_held : Expiries → Text → ℕ → Bool
expiry_held s k t = ltb t (s k)

abbrev pub expiry_set : Expiries → ℕ → Text → ℕ → Expiries × Bool
expiry_set s now k ttl =
    if ltb now (s k) then (s, false) else (λ j. if text_eq k j then now + ttl * 1000 else s j, true)

pub expiry_taken :
    (s : Expiries) (now : ℕ) (k : Text) (ttl : ℕ)
    → expiry_held s k now ≡ true
    → expiry_set s now k ttl ≡ (s, false)
expiry_taken s now k ttl h = rw h

pub expiry_free :
    (s : Expiries) (now : ℕ) (k : Text) (ttl : ℕ)
    → expiry_held s k now ≡ false
    → (expiry_set s now k ttl).1 ≡ true
expiry_free s now k ttl h = rw h

pub expiry_held_set :
    (s : Expiries) (now : ℕ) (k : Text) (ttl : ℕ) (j : Text) (t : ℕ)
    → expiry_held s k now ≡ false
    → expiry_held (expiry_set s now k ttl).0 j t
      ≡ (if text_eq k j then ltb t (now + ttl * 1000) else expiry_held s j t)
expiry_held_set s now k ttl j t h =
    rw h (elim (Bool-cases (text_eq k j)) [ inl same ↦ rw same | inr other ↦ rw other ])

abbrev pub expiring : SlotStore
expiring = record {
  State = Expiries;
  held = expiry_held;
  set_nx = expiry_set;
  set_taken = expiry_taken;
  set_free = expiry_free;
  held_set = expiry_held_set;
}
