-- ===== src/StatusPage/Overall.antt =====
-- The banner of the page (src/services/status-page-aggregator.ts, `summarizeStatusPage`).
use oo_workers.Prelude.{
  suc, ◌<◌, ◌≡◌, refl, Bool, true, false, ◌&&◌, ◌↔◌, ◌⊎◌, List, [], ◌∷◌, arith, ltb, all, any, All,
  All-imp, all-All, All-all, length, if◌then◌else◌, Bool-cases, inl, inr, and-true, ltb→lt, lt→ltb,
}
use oo_workers.StatusPage.{
  DayState, OverallStatus, is_state_up, is_state_down, is_state_unknown, overall,
}

-- Some monitor of the list is down.
abbrev pub SomeDown : List DayState → Type 0
SomeDown [] = ⊥
SomeDown (s ∷ ss) = (s ≡ DayState.down) ⊎ SomeDown ss

down_sound : (s : DayState) → is_state_down s ≡ true → s ≡ DayState.down
down_sound DayState.down h = refl
down_sound DayState.up h = cc
down_sound DayState.unknown h = cc

unknown_sound : (s : DayState) → is_state_unknown s ≡ true → s ≡ DayState.unknown
unknown_sound DayState.unknown h = refl
unknown_sound DayState.up h = cc
unknown_sound DayState.down h = cc

up_sound : (s : DayState) → is_state_up s ≡ true → s ≡ DayState.up
up_sound DayState.up h = refl
up_sound DayState.unknown h = cc
up_sound DayState.down h = cc

any-SomeDown : (ss : List DayState) → any is_state_down ss ≡ true → SomeDown ss
unfolding any
any-SomeDown [] h = absurd (ground arith)
any-SomeDown (s ∷ ss) h = elim (Bool-cases (is_state_down s)) [
  | inl hit ↦ inl (down_sound s hit)
  | inr miss ↦ inr (any-SomeDown ss (rw miss at h))
]

SomeDown-any : (ss : List DayState) → SomeDown ss → any is_state_down ss ≡ true
unfolding any
SomeDown-any [] h = absurd h
SomeDown-any (s ∷ ss) (inl e) = rw e refl
SomeDown-any (s ∷ ss) (inr h) = rw (SomeDown-any ss h) (ground arith)

none_down :
    (p : DayState → Bool) (ss : List DayState)
    → ((s : DayState) → p s ≡ true → is_state_down s ≡ false)
    → all p ss ≡ true
    → any is_state_down ss ≡ false
unfolding all any
none_down p [] k h = refl
none_down p (s ∷ ss) k h = let (hit, rest) = and-true _ _ h in rw (k s hit) (none_down p ss k rest)

-- The banner by its three tests.
abbrev pick : Bool → Bool → Bool → OverallStatus
pick d u p =
    if d
    then OverallStatus.down
    else if u
    then OverallStatus.unknown
    else if p
    then OverallStatus.up
    else OverallStatus.degraded

picked_down : (d u p : Bool) → pick d u p ≡ OverallStatus.down → d ≡ true
picked_down true u p e = refl
picked_down false true p e = cc
picked_down false false true e = cc
picked_down false false false e = cc

picked_unknown : (d u p : Bool) → pick d u p ≡ OverallStatus.unknown → u ≡ true
picked_unknown true u p e = cc
picked_unknown false true p e = refl
picked_unknown false false true e = cc
picked_unknown false false false e = cc

picked_up : (d u p : Bool) → pick d u p ≡ OverallStatus.up → p ≡ true
picked_up true u p e = cc
picked_up false true p e = cc
picked_up false false true e = refl
picked_up false false false e = cc

abbrev every_up : List DayState → Bool
every_up ss = ltb 0 (length ss) && all is_state_up ss

not_all_unknown : (ss : List DayState) → every_up ss ≡ true → all is_state_unknown ss ≡ false
unfolding all
not_all_unknown [] h = absurd (ground (arith, h))
not_all_unknown (DayState.up ∷ ss) h = refl
not_all_unknown (DayState.down ∷ ss) h = refl
not_all_unknown (DayState.unknown ∷ ss) h = cc ((and-true (ltb 0 (suc (length ss))) false h).1)

up_not_down : (s : DayState) → is_state_up s ≡ true → is_state_down s ≡ false
up_not_down s h = rw (up_sound s h) refl

unknown_not_down : (s : DayState) → is_state_unknown s ≡ true → is_state_down s ≡ false
unknown_not_down s h = rw (unknown_sound s h) refl

-- The banner is `down` exactly if some monitor is down, `unknown` exactly if every monitor is
-- unknown (or there is none), and `up` exactly if there is a monitor and every one is up; what
-- remains is `degraded`.
pub overall_iff :
    (ss : List DayState)
    → ((overall ss ≡ OverallStatus.down) ↔ SomeDown ss)
      × ((overall ss ≡ OverallStatus.unknown) ↔ All (λ s. s ≡ DayState.unknown) ss)
      × ((overall ss ≡ OverallStatus.up) ↔ ((0 < length ss) × All (λ s. s ≡ DayState.up) ss))
unfolding overall
overall_iff ss = (
  (
    λ e.
        any-SomeDown ss
          (picked_down (any is_state_down ss) (all is_state_unknown ss) (every_up ss) e),
    λ h. rw (SomeDown-any ss h) refl,
  ),
  (
    λ e. All-imp _ _ ss unknown_sound (
        all-All is_state_unknown ss
          (picked_unknown (any is_state_down ss) (all is_state_unknown ss) (every_up ss) e)),
    λ h.
        let every = All-all is_state_unknown ss (All-imp _ _ ss (λ s e. rw e refl) h) in
        rw (none_down is_state_unknown ss unknown_not_down every, every) refl,
  ),
  (
    λ e.
        let (some_monitor, every) =
          and-true (ltb 0 (length ss)) (all is_state_up ss)
            (picked_up (any is_state_down ss) (all is_state_unknown ss) (every_up ss) e) in
        (ltb→lt 0 (length ss) some_monitor, All-imp _ _ ss up_sound (all-All is_state_up ss every)),
    λ (pos, h).
        let every = All-all is_state_up ss (All-imp _ _ ss (λ s e. rw e refl) h) in
        let all_up : every_up ss ≡ true = rw (lt→ltb 0 (length ss) pos, every) refl in
        rw (none_down is_state_up ss up_not_down every, not_all_unknown ss all_up, all_up) refl,
  ),
)
