-- ===== src/Heartbeat/Rows.antt =====
-- The table of heartbeats as its primary key and its unique column see it
-- (src/db/schema.ts, `heartbeatMonitors`).
use oo_workers.Prelude.{
  ℕ, ◌≡◌, refl, ◌≢◌, sym, ◌∙◌, ap, subst, Bool, true, List, [], ◌∷◌, Option, none, some, All,
  All-imp, ◌==◌, ==_iff, ==_refl, ==_ne, if◌then◌else◌, head_opt, keep, keep-All, modify,
  Bool-cases, inl, inr, and-true,
}
use mathlib.Core.Option.{some-injective}
use oo_workers.Text.{Text, text_eq_sound}
use oo_workers.Heartbeat.{Heartbeat, answers, is_markable, is_up}

-- Ids and tokens are unique.
abbrev pub Differs : Heartbeat → Heartbeat → Type 0
Differs r q = (q.id ≢ r.id) × (q.token ≢ r.token)

abbrev pub IsTable : List Heartbeat → Type 0
IsTable [] = Unit
IsTable (r ∷ rs) = All (Differs r) rs × IsTable rs

unfoldable pub find_row : ℕ → List Heartbeat → Option Heartbeat
find_row i [] = none
find_row i (r ∷ rs) = if r.id == i then some r else find_row i rs

abbrev pub changed :
    (Heartbeat → Bool) → (Heartbeat → Heartbeat) → Option Heartbeat → Option Heartbeat
changed p f none = none
changed p f (some r) = some (if p r then f r else r)

module _ (p : Heartbeat → Bool) (f : Heartbeat → Heartbeat)
    (ids : (r : Heartbeat) → (f r).id ≡ r.id)
    (tokens : (r : Heartbeat) → (f r).token ≡ r.token) where
  modify-Differs :
      (r : Heartbeat) (rs : List Heartbeat) → All (Differs r) rs → All (Differs r) (modify p f rs)
  unfolding modify
  modify-Differs r [] h = tt
  modify-Differs r (q ∷ rs) ((i, t), h) = elim (Bool-cases (p q)) [
    | inl hit ↦
        rw hit (((λ e. i (sym (ids q) ∙ e)), (λ e. t (sym (tokens q) ∙ e))), modify-Differs r rs h)
    | inr miss ↦ rw miss ((i, t), modify-Differs r rs h)
  ]

  pub modify-IsTable : (rs : List Heartbeat) → IsTable rs → IsTable (modify p f rs)
  unfolding modify
  modify-IsTable [] h = tt
  modify-IsTable (r ∷ rs) (d, h) = elim (Bool-cases (p r)) [
    | inl hit ↦ rw hit (
      All-imp _ _ (modify p f rs) (λ q (i, t). ((λ e. i (e ∙ ids r)), (λ e. t (e ∙ tokens r))))
          (modify-Differs r rs d),
      modify-IsTable rs h,
    )
    | inr miss ↦ rw miss (modify-Differs r rs d, modify-IsTable rs h)
  ]

  pub find_row-modify :
      (i : ℕ) (rs : List Heartbeat) → find_row i (modify p f rs) ≡ changed p f (find_row i rs)
  unfolding modify find_row
  find_row-modify i [] = refl
  find_row-modify i (r ∷ rs) = elim (Bool-cases (p r)) [
    | inl hit ↦
        let e : ((f r).id == i) ≡ (r.id == i) = ap (λ x. x == i) (ids r) in
        elim (Bool-cases (r.id == i)) [
          | inl same ↦ rw (hit, e, same, changed, hit) refl
          | inr other ↦ rw (hit, e, other) (find_row-modify i rs)
        ]
    | inr miss ↦ elim (Bool-cases (r.id == i)) [
      | inl same ↦ rw (miss, same, changed, miss) refl
      | inr other ↦ rw (miss, other) (find_row-modify i rs)
    ]
  ]

pub keep-IsTable : (p : Heartbeat → Bool) (rs : List Heartbeat) → IsTable rs → IsTable (keep p rs)
unfolding keep
keep-IsTable p [] h = tt
keep-IsTable p (r ∷ rs) (d, h) = elim (Bool-cases (p r)) [
  | inl hit ↦ rw (hit, keep) (keep-All (Differs r) p rs d, keep-IsTable p rs h)
  | inr miss ↦ rw (miss, keep) (keep-IsTable p rs h)
]

-- An id that no row has.
pub find_row-fresh : (i : ℕ) (rs : List Heartbeat) → All (λ q. q.id ≢ i) rs → find_row i rs ≡ none
unfolding find_row
find_row-fresh i [] h = refl
find_row-fresh i (r ∷ rs) (n, h) = rw (==_ne r.id i n) (find_row-fresh i rs h)

-- What holds of every row holds of the one that is found.
pub found_All {ℓ} :
    (P : Heartbeat → Type ℓ) (i : ℕ) (rs : List Heartbeat) (r : Heartbeat)
    → All P rs
    → find_row i rs ≡ some r
    → P r
unfolding find_row
found_All P i [] r h e = cc
found_All P i (q ∷ rs) r (p, h) e = elim (Bool-cases (q.id == i)) [
  | inl same ↦ subst P (some-injective q r (rw same at e)) p
  | inr other ↦ found_All P i rs r h (rw other at e)
]

pub found_id : (i : ℕ) (rs : List Heartbeat) (r : Heartbeat) → find_row i rs ≡ some r → r.id ≡ i
unfolding find_row
found_id i [] r e = cc
found_id i (q ∷ rs) r e = elim (Bool-cases (q.id == i)) [
  | inl same ↦
      ap (λ (x : Heartbeat). x.id) (some-injective r q (sym (rw same at e)))
      ∙ (==_iff q.id i).0 same
  | inr other ↦ found_id i rs r (rw other at e)
]

pub find_row-keep :
    (p : Heartbeat → Bool) (i : ℕ) (rs : List Heartbeat) (r : Heartbeat)
    → IsTable rs
    → find_row i (keep p rs) ≡ some r
    → find_row i rs ≡ some r
unfolding find_row keep
find_row-keep p i [] r t e = cc
find_row-keep p i (q ∷ rs) r (d, t) e = elim (Bool-cases (p q)) [
  | inl hit ↦ elim (Bool-cases (q.id == i)) [
    | inl same ↦ rw same (rw (hit, keep, same) at e)
    | inr other ↦ rw other (find_row-keep p i rs r t (rw (hit, keep, other) at e))
  ]
  | inr miss ↦ elim (Bool-cases (q.id == i)) [
    | inl same ↦ cc (
      rw (miss, keep) at e,
      find_row-fresh i (keep p rs) (
          keep-All _ p rs
            (All-imp _ _ rs (λ x (n, _). (λ f. n (f ∙ sym ((==_iff q.id i).0 same)))) d)),
    )
    | inr other ↦ rw other (find_row-keep p i rs r t (rw (miss, keep) at e))
  ]
]

-- The first row that passes a test is the row of its id.
pub head-keep-find_row :
    (p : Heartbeat → Bool) (rs : List Heartbeat) (r : Heartbeat)
    → IsTable rs
    → head_opt (keep p rs) ≡ some r
    → find_row r.id rs ≡ some r
unfolding keep find_row
head-keep-find_row p [] r t e = cc
head-keep-find_row p (q ∷ rs) r (d, t) e = elim (Bool-cases (p q)) [
  | inl hit ↦ let same = some-injective q r (rw (hit, keep) at e) in rw (same, ==_refl r.id) refl
  | inr miss ↦
      let found = head-keep-find_row p rs r t (rw (miss, keep) at e) in
      elim (Bool-cases (q.id == r.id)) [
        | inl same ↦ cc (
          found,
          find_row-fresh r.id rs
              (All-imp _ _ rs (λ x (n, _). (λ f. n (f ∙ sym ((==_iff q.id r.id).0 same)))) d),
        )
        | inr other ↦ rw other found
      ]
]

-- The row that answers to a token is the only one.
pub answers_unique :
    (token : Text) (i : ℕ) (rs : List Heartbeat) (r q : Heartbeat)
    → IsTable rs
    → head_opt (keep (answers token) rs) ≡ some r
    → find_row i rs ≡ some q
    → answers token q ≡ true
    → r ≡ q
unfolding keep find_row
answers_unique token i [] r q t e f a = cc
answers_unique token i (x ∷ rs) r q (d, t) e f a = elim (Bool-cases (x.id == i)) [
  | inl found ↦
      let same = some-injective x q (rw found at f) in
      some-injective r q (sym e ∙ rw (same, a, keep) refl)
  | inr further ↦
      let f' : find_row i rs ≡ some q = rw further at f in
      let q_token = text_eq_sound q.token token (and-true _ _ a).0 in
      elim (Bool-cases (answers token x)) [
        | inl hit ↦ absurd (
            (found_All (Differs x) i rs q d f').1
              (q_token ∙ sym (text_eq_sound x.token token (and-true _ _ hit).0)))
        | inr miss ↦ answers_unique token i rs r q t (rw (miss, keep) at e) f' a
      ]
]

-- Marking finds the row of the id if it is UP.
abbrev pub if_up : Option Heartbeat → Option Heartbeat
if_up none = none
if_up (some r) = if is_up r.status then some r else none

pub head-keep-is_markable :
    (id : ℕ) (rs : List Heartbeat)
    → IsTable rs
    → head_opt (keep (is_markable id) rs) ≡ if_up (find_row id rs)
unfolding keep find_row
head-keep-is_markable id [] t = refl
head-keep-is_markable id (r ∷ rs) (d, t) = elim (Bool-cases (r.id == id)) [
  | inr other ↦ rw (other, keep) (head-keep-is_markable id rs t)
  | inl same ↦ elim (Bool-cases (is_up r.status)) [
    | inl waits ↦ rw (same, waits, keep) refl
    | inr not_up ↦
        rw (same, not_up, keep)
          (head-keep-is_markable id rs t
            ∙ ap if_up (
                find_row-fresh id rs
                  (All-imp _ _ rs (λ x (n, _). (λ f. n (f ∙ sym ((==_iff r.id id).0 same)))) d)))
  ]
]
