-- ===== src/Auth/Guards.antt =====
-- Who gets through the guard of a route (src/middleware/auth.ts, `requireAuth`).
use mathlib.Core.Option.{some-injective}
use mathlib.Core.List.{Memᴰ}
use mathlib.Core.List.Memᴰ.{head, tail}
use oo_workers.Prelude.{
  ℕ, ◌<◌, ◌≡◌, refl, sym, ◌∙◌, ◌≢◌, ap, true, ◌&&◌, List, [], ◌∷◌, Option, none, some, Bool-cases,
  Option-cases, inl, inr, ◌⊎◌, head_opt, take, ltb, ltb→lt, arith, any, and-true, keep_Mem-to,
}
use oo_workers.Text.{Text, codes, text_eq, text_eq_sound, OneOf, any-OneOf}
use oo_workers.Auth.{
  KeyRow, Gate, Entry, Crypto, Scope, read, agent, Decision, as_key, as_user, is_read, is_active,
  scope_name, has_scope, allows, decide, require_auth, validate_key, cached, begin_validation,
  finish_validation, find_active_by_prefix, look, is_well_formed, query,
}

-- The key is an active row of the table with the prefix and a hash that the text verifies; or an
-- entry of the cache under the digest of the text, not expired and not revoked.
abbrev pub Validated : Crypto → Text → ℕ → Gate → KeyRow → Type 0
Validated C cleartext now g r =
    (Memᴰ r g.keys
      × (r.key_prefix ≡ take 11 cleartext)
      × (r.revoked_at ≡ none)
      × (C.verify cleartext r.key_hash ≡ true))
    ⊎ ((e : Entry) × Memᴰ e g.cache
        × (e.digest ≡ C.digest cleartext)
        × (now < e.expires_at)
        × (e.row ≡ r)
        × (r.revoked_at ≡ none))

-- A key has the scopes of its row, and with `write` also `read`.
abbrev pub HasScope : Scope → KeyRow → Type 0
HasScope scope r =
    OneOf (scope_name scope) r.scopes ⊎ ((scope ≡ read) × OneOf (codes "write") r.scopes)

head_opt-Mem {ℓ} : {A : Type ℓ} (xs : List A) (x : A) → head_opt xs ≡ some x → Memᴰ x xs
head_opt-Mem [] x e = cc
head_opt-Mem (y ∷ ys) x e = head (sym (some-injective y x e))

is_active-revoked_at : (r : KeyRow) → is_active r ≡ true → r.revoked_at ≡ none
is_active-revoked_at r h = elim (Option-cases r.revoked_at) [
  | inl never ↦ never
  | inr (t, gone) ↦ cc (rw gone at h)
]

found-lem :
    (prefix : Text) (keys : List KeyRow) (r : KeyRow)
    → find_active_by_prefix prefix keys ≡ some r
    → Memᴰ r keys × (r.key_prefix ≡ prefix) × (r.revoked_at ≡ none)
unfolding find_active_by_prefix
found-lem prefix keys r e =
    let (inside, held) =
      keep_Mem-to (λ (k : KeyRow). text_eq k.key_prefix prefix && is_active k) keys r
        (head_opt-Mem _ r e) in
    let (same, active) = and-true _ _ held in
    (inside, text_eq_sound r.key_prefix prefix same, is_active-revoked_at r active)

cached-lem :
    (digest : Text) (es : List Entry) (e : Entry)
    → cached digest es ≡ some e
    → Memᴰ e es × (e.digest ≡ digest)
unfolding cached
cached-lem digest [] e h = cc
cached-lem digest (d ∷ es) e h = elim (Bool-cases (text_eq d.digest digest)) [
  | inl same ↦
      let it : d ≡ e = some-injective d e (rw same at h) in
      (head (sym it), ap (λ (x : Entry). x.digest) (sym it) ∙ text_eq_sound d.digest digest same)
  | inr other ↦ let (inside, same) = cached-lem digest es e (rw other at h) in (tail inside, same)
]

module _ (C : Crypto) (cleartext : Text) (now : ℕ) (g : Gate) (r : KeyRow) where
  queried-Validated :
      (finish_validation C cleartext now (query C cleartext g.keys) g).1 ≡ some r
      → Validated C cleartext now g r
  unfolding query finish_validation
  queried-Validated h = elim (Option-cases (find_active_by_prefix (take 11 cleartext) g.keys)) [
    | inl missing ↦ cc (rw (finish_validation, missing) at h)
    | inr (row, found) ↦ elim (Bool-cases (C.verify cleartext row.key_hash)) [
      | inl good ↦
          let it : row ≡ r = some-injective row r (rw (finish_validation, found, good) at h) in
          let (inside, prefix, active) =
            found-lem (take 11 cleartext) g.keys r (found ∙ ap some it) in
          inl (
            inside,
            prefix,
            active,
            ap (λ (k : KeyRow). C.verify cleartext k.key_hash) (sym it) ∙ good,
          )
      | inr bad ↦ cc (rw (finish_validation, found, bad) at h)
    ]
  ]

  validate_key-Validated :
      (validate_key C cleartext now g).1 ≡ some r → Validated C cleartext now g r
  unfolding validate_key begin_validation look finish_validation
  validate_key-Validated h = elim (Bool-cases (is_well_formed cleartext)) [
    | inr bad ↦ cc (rw bad at h)
    | inl good ↦ elim (Option-cases (cached (C.digest cleartext) g.cache)) [
      | inl miss ↦ queried-Validated (rw (good, miss) at h)
      | inr (e, at_hand) ↦ elim (Bool-cases (ltb now e.expires_at)) [
        | inr old ↦ queried-Validated (rw (good, at_hand, old) at h)
        | inl fresh ↦ elim (Bool-cases (is_active e.row)) [
          | inr gone ↦ cc (rw (good, at_hand, fresh, gone) at h)
          | inl active ↦
              let it : e.row ≡ r =
                some-injective e.row r (rw (good, at_hand, fresh, active) at h) in
              let (inside, same) = cached-lem (C.digest cleartext) g.cache e at_hand in
              inr (
                e,
                inside,
                same,
                ltb→lt now e.expires_at fresh,
                it,
                ap (λ (k : KeyRow). k.revoked_at) (sym it) ∙ is_active-revoked_at e.row active,
              )
        ]
      ]
    ]
  ]

allows-HasScope : (scope : Scope) (r : KeyRow) → allows scope r ≡ true → HasScope scope r
unfolding allows has_scope
allows-HasScope scope r h = elim (Bool-cases (any (text_eq (scope_name scope)) r.scopes)) [
  | inl named ↦ inl (any-OneOf (scope_name scope) r.scopes named)
  | inr unnamed ↦ by_write scope (ground (arith, unnamed, h))
]
  where
    by_write :
        (s : Scope)
        → (is_read s && any (text_eq (codes "write")) r.scopes) ≡ true
        → OneOf (scope_name s) r.scopes ⊎ ((s ≡ read) × OneOf (codes "write") r.scopes)
    by_write Scope.read k = inr (refl, any-OneOf (codes "write") r.scopes k)
    by_write Scope.write k = cc k
    by_write Scope.agent k = cc k

-- The row of the key that a decision lets through, if any; and the user.
let_key : Decision → Option KeyRow
let_key (as_key row) = some row
let_key _ = none

let_user : Decision → Option ℕ
let_user (as_user id) = some id
let_user _ = none

decide-key :
    (scope : Scope) (row : Option KeyRow) (user : Option ℕ) (r : KeyRow)
    → decide scope row user ≡ as_key r
    → (row ≡ some r) × HasScope scope r
unfolding decide let_key
decide-key scope (some k) user r e = elim (Bool-cases (allows scope k)) [
  | inl ok ↦
      let it : k ≡ r = some-injective k r (ap let_key (rw ok at e)) in
      (ap some it, allows-HasScope scope r (ap (allows scope) (sym it) ∙ ok))
  | inr lacks ↦ cc (rw lacks at e)
]
decide-key Scope.read none (some v) r e = cc e
decide-key Scope.write none (some v) r e = cc e
decide-key Scope.agent none (some v) r e = cc e
decide-key scope none none r e = cc e

decide-user :
    (scope : Scope) (row : Option KeyRow) (user : Option ℕ) (u : ℕ)
    → decide scope row user ≡ as_user u
    → (row ≡ none) × (user ≡ some u) × (scope ≢ agent)
unfolding decide let_user
decide-user scope (some k) user u e = elim (Bool-cases (allows scope k)) [
  | inl ok ↦ cc (rw ok at e)
  | inr lacks ↦ cc (rw lacks at e)
]
decide-user Scope.read none (some v) u e = (refl, ap let_user e, λ f. cc f)
decide-user Scope.write none (some v) u e = (refl, ap let_user e, λ f. cc f)
decide-user Scope.agent none (some v) u e = cc e
decide-user scope none none u e = cc e

-- A request gets through as a key only if its credential is not empty and is that of an active row
-- of the table or of a live entry of the cache, and the row names the scope of the route, or `write`
-- where the route wants `read`. It gets through as a user only if its credential is not empty, is no
-- valid key and is that user's session, and the route is not one of agents.
pub require_auth_sound :
    (C : Crypto) (session : Text → Option ℕ) (scope : Scope) (credential : Option Text) (now : ℕ)
    (g : Gate)
    → ((r : KeyRow)
        → (require_auth C session scope credential now g).1 ≡ as_key r
        → (t : Text) × (credential ≡ some t) × (t ≢ []) × Validated C t now g r × HasScope scope r)
      × ((u : ℕ)
          → (require_auth C session scope credential now g).1 ≡ as_user u
          → (t : Text) × (credential ≡ some t)
            × (t ≢ [])
            × ((validate_key C t now g).1 ≡ none)
            × (session t ≡ some u)
            × (scope ≢ agent))
unfolding require_auth
require_auth_sound C session scope none now g = ((λ r e. cc e), (λ u e. cc e))
require_auth_sound C session scope (some []) now g = ((λ r e. cc e), (λ u e. cc e))
require_auth_sound C session scope (some (c ∷ cs)) now g = (
  (λ r e.
      let (valid, scoped) = decide-key scope _ (session (c ∷ cs)) r e in
      (c ∷ cs, refl, (λ f. cc f), validate_key-Validated C (c ∷ cs) now g r valid, scoped)),
  (λ u e.
      let (invalid, user, not_agent) = decide-user scope _ (session (c ∷ cs)) u e in
      (c ∷ cs, refl, (λ f. cc f), invalid, user, not_agent)),
)
