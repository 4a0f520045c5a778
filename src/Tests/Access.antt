-- ===== src/Tests/Access.antt =====
-- Runs of the guards and of the key cache: src/middleware/auth.ts.
use oo_workers.Prelude.{
  ℕ, ◌≤◌, ◌≡◌, refl, ◌≢◌, List, [], ◌∷◌, none, some, arith, length, true, false, any, ◌↔◌, Option,
  if◌then◌else◌, keep,
}
use oo_workers.Text.{Text, codes, text_eq, whitespace}
use oo_workers.Auth.{
  KeyRow, Gate, Crypto, pending, validate_key_cache_max, begin_validation, finish_validation,
  validate_key, revoke, Scope, allows, require_auth, Decision, as_key, as_user, decide, look, query,
  has_scope, remember, put, find_active_by_prefix, is_well_formed, cached,
}
use oo_workers.Auth.Cache.{
  Op, begin, finish, revoke_key, apply_all, cache_bounded, revoked_key_accepted,
}
use oo_workers.Auth.Guards.{Validated, HasScope, require_auth_sound}
use oo_workers.Email.{is_valid_email_address}
use oo_workers.Email.Shape.{IsAddress, is_valid_email_address_iff}

-- A platform whose hashes are the texts themselves.
abbrev plain : Crypto
plain = record { digest = λ s. s; verify = text_eq }

abbrev secret : Text
secret = codes "oo_abcdefgh-rest"

abbrev key : KeyRow
key = record {
  id = 3;
  name = codes "ci";
  key_prefix = codes "oo_abcdefgh";
  key_hash = secret;
  scopes = codes "write" ∷ [];
  revoked_at = none;
}

abbrev gate : Gate
gate = record { keys = key ∷ []; cache = [] }

abbrev uses : List Op
uses =
    begin secret 10
    ∷ finish secret 110 (pending key true)
    ∷ revoke_key 200 3
    ∷ begin secret 300
    ∷ []

cache_bounded_example : length (apply_all plain uses gate).cache ≤ validate_key_cache_max
cache_bounded_example = cache_bounded plain uses gate (omega arith)

revoked_key_accepted_example :
    (validate_key plain secret 500
      (finish_validation plain secret 110 (pending key true) (revoke 60 3 gate)).0).1
    ≡ some key
revoked_key_accepted_example =
    revoked_key_accepted plain secret 10 60 110 500 gate gate key
      (unfold begin_validation find_active_by_prefix is_well_formed cached in refl) refl
      (omega arith)

abbrev session : Text → Option ℕ
session t = if text_eq t (codes "abc") then some 5 else none

abbrev guarded : Decision
guarded = (require_auth plain session Scope.read (some secret) 10 gate).1

require_auth_sound_example :
    ((r : KeyRow)
      → guarded ≡ as_key r
      → (t : Text) × (some secret ≡ some t)
        × (t ≢ [])
        × Validated plain t 10 gate r
        × HasScope Scope.read r)
    × ((u : ℕ)
        → guarded ≡ as_user u
        → (t : Text) × (some secret ≡ some t)
          × (t ≢ [])
          × ((validate_key plain t 10 gate).1 ≡ none)
          × (session t ≡ some u)
          × (Scope.read ≢ Scope.agent))
require_auth_sound_example = require_auth_sound plain session Scope.read (some secret) 10 gate

let_through : guarded ≡ as_key key
unfolding require_auth decide validate_key begin_validation finish_validation look query
    find_active_by_prefix is_well_formed cached allows has_scope any keep remember put
let_through = refl

is_valid_email_address_iff_example :
    (is_valid_email_address (codes "ops@mail.example.com") ≡ true) ↔ (
      (length (codes "ops@mail.example.com") ≤ 254)
      × (any whitespace (codes "ops@mail.example.com") ≡ false)
      × IsAddress (codes "ops@mail.example.com"))
is_valid_email_address_iff_example = is_valid_email_address_iff (codes "ops@mail.example.com")
