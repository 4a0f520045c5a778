-- ===== src/Auth.antt =====
-- src/middleware/auth.ts: API keys, the cache of validated keys, and the guards of the routes, with
-- src/db/repositories/api-key.repo.ts and the revoke route of src/routes/api-keys.ts. A validation
-- that misses the cache is two steps, since it awaits the verification of the hash in between.
-- `Cache` and `Guards` have the laws.
pub mod Cache
pub mod Guards
use oo_workers.Prelude.{
  ℕ, suc, ◌+◌, Bool, true, false, not, ◌&&◌, ◌||◌, List, [], ◌∷◌, Option, none, some, ◌==◌, ltb,
  leb, any, keep, modify, head_opt, length, take, drop, if◌then◌else◌,
}
use oo_workers.Text.{Text, codes, text_eq, starts_with}

pub record KeyRow : Type 0 where
  pub id : ℕ
  pub name : Text
  pub key_prefix : Text
  pub key_hash : Text
  pub scopes : List Text
  pub revoked_at : Option ℕ

-- One entry of `VALIDATE_KEY_CACHE`: the digest of a key, the validated row, and when it expires.
pub record Entry : Type 0 where
  pub digest : Text
  pub row : KeyRow
  pub expires_at : ℕ

-- The table of keys, and the cache in the order of insertion.
pub record Gate : Type 0 where
  pub keys : List KeyRow
  pub cache : List Entry

-- The platform: sha256, and the verification of an argon2 hash.
pub record Crypto : Type 0 where
  pub digest : Text → Text
  pub verify : Text → Text → Bool

abbrev pub key_prefix_len : ℕ
key_prefix_len = 11

abbrev pub validate_key_cache_ttl_ms : ℕ
validate_key_cache_ttl_ms = 30000

abbrev pub validate_key_cache_max : ℕ
validate_key_cache_max = 1024

abbrev pub is_active : KeyRow → Bool
is_active r = elim r.revoked_at [ none ↦ true | some t ↦ false ]

-- `findActiveByPrefix`.
unfoldable pub find_active_by_prefix : Text → List KeyRow → Option KeyRow
unfolding keep
find_active_by_prefix prefix keys =
    head_opt (keep (λ r. text_eq r.key_prefix prefix && is_active r) keys)

unfoldable pub cached : Text → List Entry → Option Entry
cached digest [] = none
cached digest (e ∷ es) = if text_eq e.digest digest then some e else cached digest es

-- `Map.delete`, and `Map.set`, which keeps the place of a key that is there.
unfoldable pub forget : Text → List Entry → List Entry
unfolding keep
forget digest es = keep (λ e. not (text_eq e.digest digest)) es

unfoldable pub put : Entry → List Entry → List Entry
put e [] = e ∷ []
put e (d ∷ es) = if text_eq d.digest e.digest then e ∷ es else d ∷ put e es

-- `evictFromKeyCache`: the first entry of the row.
unfoldable pub evict_from_key_cache : ℕ → List Entry → List Entry
evict_from_key_cache id [] = []
evict_from_key_cache id (e ∷ es) = if e.row.id == id then es else e ∷ evict_from_key_cache id es

-- The revoke route: the row, then the cache.
abbrev pub revoked : ℕ → KeyRow → KeyRow
revoked now r = record r { revoked_at = some now }

unfoldable pub revoke : ℕ → ℕ → Gate → Gate
unfolding modify evict_from_key_cache
revoke now id g = record g {
  keys = modify (λ r. r.id == id) (revoked now) g.keys;
  cache = evict_from_key_cache id g.cache;
}

-- What a validation comes to before it awaits anything, or after its query.
pub data Lookup : Type 0 where
  refused : Lookup
  hit : KeyRow → Lookup
  -- The row that the query found, and whether the hash verified.
  pending : KeyRow → Bool → Lookup

unfoldable pub is_well_formed : Text → Bool
is_well_formed cleartext =
    starts_with (codes "oo_") cleartext && leb (key_prefix_len + 1) (length cleartext)

unfoldable pub query : Crypto → Text → List KeyRow → Lookup
unfolding find_active_by_prefix
query C cleartext keys = elim (find_active_by_prefix (take key_prefix_len cleartext) keys) [
  | none ↦ refused
  | some row ↦ pending row (C.verify cleartext row.key_hash)
]

unfoldable pub look : Crypto → Text → ℕ → Option Entry → Gate → Gate × Lookup
unfolding query forget
look C cleartext now none g = (g, query C cleartext g.keys)
look C cleartext now (some e) g =
    if ltb now e.expires_at
    then (if is_active e.row
        then (g, hit e.row)
        else (record g { cache = forget (C.digest cleartext) g.cache }, refused))
    else (g, query C cleartext g.keys)

-- `validateKey` up to its query.
unfoldable pub begin_validation : Crypto → Text → ℕ → Gate → Gate × Lookup
unfolding is_well_formed look cached
begin_validation C cleartext now g =
    if is_well_formed cleartext
    then look C cleartext now (cached (C.digest cleartext) g.cache) g
    else (g, refused)

-- `VALIDATE_KEY_CACHE.set`, after the oldest entry is dropped from a full cache.
unfoldable pub remember : Text → KeyRow → ℕ → List Entry → List Entry
unfolding put
remember digest row now es =
    let entry : Entry = record {
      digest = digest;
      row = row;
      expires_at = now + validate_key_cache_ttl_ms;
    } in
    if leb validate_key_cache_max (length es) then put entry (drop 1 es) else put entry es

-- `validateKey` after the verification.
unfoldable pub finish_validation : Crypto → Text → ℕ → Lookup → Gate → Gate × Option KeyRow
unfolding remember
finish_validation C cleartext now refused g = (g, none)
finish_validation C cleartext now (hit row) g = (g, some row)
finish_validation C cleartext now (pending row false) g = (g, none)
finish_validation C cleartext now (pending row true) g =
    (record g { cache = remember (C.digest cleartext) row now g.cache }, some row)

-- `validateKey` with nothing in between.
unfoldable pub validate_key : Crypto → Text → ℕ → Gate → Gate × Option KeyRow
unfolding begin_validation finish_validation
validate_key C cleartext now g =
    let (g', found) = begin_validation C cleartext now g in
    finish_validation C cleartext now found g'

pub data Scope : Type 0 where
  read write agent : Scope

abbrev pub scope_name : Scope → Text
scope_name read = codes "read"
scope_name write = codes "write"
scope_name agent = codes "agent"

abbrev is_read : Scope → Bool
is_read read = true
is_read _ = false

abbrev is_agent : Scope → Bool
is_agent agent = true
is_agent _ = false

unfoldable pub has_scope : Text → KeyRow → Bool
unfolding any
has_scope s row = any (text_eq s) row.scopes

-- `allowed`: write implies read.
unfoldable pub allows : Scope → KeyRow → Bool
unfolding has_scope
allows scope row =
    has_scope (scope_name scope) row || (is_read scope && has_scope (codes "write") row)

-- What a guard does: it lets the request on as a key or as the user of a session, or it answers.
pub data Decision : Type 0 where
  as_key : KeyRow → Decision
  as_user : ℕ → Decision
  answered : (http_status : ℕ) → Decision

-- `requireAuth` once a credential is there, given what `validateKey` made of it, and the user of the
-- session that `validateSession` finds.
unfoldable pub decide : Scope → Option KeyRow → Option ℕ → Decision
unfolding allows
decide scope (some row) user = if allows scope row then as_key row else answered 403
decide scope none (some user) = if is_agent scope then answered 403 else as_user user
decide scope none none = answered 401

-- `requireAuth`, with the credential of the request.
unfoldable pub require_auth :
    Crypto → (Text → Option ℕ) → Scope → Option Text → ℕ → Gate → Gate × Decision
unfolding validate_key decide
require_auth C session scope none now g = (g, answered 401)
require_auth C session scope (some []) now g = (g, answered 401)
require_auth C session scope (some (c ∷ cs)) now g =
    let (g', row) = validate_key C (c ∷ cs) now g in (g', decide scope row (session (c ∷ cs)))

-- `requireAgent`: the key, and the region that it is bound to.
unfoldable pub require_agent : Option Text → Option KeyRow → (ℕ → Option ℕ) → Decision × Option ℕ
unfolding has_scope
require_agent none row region_of = (answered 401, none)
require_agent (some cleartext) none region_of = (answered 401, none)
require_agent (some cleartext) (some row) region_of =
    if has_scope (codes "agent") row
    then elim (region_of row.id) [
      | none ↦ (answered 403, none)
      | some region ↦ (as_key row, some region)
    ]
    else (answered 403, none)
