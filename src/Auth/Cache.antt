-- ===== src/Auth/Cache.antt =====
-- The cache of validated keys (src/middleware/auth.ts, `validateKey` and `evictFromKeyCache`).
use oo_workers.Prelude.{
  ℕ, suc, ◌+◌, ◌-◌, ◌≤◌, ◌<◌, ◌≡◌, refl, ap, Bool, true, false, not, List, [], ◌∷◌, Option, none,
  some, arith, ◌==◌, ltb, leb, lt→ltb, keep, length, drop, Bool-cases, inl, inr,
}
use oo_workers.Text.{Text, text_eq, text_eq_refl}
use oo_workers.Auth.{
  KeyRow, Entry, Gate, Crypto, Lookup, refused, hit, pending, validate_key_cache_max, is_active,
  is_well_formed, cached, forget, put, evict_from_key_cache, revoke, begin_validation, remember,
  finish_validation, validate_key, look,
}

put-length : (e : Entry) (es : List Entry) → length (put e es) ≤ suc (length es)
unfolding put
put-length e [] = omega arith
put-length e (d ∷ es) = elim (Bool-cases (text_eq d.digest e.digest)) [
  | inl same ↦ rw same (omega arith)
  | inr other ↦ rw other (omega (arith, put-length e es))
]

forget-length : (digest : Text) (es : List Entry) → length (forget digest es) ≤ length es
unfolding forget keep
forget-length digest [] = omega arith
forget-length digest (e ∷ es) = elim (Bool-cases (not (text_eq e.digest digest))) [
  | inl kept ↦ rw (kept, keep) (omega (arith, forget-length digest es))
  | inr gone ↦ rw (gone, keep) (omega (arith, forget-length digest es))
]

evict-length : (id : ℕ) (es : List Entry) → length (evict_from_key_cache id es) ≤ length es
unfolding evict_from_key_cache
evict-length id [] = omega arith
evict-length id (e ∷ es) = elim (Bool-cases (e.row.id == id)) [
  | inl same ↦ rw same (omega arith)
  | inr other ↦ rw other (omega (arith, evict-length id es))
]

drop_one-length : (es : List Entry) → length (drop 1 es) ≡ length es - 1
drop_one-length [] = omega arith
drop_one-length (e ∷ es) = omega arith

IsBounded : List Entry → Type 0
IsBounded es = length es ≤ validate_key_cache_max

remember-IsBounded :
    (digest : Text) (row : KeyRow) (now : ℕ) (es : List Entry)
    → IsBounded es
    → IsBounded (remember digest row now es)
unfolding remember IsBounded
remember-IsBounded digest row now es h =
    elim (Bool-cases (leb validate_key_cache_max (length es))) [
      | inl full ↦ rw full (
          omega (
            arith,
            put-length (record { digest = digest; row = row; expires_at = now + 30000 })
                (drop 1 es),
            drop_one-length es,
            h,
          ))
      | inr room ↦ rw room (
          ground (
            arith,
            put-length (record { digest = digest; row = row; expires_at = now + 30000 }) es,
            room,
          ))
    ]

-- What happens at the gate, in any order: validations begin, and finish with what they found when
-- they began; keys are made and revoked.
pub data Op : Type 0 where
  begin : (cleartext : Text) (now : ℕ) → Op
  finish : (cleartext : Text) (now : ℕ) → Lookup → Op
  make_key : KeyRow → Op
  revoke_key : (now id : ℕ) → Op

unfoldable pub apply : Crypto → Op → Gate → Gate
unfolding begin_validation finish_validation revoke
apply C (begin cleartext now) g = (begin_validation C cleartext now g).0
apply C (finish cleartext now found) g = (finish_validation C cleartext now found g).0
apply C (make_key row) g = record g { keys = row ∷ g.keys }
apply C (revoke_key now id) g = revoke now id g

unfoldable pub apply_all : Crypto → List Op → Gate → Gate
unfolding apply
apply_all C [] g = g
apply_all C (op ∷ ops) g = apply_all C ops (apply C op g)

look-IsBounded :
    (C : Crypto) (cleartext : Text) (now : ℕ) (o : Option Entry) (g : Gate)
    → IsBounded g.cache
    → IsBounded (look C cleartext now o g).0.cache
unfolding look IsBounded
look-IsBounded C cleartext now none g h = h
look-IsBounded C cleartext now (some e) g h = elim (Bool-cases (ltb now e.expires_at)) [
  | inr late ↦ rw late h
  | inl fresh ↦ elim (Bool-cases (is_active e.row)) [
    | inl active ↦ rw (fresh, active) h
    | inr dead ↦ rw (fresh, dead) (omega (arith, h, forget-length (C.digest cleartext) g.cache))
  ]
]

apply-IsBounded :
    (C : Crypto) (op : Op) (g : Gate) → IsBounded g.cache → IsBounded (apply C op g).cache
unfolding apply begin_validation finish_validation revoke IsBounded
apply-IsBounded C (begin cleartext now) g h = elim (Bool-cases (is_well_formed cleartext)) [
  | inl good ↦ rw good (look-IsBounded C cleartext now (cached (C.digest cleartext) g.cache) g h)
  | inr bad ↦ rw bad h
]
apply-IsBounded C (finish cleartext now refused) g h = h
apply-IsBounded C (finish cleartext now (hit row)) g h = h
apply-IsBounded C (finish cleartext now (pending row false)) g h = h
apply-IsBounded C (finish cleartext now (pending row true)) g h =
    remember-IsBounded (C.digest cleartext) row now g.cache h
apply-IsBounded C (make_key row) g h = h
apply-IsBounded C (revoke_key now id) g h = omega (arith, h, evict-length id g.cache)

-- However many keys are tried, and however validations, new keys and revocations interleave, a
-- cache that starts within its maximum never holds more.
pub cache_bounded :
    (C : Crypto) (ops : List Op) (g : Gate)
    → length g.cache ≤ validate_key_cache_max
    → length (apply_all C ops g).cache ≤ validate_key_cache_max
unfolding apply_all IsBounded
cache_bounded C [] g h = h
cache_bounded C (op ∷ ops) g h = cache_bounded C ops (apply C op g) (apply-IsBounded C op g h)

cached-put : (e : Entry) (es : List Entry) → cached e.digest (put e es) ≡ some e
unfolding cached put
cached-put e [] = rw (text_eq_refl e.digest) refl
cached-put e (d ∷ es) = elim (Bool-cases (text_eq d.digest e.digest)) [
  | inl same ↦ rw (same, text_eq_refl e.digest) refl
  | inr other ↦ rw (other, other) (cached-put e es)
]

cached-remember :
    (digest : Text) (row : KeyRow) (now : ℕ) (es : List Entry)
    → cached digest (remember digest row now es)
      ≡ some (record { digest = digest; row = row; expires_at = now + 30000 })
unfolding remember
cached-remember digest row now es =
    let e : Entry = record { digest = digest; row = row; expires_at = now + 30000 } in
    elim (Bool-cases (leb validate_key_cache_max (length es))) [
      | inl full ↦ rw full (cached-put e (drop 1 es))
      | inr room ↦ rw room (cached-put e es)
    ]

begun_well_formed :
    (C : Crypto) (cleartext : Text) (now : ℕ) (g g' : Gate) (row : KeyRow) (ok : Bool)
    → begin_validation C cleartext now g ≡ (g', pending row ok)
    → is_well_formed cleartext ≡ true
unfolding begin_validation
begun_well_formed C cleartext now g g' row ok e = elim (Bool-cases (is_well_formed cleartext)) [
  | inl good ↦ good
  | inr bad ↦ cc (ap (λ (x : Gate × Lookup). x.1) (rw bad at e))
]

-- A key that is revoked while its first validation awaits the hash stays good: the validation puts
-- the active row it read before into the cache after the eviction, and for the thirty seconds after
-- the validation ended the key is accepted again.
pub revoked_key_accepted :
    (C : Crypto) (cleartext : Text) (begun revoked_at finished later : ℕ) (g g' : Gate)
    (row : KeyRow)
    → begin_validation C cleartext begun g ≡ (g', pending row true)
    → is_active row ≡ true
    → later < finished + 30000
    → (validate_key C cleartext later
        (finish_validation C cleartext finished
          (pending row true)
          (revoke revoked_at row.id g')).0).1
      ≡ some row
unfolding validate_key begin_validation finish_validation look
revoked_key_accepted C cleartext begun revoked_at finished later g g' row e active soon =
    rw
      (
        begun_well_formed C cleartext begun g g' row true e,
        cached-remember (C.digest cleartext) row finished (revoke revoked_at row.id g').cache,
        lt→ltb later (finished + 30000) soon,
        active,
      )
      refl
