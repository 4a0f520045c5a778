-- ===== src/Email/Shape.antt =====
-- The addresses that src/utils/email.ts accepts, against their shape.
use mathlib.Core.Option.{some-injective}
use oo_workers.Prelude.{
  ℕ, suc, ◌+◌, ◌-◌, ◌≤◌, ◌<◌, ◌≡◌, refl, sym, ap, ◌∙◌, subst, ◌↔◌, ◌⊎◌, inl, inr, Bool, true, false,
  not, ◌||◌, [], ◌∷◌, ◌++◌, Option, none, some, arith, ltb, leb, ◌==◌, ==_iff, ==_ne, ==_refl,
  ltb→lt, lt→ltb, opt_eq, opt_eq_refl, opt_eq_sound, and-true, Bool-cases, length, length-append,
  drop, any, if◌then◌else◌,
}
use oo_workers.Text.{Text, index_of, whitespace}
use oo_workers.Text.Split.{Lacks}
use oo_workers.Email.{
  last_index_from, last_index_of, has_inner_dot, splits_at, is_valid_email_address,
}

-- `before` ends where `c` stands first in the text, and `rest` comes after it.
abbrev IsCut : ℕ → Text → Text → Text → Type 0
IsCut c s before rest =
    (s ≡ before ++ c ∷ rest) × (Lacks c before) × (index_of c s ≡ some (length before))

index_of-cut : (c : ℕ) (l r : Text) → Lacks c l → index_of c (l ++ c ∷ r) ≡ some (length l)
unfolding index_of
index_of-cut c [] r h = rw (==_refl c) refl
index_of-cut c (d ∷ l) r (p, h) = rw (==_ne c d (λ e. p (sym e)), index_of-cut c l r h) refl

index_of-cases :
    (c : ℕ) (s : Text) → (index_of c s ≡ none) ⊎ ((l : Text) × ((r : Text) × IsCut c s l r))
unfolding index_of
index_of-cases c [] = inl refl
index_of-cases c (d ∷ s) = elim (Bool-cases (c == d)) [
  | inl same ↦ inr ([], (s, (ap (λ x. x ∷ s) (sym ((==_iff c d).0 same)), tt, rw same refl)))
  | inr other ↦ elim (index_of-cases c s) [
    | inl missing ↦ inl (rw (other, missing) refl)
    | inr (l, (r, (e, h, i))) ↦ inr (
      d ∷ l,
      (
        r,
        (ap (λ x. d ∷ x) e, ((λ same. cc (rw (same, ==_refl c) at other)), h), rw (other, i) refl),
      ),
    )
  ]
]

drop-cut : (c : ℕ) (l r : Text) → drop (suc (length l)) (l ++ c ∷ r) ≡ r
drop-cut c [] r = refl
drop-cut c (d ∷ l) r = drop-cut c l r

last_index_from-Lacks :
    (c i : ℕ) (found : Option ℕ) (s : Text) → Lacks c s → last_index_from c found i s ≡ found
last_index_from-Lacks c i found [] h = refl
last_index_from-Lacks c i found (d ∷ s) (p, h) =
    rw (==_ne c d (λ e. p (sym e))) (last_index_from-Lacks c (suc i) found s h)

last_index_from-cut :
    (c i : ℕ) (found : Option ℕ) (l r : Text)
    → Lacks c l
    → last_index_from c found i (l ++ c ∷ r)
      ≡ last_index_from c (some (i + length l)) (suc (i + length l)) r
last_index_from-cut c i found [] r h =
    rw (last_index_from, ==_refl c) (ap (λ n. last_index_from c (some n) (suc n) r) (omega arith))
last_index_from-cut c i found (d ∷ l) r (p, h) =
    rw (last_index_from, ==_ne c d (λ e. p (sym e)))
      (last_index_from-cut c (suc i) found l r h
        ∙ ap (λ n. last_index_from c (some n) (suc n) r) (omega arith))

last_index_of-cut :
    (c : ℕ) (l r : Text)
    → Lacks c l
    → last_index_from c none 0 (l ++ c ∷ r) ≡ last_index_from c (some (length l)) (suc (length l)) r
last_index_of-cut c l r h =
    last_index_from-cut c 0 none l r h
    ∙ ap (λ n. last_index_from c (some n) (suc n) r) (omega arith)

last_index_from-ge :
    (c i k m : ℕ) (s : Text) → k ≤ i → last_index_from c (some k) i s ≡ some m → k ≤ m
last_index_from-ge c i k m [] le e = omega (arith, some-injective k m e)
last_index_from-ge c i k m (d ∷ s) le e = elim (Bool-cases (c == d)) [
  | inl same ↦
      let far = last_index_from-ge c (suc i) i m s (omega arith) (rw same at e) in omega arith
  | inr other ↦ last_index_from-ge c (suc i) k m s (omega arith) (rw other at e)
]

-- An index that is the last one is followed by no other.
last_index_from-alone :
    (c i k : ℕ) (s : Text) → k < i → last_index_from c (some k) i s ≡ some k → Lacks c s
last_index_from-alone c i k [] lt e = tt
last_index_from-alone c i k (d ∷ s) lt e = elim (Bool-cases (c == d)) [
  | inl same ↦
      let far = last_index_from-ge c (suc i) i k s (omega arith) (rw same at e) in
      absurd (omega arith)
  | inr other ↦ (
    (λ same. cc (rw (same, ==_refl c) at other)),
    last_index_from-alone c (suc i) k s (omega arith) (rw other at e),
  )
]

-- A host is a name without dots, a dot and more, none of them empty.
abbrev pub IsHost : Text → Type 0
IsHost r =
    (name : Text) × ((more : Text) × ((r ≡ name ++ b'.' ∷ more)
        × (Lacks b'.' name)
        × (0 < length name)
        × (0 < length more)))

length-cut : (c : ℕ) (l r : Text) → length (l ++ c ∷ r) ≡ length l + suc (length r)
length-cut c l r = length-append l (c ∷ r)

refused : (a b : Bool) → (if a then false else b) ≡ true → (a ≡ false) × (b ≡ true)
refused a b h = ground arith

open_guard : (a b c : Bool) → (a || (not b || c)) ≡ false → (a ≡ false) × (b ≡ true) × (c ≡ false)
open_guard a b c h = ground arith

-- In front of something, the index of a separator is not the last one.
inner_iff : (n m : ℕ) → ((n == n + suc m - 1) ≡ false) ↔ (0 < m)
inner_iff n m = ground arith

has_inner_dot-IsHost : (r : Text) → has_inner_dot r (index_of b'.' r) ≡ true → IsHost r
unfolding has_inner_dot
has_inner_dot-IsHost r h = elim (index_of-cases b'.' r) [
  | inl missing ↦ cc (rw missing at h)
  | inr (a, (b, (e, lacks, i))) ↦
      let (first, last) = and-true _ _ (rw i at h) in
      let last' : not (length a == length a + suc (length b) - 1) ≡ true =
        subst (λ n. not (length a == n - 1) ≡ true) (ap length e ∙ length-cut b'.' a b) last in
      (
        a,
        (
          b,
          (e, lacks, ltb→lt 0 (length a) first, (inner_iff (length a) (length b)).0 (ground arith)),
        ),
      )
]

IsHost-has_inner_dot : (r : Text) → IsHost r → has_inner_dot r (index_of b'.' r) ≡ true
unfolding has_inner_dot
IsHost-has_inner_dot r (a, (b, (e, lacks, first, last))) =
    rw
      (
        e,
        index_of-cut b'.' a b lacks,
        length-cut b'.' a b,
        lt→ltb 0 (length a) first,
        (inner_iff (length a) (length b)).1 last,
      )
      refl

splits_at_sound :
    (l r : Text)
    → Lacks b'@' l
    → splits_at (l ++ b'@' ∷ r) (some (length l)) ≡ true
    → (0 < length l) × (Lacks b'@' r) × IsHost r
unfolding splits_at last_index_of
splits_at_sound l r lacks h =
    let at_sign = length l in
    let value = l ++ b'@' ∷ r in
    let last = last_index_from b'@' none 0 value in
    let (fits, host) =
      refused (leb at_sign 0 || (not (opt_eq (some at_sign) last) || at_sign == length value - 1))
        (has_inner_dot (drop (suc at_sign) value) (index_of b'.' (drop (suc at_sign) value))) h in
    let (first, once, _) =
      open_guard (leb at_sign 0) (opt_eq (some at_sign) last) (at_sign == length value - 1) fits in
    (
      ground arith,
      last_index_from-alone b'@' (suc (length l)) (length l) r (omega arith)
          (sym (last_index_of-cut b'@' l r lacks) ∙ sym (opt_eq_sound _ _ once)),
      has_inner_dot-IsHost r (rw (drop-cut b'@' l r) at host),
    )

IsHost-nonempty : (r : Text) → IsHost r → 0 < length r
IsHost-nonempty r (a, (b, (e, _, first, _))) = rw e (omega (arith, length-cut b'.' a b))

splits_at_complete :
    (l r : Text)
    → Lacks b'@' l
    → 0 < length l
    → Lacks b'@' r
    → IsHost r
    → splits_at (l ++ b'@' ∷ r) (some (length l)) ≡ true
unfolding splits_at last_index_of
splits_at_complete l r lacks first alone host =
    let some_host : 0 < length r = IsHost-nonempty r host in
    let positive : leb (length l) 0 ≡ false = ground arith in
    rw
      (
        last_index_of-cut b'@' l r lacks,
        last_index_from-Lacks b'@' (suc (length l)) (some (length l)) r alone,
        opt_eq_refl (some (length l)),
        length-cut b'@' l r,
        (inner_iff (length l) (length r)).1 some_host,
        positive,
        drop-cut b'@' l r,
      )
      (IsHost-has_inner_dot r host)

-- One `@` with something before it, and a host after it.
abbrev pub IsAddress : Text → Type 0
IsAddress value =
    (mailbox : Text) × ((host : Text) × ((value ≡ mailbox ++ b'@' ∷ host)
        × (0 < length mailbox)
        × (Lacks b'@' mailbox)
        × (Lacks b'@' host)
        × IsHost host))

splits_at_iff : (value : Text) → (splits_at value (index_of b'@' value) ≡ true) ↔ IsAddress value
unfolding splits_at
splits_at_iff value = (
  (λ h. elim (index_of-cases b'@' value) [
    | inl missing ↦ cc (rw missing at h)
    | inr (l, (r, (e, lacks, i))) ↦
        let (first, alone, host) = splits_at_sound l r lacks (rw (i, e) at h) in
        (l, (r, (e, first, lacks, alone, host)))
  ]),
  (λ (l, (r, (e, first, lacks, alone, host))).
      rw (e, index_of-cut b'@' l r lacks) (splits_at_complete l r lacks first alone host)),
)

IsAddress-nonempty : (value : Text) → IsAddress value → 0 < length value
IsAddress-nonempty value (l, (r, (e, _, _, _, _))) = rw e (omega (arith, length-cut b'@' l r))

-- An address is accepted exactly if it has at most 254 characters, none of them white space, and
-- reads `mailbox@name.more` with no part empty, no further `@`, and no dot in `name`. So a host that
-- begins with a dot is refused.
pub is_valid_email_address_iff :
    (value : Text)
    → (is_valid_email_address value ≡ true)
      ↔ ((length value ≤ 254) × (any whitespace value ≡ false) × IsAddress value)
unfolding is_valid_email_address
is_valid_email_address_iff value = (
  (λ h.
      let (short, rest) = refused (length value == 0 || ltb 254 (length value)) _ h in
      let (visible, cut) = refused (any whitespace value) _ rest in
      (ground arith, visible, (splits_at_iff value).0 cut)),
  (λ (short, visible, address).
      let filled : 0 < length value = IsAddress-nonempty value address in
      let fits : (length value == 0 || ltb 254 (length value)) ≡ false = ground arith in
      rw (fits, visible) ((splits_at_iff value).1 address)),
)
