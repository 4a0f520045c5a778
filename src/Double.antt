-- ===== src/Double.antt =====
-- The doubles that `Math.round((ok / total) * 1000)` goes through, for whole numbers `ok ≤ total`: a
-- quotient and a product, each rounded to 53 bits, half to even. A double is a mantissa over a power
-- of two.
use native.Mathlib.Nat.{
  div-add-mod, mod-lt, pow-suc, pow-le-pow_right, mul-le-mul_left, mul-le-mul_right,
}
use oo_workers.Prelude.{
  ℕ, zero, suc, ◌+◌, ◌*◌, ◌^◌, ◌/◌, ◌≤◌, ◌<◌, ◌≡◌, refl, true, false, arith, leb, ltb, ◌==◌,
  if◌then◌else◌, Bool-cases, inl, inr, ap, leb→le, subst,
}
use Prim.Native.Nat.{◌%◌}

-- The whole number nearest to `n / d`, the even one of two.
unfoldable pub nearest_even : ℕ → ℕ → ℕ
nearest_even n d =
    let q = n / d in
    let r = n % d in if ltb (2 * r) d then q else if ltb d (2 * r) then q + 1 else q + q % 2

pub nearest_even-bounds :
    (n d : ℕ)
    → 0 < d
    → (2 * d * nearest_even n d ≤ 2 * n + d) × (2 * n ≤ 2 * d * nearest_even n d + d)
unfolding nearest_even
nearest_even-bounds n d pos =
    let whole = div-add-mod n d in
    let part = mod-lt n {m = d} pos in
    elim (Bool-cases (ltb (2 * (n % d)) d)) [
      | inl low ↦ rw low (ground (arith, whole, part), ground (arith, whole, part, low))
      | inr not_low ↦ elim (Bool-cases (ltb d (2 * (n % d)))) [
        | inl high ↦
            rw (not_low, high) (ground (arith, whole, part, high), ground (arith, whole, part))
        | inr tie ↦ elim (Bool-cases ((n / d) % 2 == 0)) [
          | inl even ↦
              let e : (n / d) % 2 ≡ 0 = ground (arith, even) in
              rw (not_low, tie, e)
                (ground (arith, whole, tie, not_low), ground (arith, whole, tie, not_low))
          | inr odd ↦
              let e : (n / d) % 2 ≡ 1 = ground (arith, odd) in
              rw (not_low, tie, e)
                (ground (arith, whole, tie, not_low), ground (arith, whole, tie, not_low))
        ]
      ]
    ]

-- The power of two in the quotient: the first from 2 ^ 52 on that brings the mantissa to 53 bits.
unfoldable pub exponent : ℕ → ℕ → ℕ → ℕ → ℕ
exponent zero ok total e = e
exponent (suc n) ok total e = elim (leb (2 ^ 52 * total) (ok * 2 ^ e)) [
  | true ↦ e
  | false ↦ exponent n ok total (suc e)
]

le-exponent : (n ok total e : ℕ) → e ≤ exponent n ok total e
unfolding exponent
le-exponent zero ok total e = omega arith
le-exponent (suc n) ok total e = elim (Bool-cases (leb (2 ^ 52 * total) (ok * 2 ^ e))) [
  | inl fits ↦ rw (fits, exponent) (omega arith)
  | inr short ↦ rw (short, exponent) (omega (arith, le-exponent n ok total (suc e)))
]

-- `Math.round((ok / total) * 1000)`: nine or ten bits of the product are rounded off, and the last
-- rounding is exact, with halves up. The quotient takes at most `total` steps to 53 bits.
unfoldable pub rounded : ℕ → ℕ → ℕ
unfolding nearest_even exponent
rounded ok total =
    if ok == 0
    then 0
    else (let scale = 2 ^ exponent total ok total 52 in
        let product = nearest_even (ok * scale) total * 1000 in
        let unit = if ltb product (2 ^ 62) then 2 ^ 9 else 2 ^ 10 in
        (2 * (nearest_even product unit * unit) + scale) / (2 * scale))

exponent-fits :
    (n ok total e m : ℕ)
    → m ≡ n + e
    → 2 ^ 52 * total ≤ ok * 2 ^ m
    → 2 ^ 52 * total ≤ ok * 2 ^ exponent n ok total e
unfolding exponent
exponent-fits zero ok total e m same h =
    subst (λ k. 2 ^ 52 * total ≤ ok * 2 ^ k) (omega (arith, same)) h
exponent-fits (suc n) ok total e m same h = elim (Bool-cases (leb (2 ^ 52 * total) (ok * 2 ^ e))) [
  | inl fits ↦ rw (fits, exponent) (leb→le _ _ fits)
  | inr short ↦ rw (short, exponent) (exponent-fits n ok total (suc e) m (omega (arith, same)) h)
]

le-pow : (n : ℕ) → 2 ^ 52 * n ≤ 2 ^ (n + 52)
le-pow zero = omega arith
le-pow (suc n) =
    let next : suc n + 52 ≡ suc (n + 52) = omega arith in
    omega (
      arith,
      le-pow n,
      ap (λ (k : ℕ). 2 ^ k) next,
      pow-suc 2 (n + 52),
      pow-le-pow_right {n = 2} (omega arith) {i = 52} {j = n + 52} (omega arith),
    )

-- The steps are enough: the quotient gets its 53 bits.
exponent-enough : (ok total : ℕ) → 0 < ok → 2 ^ 52 * total ≤ ok * 2 ^ exponent total ok total 52
exponent-enough ok total pos =
    let one : 1 ≤ ok = omega (arith, pos) in
    exponent-fits total ok total 52 (total + 52) refl
      (omega (arith, le-pow total, mul-le-mul_right (2 ^ (total + 52)) one))

-- The two errors are too small to carry the product past the middle between two whole numbers.
module _ (ok T E K q r u : ℕ) (small : T < 2 ^ 40) (large : 2 ^ 52 ≤ E) (unit : K ≤ 1024) where
  below :
      2 * T * q ≤ 2 * (ok * E) + T
      → 2 * K * r ≤ 2 * (q * 1000) + K
      → 2 * E * u ≤ 2 * (r * K) + E
      → 2 * T * u ≤ 2000 * ok + T
  below a b c = elim (Bool-cases (leb (2 * T * u) (2000 * ok + T))) [
    | inl near ↦ leb→le _ _ near
    | inr far ↦
        let over : 2000 * ok + T + 1 ≤ 2 * T * u = ground (arith, far) in
        absurd (
          omega (
            arith,
            small,
            large,
            a,
            mul-le-mul_left T b,
            mul-le-mul_left T c,
            mul-le-mul_left T unit,
            mul-le-mul_left E over,
          ))
  ]

  above :
      2 * (ok * E) ≤ 2 * T * q + T
      → 2 * (q * 1000) ≤ 2 * K * r + K
      → 2 * (r * K) + E < 2 * E * (u + 1)
      → 2000 * ok ≤ 2 * T * u + T
  above a b c = elim (Bool-cases (leb (2000 * ok) (2 * T * u + T))) [
    | inl near ↦ leb→le _ _ near
    | inr far ↦
        let under : 2 * T * u + T + 1 ≤ 2000 * ok = ground (arith, far) in
        let c' : 2 * (r * K) + E + 1 ≤ 2 * E * (u + 1) = omega (arith, c) in
        absurd (
          omega (
            arith,
            small,
            large,
            a,
            mul-le-mul_left T b,
            mul-le-mul_left T c',
            mul-le-mul_left T unit,
            mul-le-mul_left E under,
          ))
  ]

div-bounds : (n d : ℕ) → 0 < d → (d * (n / d) ≤ n) × (n < d * (n / d + 1))
div-bounds n d pos =
    let whole = div-add-mod n d in
    let part = mod-lt n {m = d} pos in (omega (arith, whole), omega (arith, whole, part))

module _ (ok total e : ℕ) (some_ok : (ok == 0) ≡ false) (within : ok ≤ total)
    (small : total < 2 ^ 40) (found : exponent total ok total 52 ≡ e) where
  abbrev product : ℕ
  product = nearest_even (ok * 2 ^ e) total * 1000

  scaled :
      (unit : ℕ)
      → 0 < unit
      → unit ≤ 1024
      → (let u = (2 * (nearest_even product unit * unit) + 2 ^ e) / (2 * 2 ^ e) in
          (2 * total * u ≤ 2000 * ok + total) × (2000 * ok ≤ 2 * total * u + total))
  scaled unit pos le =
      let large : 2 ^ 52 ≤ 2 ^ e =
        pow-le-pow_right {n = 2} (omega arith)
          (subst (λ k. 52 ≤ k) found (le-exponent total ok total 52)) in
      let (a, a') = nearest_even-bounds (ok * 2 ^ e) total (ground (arith, some_ok, within)) in
      let (b, b') = nearest_even-bounds product unit pos in
      let (c, c') =
        div-bounds (2 * (nearest_even product unit * unit) + 2 ^ e) (2 * 2 ^ e)
          (omega (arith, large)) in
      (
        below ok total (2 ^ e) unit _ (nearest_even product unit) _ small large le a b c,
        above ok total (2 ^ e) unit _ (nearest_even product unit) _ small large le a' b' c',
      )

  rounded-scaled :
      (2 * total * rounded ok total ≤ 2000 * ok + total)
      × (2000 * ok ≤ 2 * total * rounded ok total + total)
  unfolding rounded
  rounded-scaled = elim (Bool-cases (ltb product (2 ^ 62))) [
    | inl low ↦ rw (some_ok, found, low) (scaled 512 (omega arith) (omega arith))
    | inr high ↦ rw (some_ok, found, high) (scaled 1024 (omega arith) (omega arith))
  ]

-- For fewer than 2 ^ 40 runs the result is a whole number nearest to the exact quotient.
pub rounded-near :
    (ok total : ℕ)
    → ok ≤ total
    → total < 2 ^ 40
    → (2 * total * rounded ok total ≤ 2000 * ok + total)
      × (2000 * ok ≤ 2 * total * rounded ok total + total)
rounded-near ok total within small = elim (Bool-cases (ok == 0)) [
  | inl nothing ↦ unfold rounded in rw nothing (ground (arith, nothing), ground (arith, nothing))
  | inr some_ok ↦ rounded-scaled ok total (exponent total ok total 52) some_ok within small refl
]

pub rounded-le : (ok total : ℕ) → 0 < total → ok ≤ total → total < 2 ^ 40 → rounded ok total ≤ 1000
rounded-le ok total pos within small = elim (Bool-cases (leb (rounded ok total) 1000)) [
  | inl fine ↦ leb→le _ _ fine
  | inr more ↦
      let over : 1001 ≤ rounded ok total = ground (arith, more) in
      absurd (
        omega
          (arith, pos, within, (rounded-near ok total within small).0, mul-le-mul_left total over))
]
