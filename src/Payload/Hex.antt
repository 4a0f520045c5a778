-- ===== src/Payload/Hex.antt =====
-- The payload that `parseHexPayload` of src/services/udp-probe.ts reads is the one that was written.
use oo_workers.Prelude.{
  ℕ, ◌+◌, ◌-◌, ◌*◌, ◌/◌, ◌%◌, ◌<◌, ◌≡◌, refl, sym, ap, ◌∙◌, subst, ◌↔◌, inl, inr, true, false, not,
  ◌||◌, List, [], ◌∷◌, some, arith, ltb, ◌==◌, and-true, Bool-cases, length, all, keep, All,
  if◌then◌else◌,
}
use oo_workers.Text.{Text}
use oo_workers.Payload.{
  Payload, buffer, is_hex, nibble, from_hex, cleaned, parse_clean, parse_hex_payload,
}

abbrev pub IsByte : ℕ → Type 0
IsByte b = b < 256

abbrev hex_digit : ℕ → ℕ
hex_digit n = if ltb n 10 then b'0' + n else b'a' + (n - 10)

-- Bytes as lower case digits, two for each.
abbrev pub to_hex : List ℕ → Text
to_hex [] = []
to_hex (b ∷ bs) = hex_digit (b / 16) ∷ hex_digit (b % 16) ∷ to_hex bs

hex_digit-is_hex : (n : ℕ) → n < 16 → is_hex (hex_digit n) ≡ true
unfolding is_hex
hex_digit-is_hex n h = ground arith

nibble-hex_digit : (n : ℕ) → n < 16 → nibble (hex_digit n) ≡ n
nibble-hex_digit n h = ground arith

hex_digit-nibble : (c : ℕ) → is_hex c ≡ true → (nibble c < 16) × (hex_digit (nibble c) ≡ c)
unfolding is_hex
hex_digit-nibble c h = ground arith

all-to_hex : (bs : List ℕ) → All IsByte bs → all is_hex (to_hex bs) ≡ true
unfolding all
all-to_hex [] h = refl
all-to_hex (b ∷ bs) (p, h) =
    rw
      (
        hex_digit-is_hex (b / 16) (omega arith),
        hex_digit-is_hex (b % 16) (omega arith),
        all-to_hex bs h,
      )
      refl

length-to_hex : (bs : List ℕ) → length (to_hex bs) ≡ 2 * length bs
length-to_hex [] = omega arith
length-to_hex (b ∷ bs) = omega (arith, length-to_hex bs)

from_hex-to_hex : (bs : List ℕ) → All IsByte bs → from_hex (to_hex bs) ≡ bs
unfolding from_hex
from_hex-to_hex [] h = refl
from_hex-to_hex (b ∷ bs) (p, h) =
    rw
      (
        nibble-hex_digit (b / 16) (omega arith),
        nibble-hex_digit (b % 16) (omega arith),
        from_hex-to_hex bs h,
      )
      (ap (λ x. x ∷ bs) (omega arith))

to_hex-from_hex :
    (s : Text)
    → all is_hex s ≡ true
    → length s % 2 ≡ 0
    → All IsByte (from_hex s) × (to_hex (from_hex s) ≡ s)
unfolding from_hex all
to_hex-from_hex [] h even = (tt, refl)
to_hex-from_hex (a ∷ []) h even = absurd (omega arith)
to_hex-from_hex (a ∷ b ∷ s) h even =
    let (high, rest) = and-true _ _ h in
    let (low, digits) = and-true _ _ rest in
    let (small, back) = hex_digit-nibble a high in
    let (small', back') = hex_digit-nibble b low in
    let (bytes, tail) = to_hex-from_hex s digits (omega arith) in
    let over : (nibble a * 16 + nibble b) / 16 ≡ nibble a = omega arith in
    let under : (nibble a * 16 + nibble b) % 16 ≡ nibble b = omega arith in
    ((omega arith, bytes), rw (over, under, back, back', tail) refl)

-- The buffer of a payload.
abbrev bytes_of : Payload → List ℕ
bytes_of (buffer bs) = bs
bytes_of _ = []

abbrev IsWritten : Text → List ℕ → Type 0
IsWritten s bs = All IsByte bs × (0 < length bs) × (s ≡ to_hex bs)

parse_clean_sound : (s : Text) (bs : List ℕ) → parse_clean s ≡ buffer bs → IsWritten s bs
unfolding parse_clean
parse_clean_sound s bs h = elim (Bool-cases (length s == 0)) [
  | inl empty ↦ cc (rw empty at h)
  | inr filled ↦ elim (Bool-cases (not (all is_hex s) || not (length s % 2 == 0))) [
    | inl bad ↦ cc (rw (filled, bad) at h)
    | inr good ↦
        let same : from_hex s ≡ bs = ap bytes_of (rw (filled, good) at h) in
        let digits : all is_hex s ≡ true = ground arith in
        let even : length s % 2 ≡ 0 = ground arith in
        let (bytes, back) = to_hex-from_hex s digits even in
        let written : s ≡ to_hex bs = sym back ∙ ap to_hex same in
        let size : length s ≡ 2 * length bs = ap length written ∙ length-to_hex bs in
        (subst (All IsByte) same bytes, ground arith, written)
  ]
]

parse_clean_complete : (s : Text) (bs : List ℕ) → IsWritten s bs → parse_clean s ≡ buffer bs
unfolding parse_clean
parse_clean_complete s bs (bytes, filled, written) =
    let size : length s ≡ 2 * length bs = ap length written ∙ length-to_hex bs in
    let some_digit : (length s == 0) ≡ false = ground arith in
    let even : (length s % 2 == 0) ≡ true = ground arith in
    let digits : all is_hex s ≡ true = ap (all is_hex) written ∙ all-to_hex bs bytes in
    rw (some_digit, digits, even) (ap buffer (ap from_hex written ∙ from_hex-to_hex bs bytes))

-- A text is read as a buffer exactly if, without its white space and in lower case, it is the
-- hexadecimal form of that buffer, two digits for each byte, and the buffer is not empty.
pub parse_hex_payload_iff :
    (hex : Text) (bs : List ℕ)
    → (parse_hex_payload (some hex) ≡ buffer bs)
      ↔ (All IsByte bs × (0 < length bs) × (cleaned hex ≡ to_hex bs))
unfolding parse_hex_payload parse_clean cleaned keep
parse_hex_payload_iff [] bs = ((λ h. cc h), parse_clean_complete [] bs)
parse_hex_payload_iff (c ∷ hex) bs =
    let filled : (length (c ∷ hex) == 0) ≡ false = ground arith in
    (
      (λ h. parse_clean_sound (cleaned (c ∷ hex)) bs (rw filled at h)),
      (λ written. rw filled (parse_clean_complete (cleaned (c ∷ hex)) bs written)),
    )
