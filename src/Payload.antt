-- ===== src/Payload.antt =====
-- The payload of tcp and udp monitors, written in hexadecimal: `parseHexPayload` of
-- src/services/udp-probe.ts.
pub mod Hex
use oo_workers.Prelude.{
  ℕ, ◌+◌, ◌-◌, ◌*◌, ◌%◌, Bool, not, ◌&&◌, ◌||◌, List, [], ◌∷◌, Option, none, some, ltb, leb, ◌==◌,
  length, all, keep, if◌then◌else◌,
}
use oo_workers.Text.{Text, to_lower, whitespace}

-- `null`, a buffer, or the throw.
pub data Payload : Type 0 where
  absent : Payload
  buffer : List ℕ → Payload
  malformed : Payload

unfoldable pub is_hex : ℕ → Bool
is_hex c = (leb b'0' c && leb c b'9') || (leb b'a' c && leb c b'f')

abbrev pub nibble : ℕ → ℕ
nibble c = if leb c b'9' then c - b'0' else c - b'a' + 10

-- `Buffer.from(clean, 'hex')`, on an even number of lower case digits.
unfoldable pub from_hex : Text → List ℕ
from_hex [] = []
from_hex (a ∷ []) = []
from_hex (a ∷ b ∷ s) = (nibble a * 16 + nibble b) ∷ from_hex s

-- The text without its white space, in lower case.
unfoldable pub cleaned : Text → Text
cleaned hex = to_lower (keep (λ c. not (whitespace c)) hex)

unfoldable pub parse_clean : Text → Payload
parse_clean clean =
    if length clean == 0
    then absent
    else if not (all is_hex clean) || not (length clean % 2 == 0)
    then malformed
    else buffer (from_hex clean)

unfoldable pub parse_hex_payload : Option Text → Payload
parse_hex_payload none = absent
parse_hex_payload (some hex) = if length hex == 0 then absent else parse_clean (cleaned hex)
