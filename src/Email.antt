-- ===== src/Email.antt =====
-- The addresses that email channels accept: src/utils/email.ts.
pub mod Shape
use mathlib.Core.Option
use oo_workers.Prelude.{
  ℕ, suc, ◌-◌, Bool, true, false, not, ◌&&◌, ◌||◌, List, [], ◌∷◌, Option, none, some, ltb, leb,
  ◌==◌, opt_eq, length, drop, any, if◌then◌else◌,
}
use oo_workers.Text.{Text, index_of, whitespace}

abbrev pub max_email_length : ℕ
max_email_length = 254

-- `lastIndexOf` of one character, given the index found so far and where the text stands.
abbrev last_index_from : ℕ → Option ℕ → ℕ → Text → Option ℕ
last_index_from c found i [] = found
last_index_from c found i (d ∷ s) = last_index_from c (if c == d then some i else found) (suc i) s

unfoldable pub last_index_of : ℕ → Text → Option ℕ
last_index_of c s = last_index_from c none 0 s

-- The dot is neither the first nor the last character of the domain.
unfoldable pub has_inner_dot : Text → Option ℕ → Bool
has_inner_dot domain none = false
has_inner_dot domain (some dot) = ltb 0 dot && not (dot == length domain - 1)

-- Exactly one `@`, with a character on each side, and then the domain.
unfoldable pub splits_at : Text → Option ℕ → Bool
splits_at value none = false
splits_at value (some at_sign) =
    if leb at_sign 0
      || (not (opt_eq (some at_sign) (last_index_of b'@' value)) || at_sign == length value - 1)
    then false
    else (let domain = drop (suc at_sign) value in has_inner_dot domain (index_of b'.' domain))

unfoldable pub is_valid_email_address : Text → Bool
is_valid_email_address value =
    if length value == 0 || ltb max_email_length (length value)
    then false
    else if any whitespace value
    then false
    else splits_at value (index_of b'@' value)
