-- ===== src/Probes.antt =====
-- The probes of src/services: each answers once, whatever its socket does after that.
pub mod Tcp
pub mod Udp
pub mod Db
pub mod Quiet
pub mod Tls
use oo_workers.Prelude.{ℕ, Bool, true, false, [], ◌∷◌, ◌++◌, Option, none, some}
use oo_workers.Text.{Text, codes, text_eq}
use oo_workers.Text.Decimal.{show}

-- What a probe reads of a `NodeJS.ErrnoException`.
pub record SocketError : Type 0 where
  pub code : Option Text
  pub message : Option Text

abbrev pub has_code : SocketError → Text → Bool
has_code e t = elim e.code [ none ↦ false | some c ↦ text_eq c t ]

abbrev pub address : Text → ℕ → Text
address host port = host ++ (codes ":" ++ show port)

-- An empty text counts as none.
abbrev pub non_empty : Option Text → Option Text
non_empty none = none
non_empty (some []) = none
non_empty (some (c ∷ s)) = some (c ∷ s)

abbrev pub is_some {ℓ} : {A : Type ℓ} → Option A → Bool
is_some none = false
is_some (some a) = true
