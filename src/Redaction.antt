-- ===== src/Redaction.antt =====
-- src/utils/fetch-errors.ts: credentials are taken out of a URL before it reaches a message, and a
-- failed request becomes a message. `Query` has the law of the text scan.
pub mod Query
use oo_workers.Prelude.{
  ℕ, zero, suc, Bool, true, false, not, ◌&&◌, ◌||◌, List, [], ◌∷◌, ◌++◌, Option, none, some, ◌==◌,
  any, keep, length, drop, if◌then◌else◌,
}
use oo_workers.Text.{Text, codes, text_eq, to_lower, starts_with, includes}
use oo_workers.Text.Decimal.{show}

abbrev pub sensitive_params : List Text
sensitive_params =
    codes "apikey"
    ∷ codes "apitoken"
    ∷ codes "apisecret"
    ∷ codes "accesstoken"
    ∷ codes "accesskey"
    ∷ codes "refreshtoken"
    ∷ codes "idtoken"
    ∷ codes "authtoken"
    ∷ codes "authkey"
    ∷ codes "sessiontoken"
    ∷ codes "bearer"
    ∷ codes "token"
    ∷ codes "auth"
    ∷ codes "authorization"
    ∷ codes "credential"
    ∷ codes "credentials"
    ∷ codes "secret"
    ∷ codes "secretkey"
    ∷ codes "privatekey"
    ∷ codes "clientsecret"
    ∷ codes "password"
    ∷ codes "passwd"
    ∷ codes "passphrase"
    ∷ codes "pwd"
    ∷ codes "sessionid"
    ∷ codes "session"
    ∷ codes "signature"
    ∷ codes "sig"
    ∷ codes "key"
    ∷ []

abbrev pub redacted : Text
redacted = codes "REDACTED"

-- `isSensitiveParam`.
unfoldable pub is_sensitive_param : Text → Bool
unfolding any keep
is_sensitive_param name =
    let plain = keep (λ c. not (c == b'-' || c == b'_')) (to_lower name) in
    any (text_eq plain) sensitive_params

-- `DELIMITERS`: an ampersand and the blanks.
abbrev pub is_delimiter : ℕ → Bool
is_delimiter c =
    c == b'&' || (c == 32 || (c == 9 || (c == 10 || (c == 13 || (c == 12 || c == 11)))))

abbrev pub ends_name : ℕ → Bool
ends_name c = c == b'=' || is_delimiter c

-- What stands before the first character that passes the test, and the rest from there on.
unfoldable pub before : (ℕ → Bool) → Text → Text × Text
before p [] = ([], [])
before p (c ∷ s) = elim (p c) [
  | true ↦ ([], c ∷ s)
  | false ↦ let (word, rest) = before p s in (c ∷ word, rest)
]

-- The parameter at the start of a text: its name, its value, and what follows them.
parameter_of : Text → Text → Option (Text × Text × Text)
unfolding before
parameter_of [] rest = none
parameter_of (c ∷ name) [] = none
parameter_of (c ∷ name) (d ∷ rest) =
    if d == b'='
    then (let (value, rest') = before is_delimiter rest in some (c ∷ name, value, rest'))
    else none

unfoldable pub parameter : Text → Option (Text × Text × Text)
unfolding parameter_of before
parameter s = let (name, rest) = before ends_name s in parameter_of name rest

abbrev pub hide : Text × Text → Text × Text
hide (name, value) = (name, if is_sensitive_param name then redacted else value)

abbrev pub print_parameter : Text × Text → Text
print_parameter (name, value) = name ++ (b'=' ∷ value)

abbrev pub opens : ℕ → Bool
opens c = c == b'?' || c == b'&'

abbrev parameter_if : Bool → Text → Option (Text × Text × Text)
parameter_if true s = parameter s
parameter_if false s = none

-- `redactQuerySecretsInText`, with a bound on the number of its steps.
unfoldable pub scan : ℕ → Text → Text
scan zero s = []
scan (suc n) [] = []
scan (suc n) (c ∷ s) = elim (parameter_if (opens c) s) [
  | none ↦ c ∷ scan n s
  | some (name, value, rest) ↦ c ∷ (print_parameter (hide (name, value)) ++ scan n rest)
]

-- Each step takes at least one character.
unfoldable pub redact_query_secrets_in_text : Text → Text
unfolding scan
redact_query_secrets_in_text raw = scan (length raw) raw

-- The characters that `\s` stands for, without the rarer blanks of Unicode.
abbrev is_blank : ℕ → Bool
is_blank c =
    c == 32
    || (c == 9 || (c == 10 || (c == 11 || (c == 12 || (c == 13 || (c == 160 || c == 65279))))))

abbrev ends_userinfo : ℕ → Bool
ends_userinfo c = c == b'/' || (c == b'@' || is_blank c)

after_at : Text → Option Text
after_at [] = none
after_at (c ∷ s) = if c == b'@' then some s else none

-- What follows a `//user:password@` at the start of a text.
unfoldable pub after_userinfo : Text → Option Text
unfolding after_at before
after_userinfo s =
    if starts_with (codes "//") s then after_at (before ends_userinfo (drop 2 s)).1 else none

-- `raw.replaceAll(/(\/\/)[^/@\s]*@/g, '$1')`
unfoldable pub strip_userinfo : ℕ → Text → Text
unfolding after_userinfo
strip_userinfo zero s = []
strip_userinfo (suc n) [] = []
strip_userinfo (suc n) (c ∷ s) = elim (after_userinfo (c ∷ s)) [
  | none ↦ c ∷ strip_userinfo n s
  | some rest ↦ codes "//" ++ strip_userinfo n rest
]

-- What the source uses of the platform's `URL`.
pub record UrlApi : Type 1 where
  pub Url : Type 0
  pub parse : Text → Option Url
  pub has_userinfo : Url → Bool
  pub clear_userinfo : Url → Url
  -- `searchParams.keys()`, and `searchParams.set(name, value)`.
  pub keys : Url → List Text
  pub set : Text → Text → Url → Url
  pub render : Url → Text

module _ (U : UrlApi) where
  unfoldable pub hide_all : List Text → U.Url → U.Url
  hide_all [] u = u
  hide_all (name ∷ names) u = hide_all names (U.set name redacted u)

  unfoldable pub redact_url : U.Url → U.Url
  unfolding hide_all keep is_sensitive_param
  redact_url u =
      let u' = if U.has_userinfo u then U.clear_userinfo u else u in
      hide_all (keep is_sensitive_param (U.keys u')) u'

  -- `redactUrlCredentials`.
  unfoldable pub redact_url_credentials : Text → Text
  unfolding redact_url redact_query_secrets_in_text strip_userinfo
  redact_url_credentials raw = elim (U.parse raw) [
    | some u ↦ U.render (redact_url u)
    | none ↦ redact_query_secrets_in_text (strip_userinfo (length raw) raw)
  ]

-- `text.split(url).join(safe)` for a text that is not empty.
unfoldable pub replace_all : ℕ → Text → Text → Text → Text
replace_all zero url safe s = s
replace_all (suc n) url safe [] = []
replace_all (suc n) url safe (c ∷ s) = elim (starts_with url (c ∷ s)) [
  | true ↦ safe ++ replace_all n url safe (drop (length url) (c ∷ s))
  | false ↦ c ∷ replace_all n url safe s
]

unfoldable pub scrub : Text → Text → Text → Text
unfolding replace_all includes
scrub [] safe text = text
scrub (u ∷ url) safe text =
    if includes (u ∷ url) text then replace_all (length text) (u ∷ url) safe text else text

pub record Cause : Type 0 where
  pub code : Option Text
  pub message : Option Text

-- What a `catch` gets: an `Error`, or some other value.
pub data Thrown : Type 0 where
  error : (name : Text) (message : Option Text) (cause : Option Cause) → Thrown
  not_an_error : Thrown

abbrev code_is : Option Text → Text → Bool
code_is none t = false
code_is (some s) t = text_eq s t

abbrev of_message : Text → Text → Option Text → Text
of_message url safe none = scrub url safe (codes "Unknown error")
of_message url safe (some text) = scrub url safe text

abbrev of_cause_message : Text → Text → Option Text → Option Text → Text
of_cause_message url safe none message = of_message url safe message
of_cause_message url safe (some []) message = of_message url safe message
of_cause_message url safe (some (c ∷ cause)) message =
    codes "Network error: " ++ scrub url safe (c ∷ cause)

of_cause : Text → Text → Option Cause → Option Text → Text
unfolding scrub
of_cause url safe none message = of_message url safe message
of_cause url safe (some cause) message =
    if code_is cause.code (codes "ENOTFOUND")
    then codes "DNS resolution failed: Host not found (" ++ (safe ++ codes ")")
    else if code_is cause.code (codes "ECONNREFUSED")
    then codes "Connection refused: Target machine actively refused it (" ++ (safe ++ codes ")")
    else if code_is cause.code (codes "ETIMEDOUT")
    then codes "Connection timed out (" ++ (safe ++ codes ")")
    else of_cause_message url safe cause.message message

-- `classifyFetchError`.
unfoldable pub classify_fetch_error : UrlApi → Thrown → Text → ℕ → Text
unfolding of_cause redact_url_credentials
classify_fetch_error U not_an_error url timeout_ms = codes "Unknown error"
classify_fetch_error U (error name message cause) url timeout_ms =
    if text_eq name (codes "TimeoutError") || text_eq name (codes "AbortError")
    then codes "Request timed out after " ++ (show timeout_ms ++ codes "ms")
    else of_cause url (redact_url_credentials U url) cause message
