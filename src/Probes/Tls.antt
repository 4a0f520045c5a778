-- ===== src/Probes/Tls.antt =====
-- `tlsProbe` of src/services/tls-probe.ts. What Node's TLS offers is a record: the reading of dates
-- and of regular expressions, and `checkServerIdentity`. Times are milliseconds.
pub mod Judged
use oo_workers.Prelude.{
  ℕ, suc, ◌+◌, ◌-◌, ◌*◌, ◌/◌, Bool, true, false, not, ◌&&◌, ◌||◌, List, [], ◌∷◌, ◌++◌, map, Option,
  none, some, ltb, leb, ◌==◌, any, keep, length, drop, from_option, if◌then◌else◌,
}
use oo_workers.Text.{Text, codes, text_eq, starts_with, whitespace}
use oo_workers.Text.Decimal.{show}
use oo_workers.Db.{Days, left, ago}
use oo_workers.Incident.{trim_start, trim_end}
use oo_workers.Probes.{SocketError, has_code, address, non_empty}

-- `getPeerCertificate()`, as far as it is read.
pub record PeerCertificate : Type 0 where
  pub valid_to : Text
  pub subject_cn : Option Text
  pub issuer_cn : Option Text
  pub subjectaltname : Option Text

-- `authorizationError`, where there is one: an `Error`, or a text.
pub data AuthorizationError : Type 0 where
  an_error : (code : Option Text) (message : Text) → AuthorizationError
  a_text : Text → AuthorizationError

-- What is known of a socket after the handshake.
pub record TlsSession : Type 0 where
  pub certificate : Option PeerCertificate
  pub authorized : Bool
  pub authorization_error : Option AuthorizationError

pub record TlsApi : Type 1 where
  -- `new Date(text).getTime()`, none for an invalid date.
  pub parse_date : Text → Option ℕ
  -- The message of the error that `checkServerIdentity` returns.
  pub check_server_identity : Text → PeerCertificate → Option Text
  pub is_ip : Text → Bool
  pub Pattern : Type 0
  -- `new RegExp(text)`, or the message of the error.
  pub compile : Text → Pattern
  pub compile_error : Text → Option Text
  pub matches : Pattern → Text → Bool

pub record TlsProbeOptions : Type 0 where
  pub host : Text
  pub port : ℕ
  pub timeout_ms : ℕ
  pub warn_days : ℕ
  pub servername : Option Text
  pub verify_chain : Bool
  pub verify_hostname : Bool
  pub expect_cn_regex : Option Text

pub record TlsProbeResult : Type 0 where
  pub ok : Bool
  pub latency_ms : ℕ
  pub days_remaining : Option Days
  pub valid_to : Option ℕ
  pub cert_summary : Option Text
  pub error_message : Option Text

pub data TlsEvent : Type 0 where
  secure_connect : (now : ℕ) → TlsSession → TlsEvent
  timeout : TlsEvent
  error : SocketError → TlsEvent

pub record TlsProbe : Type 0 where
  pub settled : Option TlsProbeResult

abbrev pub tls_start : TlsProbe
tls_start = record { settled = none }

abbrev pub day_ms : ℕ
day_ms = 86400000

-- `Math.floor((validTo - now) / 86_400_000)`.
unfoldable pub days_between : ℕ → ℕ → Days
days_between now valid_to =
    if leb now valid_to
    then left ((valid_to - now) / day_ms)
    else ago ((now - valid_to + day_ms - 1) / day_ms)

abbrev pub days_le : Days → ℕ → Bool
days_le (left n) k = leb n k
days_le (ago n) k = true

unfoldable pub map_tls_error : SocketError → Text → ℕ → Text
map_tls_error e host port =
    if has_code e (codes "ENOTFOUND")
    then codes "DNS resolution failed: Host not found (" ++ (host ++ codes ")")
    else if has_code e (codes "ECONNREFUSED")
    then codes "Connection refused (" ++ (address host port ++ codes ")")
    else if has_code e (codes "ETIMEDOUT")
    then codes "Connection timed out (" ++ (address host port ++ codes ")")
    else if has_code e (codes "EHOSTUNREACH")
    then codes "Host unreachable (" ++ (host ++ codes ")")
    else if has_code e (codes "ENETUNREACH")
    then codes "Network unreachable (" ++ (host ++ codes ")")
    else elim e.message [ none ↦ codes "TLS handshake error" | some m ↦ m ]

-- `split(',')`.
unfoldable pub split_comma : Text → List Text
split_comma [] = [] ∷ []
split_comma (c ∷ s) =
    let rest = split_comma s in
    if c == b',' then [] ∷ rest else elim rest [ [] ↦ (c ∷ []) ∷ [] | w ∷ ws ↦ (c ∷ w) ∷ ws ]

unfoldable pub parse_dns_sans : Option Text → List Text
unfolding keep split_comma trim_start trim_end
parse_dns_sans none = []
parse_dns_sans (some []) = []
parse_dns_sans (some (c ∷ san)) = map (drop 4) (
    keep (starts_with (codes "DNS:"))
      (map (λ (s : Text). trim_end (trim_start s)) (split_comma (c ∷ san))))

-- The code is read off an object only.
abbrev pub is_altname : Option AuthorizationError → Bool
is_altname (some (an_error (some code) message)) =
    text_eq code (codes "ERR_TLS_CERT_ALTNAME_INVALID")
is_altname _ = false

abbrev reason : Option AuthorizationError → Text
reason (some (an_error code message)) = message
reason (some (a_text (c ∷ s))) = c ∷ s
reason _ = codes "unauthorized"

unfoldable pub check_tls_chain : TlsSession → Option Text
check_tls_chain s =
    if s.authorized || is_altname s.authorization_error
    then none
    else some (codes "Certificate chain not trusted: " ++ reason s.authorization_error)

-- What a certificate is called, where the name is not empty.
abbrev pub cn_targets : PeerCertificate → List Text
unfolding parse_dns_sans
cn_targets c =
    let sans = parse_dns_sans c.subjectaltname in
    keep (λ (t : Text). ltb 0 (length t)) (elim c.subject_cn [ none ↦ sans | some cn ↦ cn ∷ sans ])

abbrev intersperse : List Text → Text
intersperse [] = []
intersperse (s ∷ []) = s
intersperse (s ∷ t ∷ ts) = s ++ (b',' ∷ intersperse (t ∷ ts))

abbrev names_of : List Text → Text
names_of [] = codes "none"
names_of (s ∷ ss) = intersperse (s ∷ ss)

abbrev pub or_null : Option Text → Option Text → Option Text
or_null none b = b
or_null (some a) b = some a

module _ (T : TlsApi) (o : TlsProbeOptions) where
  unfoldable pub check_tls_hostname : Text → PeerCertificate → Option Text
  check_tls_hostname host c = elim (T.check_server_identity host c) [
    | none ↦ none
    | some m ↦ some (codes "Certificate not valid for " ++ (host ++ (codes ": " ++ m)))
  ]

  unfoldable pub check_expected_cn : Text → PeerCertificate → Option Text
  unfolding any keep parse_dns_sans
  check_expected_cn expression c = elim (T.compile_error expression) [
    | some m ↦ some (codes "Invalid expect_cn_regex: " ++ m)
    | none ↦
        if any (T.matches (T.compile expression)) (cn_targets c)
        then none
        else some (
            codes "No CN/SAN matches /"
            ++ (expression
                ++ (codes "/ (CN="
                    ++ (from_option (codes "?") c.subject_cn
                        ++ (codes "; SAN="
                            ++ (names_of (parse_dns_sans c.subjectaltname) ++ codes ")"))))))
  ]

  abbrev pub chain_part : TlsSession → Option Text
  unfolding check_tls_chain
  chain_part s = if o.verify_chain then check_tls_chain s else none

  abbrev pub hostname_part : Text → PeerCertificate → Option Text
  unfolding check_tls_hostname
  hostname_part host c = if o.verify_hostname then check_tls_hostname host c else none

  abbrev pub cn_part : PeerCertificate → Option Text
  unfolding check_expected_cn
  cn_part c = elim (non_empty o.expect_cn_regex) [
    | none ↦ none
    | some expression ↦ check_expected_cn expression c
  ]

  -- The first failure of the assertions that are switched on.
  unfoldable pub eval_tls_assertions : TlsSession → PeerCertificate → Text → Option Text
  unfolding check_tls_chain check_tls_hostname check_expected_cn
  eval_tls_assertions s c host = or_null (chain_part s) (or_null (hostname_part host c) (cn_part c))

  -- The name that SNI sends, unless it is an address: then the host.
  abbrev pub host_for_id : Text
  host_for_id =
      let raw = from_option o.host (non_empty o.servername) in if T.is_ip raw then o.host else raw

  abbrev place : Text
  place = codes " (" ++ (address o.host o.port ++ codes ")")

  abbrev summary : PeerCertificate → Text
  summary c =
      codes "CN="
      ++ (from_option (codes "?") c.subject_cn
          ++ (codes "; issuer="
              ++ (from_option (codes "?") c.issuer_cn ++ (codes "; valid_to=" ++ c.valid_to))))

  abbrev expiry_message : Days → Text
  expiry_message (ago n) = codes "Certificate expired " ++ (show n ++ (codes "d ago" ++ place))
  expiry_message (left n) =
      codes "Certificate expires in "
      ++ (show n ++ (codes "d (≤ warn " ++ (show o.warn_days ++ (codes "d)" ++ place))))

  abbrev bare : ℕ → Text → TlsProbeResult
  bare ms message = record {
    ok = false;
    latency_ms = ms;
    days_remaining = none;
    valid_to = none;
    cert_summary = none;
    error_message = some message;
  }

  abbrev dated : ℕ → PeerCertificate → Days → ℕ → Option Text → TlsProbeResult
  dated ms c days valid_to message = record {
    ok = elim message [ none ↦ true | some m ↦ false ];
    latency_ms = ms;
    days_remaining = some days;
    valid_to = some valid_to;
    cert_summary = some (summary c);
    error_message = message;
  }

  -- What is said of a certificate whose date can be read.
  unfoldable pub judge_dated : ℕ → ℕ → TlsSession → PeerCertificate → ℕ → TlsProbeResult
  unfolding eval_tls_assertions days_between
  judge_dated ms now s c valid_to =
      let days = days_between now valid_to in
      if days_le days o.warn_days
      then dated ms c days valid_to (some (expiry_message days))
      else elim (eval_tls_assertions s c host_for_id) [
        | some m ↦ dated ms c days valid_to (some (m ++ place))
        | none ↦ dated ms c days valid_to none
      ]

  -- The handler of `secureConnect`.
  unfoldable pub judge : ℕ → ℕ → TlsSession → TlsProbeResult
  unfolding judge_dated
  judge ms now s = elim s.certificate [
    | none ↦ bare ms (codes "No peer certificate" ++ place)
    | some c ↦ elim c.valid_to [
      | [] ↦ bare ms (codes "No peer certificate" ++ place)
      | x ∷ date ↦ elim (T.parse_date (x ∷ date)) [
        | none ↦ record (bare ms (codes "Unparseable certificate validity" ++ place)) {
          cert_summary = some (summary c);
        }
        | some valid_to ↦ judge_dated ms now s c valid_to
      ]
    ]
  ]

  unfoldable pub finish_tls : TlsProbeResult → TlsProbe → TlsProbe
  finish_tls r p = elim p.settled [ none ↦ record { settled = some r } | some _ ↦ p ]

  unfoldable pub tls_step : ℕ × TlsEvent → TlsProbe → TlsProbe
  unfolding judge finish_tls map_tls_error
  tls_step (ms, secure_connect now s) p = finish_tls (judge ms now s) p
  tls_step (ms, timeout) p =
      finish_tls
        (bare ms
          (codes "TLS handshake timed out after " ++ (show o.timeout_ms ++ (codes "ms" ++ place))))
        p
  tls_step (ms, error e) p = finish_tls (bare ms (map_tls_error e o.host o.port)) p

  unfoldable pub tls_probe : List (ℕ × TlsEvent) → TlsProbe → TlsProbe
  unfolding tls_step
  tls_probe [] p = p
  tls_probe (e ∷ es) p = tls_probe es (tls_step e p)
