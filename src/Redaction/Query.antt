-- ===== src/Redaction/Query.antt =====
-- The text scan against what it is for: a query string with the secret values replaced
-- (src/utils/fetch-errors.ts, `redactQuerySecretsInText`).
use oo_workers.Prelude.{
  ℕ, zero, suc, ◌≤◌, ◌≡◌, refl, ◌∙◌, ap, Bool, true, false, List, [], ◌∷◌, ◌++◌, some, arith, All,
  length, length-append, append_assoc, append-nil, map, Bool-cases, inl, inr, any, keep, not, ◌||◌,
  ◌==◌,
}
use oo_workers.Text.{Text, codes, text_eq, to_lower, OneOf, any-OneOf, any-none}
use oo_workers.Redaction.{
  is_sensitive_param, sensitive_params, is_delimiter, ends_name, opens, before, parameter,
  parameter_of, hide, print_parameter, scan, redact_query_secrets_in_text,
}

-- No character passes the test.
abbrev pub Free : (ℕ → Bool) → Text → Type 0
Free p s = All (λ (c : ℕ). p c ≡ false) s

-- What follows a parameter: nothing, or an ampersand.
abbrev IsQueryEnd : Text → Type 0
IsQueryEnd [] = Unit
IsQueryEnd (c ∷ s) = c ≡ b'&'

-- A parameter of a query: a name that is not empty.
abbrev pub IsParameter : Text × Text → Type 0
IsParameter ([], value) = ⊥
IsParameter (c ∷ name, value) = Free ends_name (c ∷ name) × Free is_delimiter value

-- A query string, from its first separator on: the first is a question mark, the others are `&`.
pub query : ℕ → List (Text × Text) → Text
query sep [] = []
query sep (p ∷ ps) = sep ∷ (print_parameter p ++ query b'&' ps)

before-append :
    (p : ℕ → Bool) (word : Text) (c : ℕ) (rest : Text)
    → Free p word
    → p c ≡ true
    → before p (word ++ (c ∷ rest)) ≡ (word, c ∷ rest)
unfolding before
before-append p [] c rest f h = rw h refl
before-append p (d ∷ word) c rest (e, f) h = rw (e, before-append p word c rest f h) refl

before-all : (p : ℕ → Bool) (word : Text) → Free p word → before p word ≡ (word, [])
unfolding before
before-all p [] f = refl
before-all p (d ∷ word) (e, f) =
    rw (before, e) (ap (λ (w : Text × Text). (d ∷ w.0, w.1)) (before-all p word f))

before-value :
    (value rest : Text)
    → Free is_delimiter value
    → IsQueryEnd rest
    → before is_delimiter (value ++ rest) ≡ (value, rest)
before-value value [] f e =
    ap (before is_delimiter) (append-nil value) ∙ before-all is_delimiter value f
before-value value (c ∷ rest) f e = before-append is_delimiter value c rest f (rw e refl)

parameter-print :
    (p : Text × Text) (rest : Text)
    → IsParameter p
    → IsQueryEnd rest
    → parameter (print_parameter p ++ rest) ≡ some (p.0, p.1, rest)
unfolding parameter parameter_of
parameter-print ([], value) rest h e = absurd h
parameter-print (c ∷ name, value) rest (f, g) e =
    ap parameter (append_assoc (c ∷ name) (b'=' ∷ value) rest)
    ∙ ap (λ (w : Text × Text). parameter_of w.0 w.1)
        (before-append ends_name (c ∷ name) b'=' (value ++ rest) f refl)
    ∙ ap (λ (w : Text × Text). some (c ∷ name, w.0, w.1)) (before-value value rest g e)

scan_hit :
    (n c : ℕ) (s name value rest : Text)
    → opens c ≡ true
    → parameter s ≡ some (name, value, rest)
    → scan (suc n) (c ∷ s) ≡ c ∷ (print_parameter (hide (name, value)) ++ scan n rest)
unfolding scan
scan_hit n c s name value rest o e = rw (scan, o, scan, e) refl

scan_miss : (n c : ℕ) (s : Text) → opens c ≡ false → scan (suc n) (c ∷ s) ≡ c ∷ scan n s
unfolding scan
scan_miss n c s o = rw (scan, o) refl

IsQueryEnd-query : (ps : List (Text × Text)) → IsQueryEnd (query b'&' ps)
unfolding query
IsQueryEnd-query [] = tt
IsQueryEnd-query (p ∷ ps) = refl

-- A scan with enough steps gives the query with its secrets hidden.
scan-query :
    (n sep : ℕ) (ps : List (Text × Text))
    → length (query sep ps) ≤ n
    → opens sep ≡ true
    → All IsParameter ps
    → scan n (query sep ps) ≡ query sep (map hide ps)
unfolding query
scan-query zero sep [] le o h = unfold scan in refl
scan-query (suc n) sep [] le o h = unfold scan in refl
scan-query zero sep (p ∷ ps) le o (h, hs) = absurd (omega (arith, le))
scan-query (suc n) sep (p ∷ ps) le o (h, hs) =
    scan_hit n sep (print_parameter p ++ query b'&' ps) p.0 p.1 (query b'&' ps) o
      (parameter-print p (query b'&' ps) h (IsQueryEnd-query ps))
    ∙ ap (λ s. sep ∷ (print_parameter (hide p) ++ s))
        (scan-query n b'&' ps (omega (arith, le, length-append (print_parameter p) (query b'&' ps)))
          refl hs)

scan-prefix :
    (n : ℕ) (before_query : Text) (ps : List (Text × Text))
    → length (before_query ++ query b'?' ps) ≤ n
    → Free opens before_query
    → All IsParameter ps
    → scan n (before_query ++ query b'?' ps) ≡ before_query ++ query b'?' (map hide ps)
scan-prefix n [] ps le f h = scan-query n b'?' ps le refl h
scan-prefix zero (c ∷ s) ps le (o, f) h = absurd (omega (arith, le))
scan-prefix (suc n) (c ∷ s) ps le (o, f) h =
    scan_miss n c (s ++ query b'?' ps) o
    ∙ ap (λ r. c ∷ r) (scan-prefix n s ps (omega (arith, le)) f h)

-- A name is secret if, in lower case and without dashes and underscores, it is one of the list.
abbrev pub IsSecret : Text → Type 0
IsSecret name = OneOf (keep (λ c. not (c == b'-' || c == b'_')) (to_lower name)) sensitive_params

-- Of each parameter the name, and the value: `REDACTED` if the name is secret, and itself if not.
abbrev pub Redacts : List (Text × Text) → List (Text × Text) → Type 0
Redacts [] [] = Unit
Redacts (p ∷ ps) (q ∷ qs) =
    (q.0 ≡ p.0)
    × (IsSecret p.0 → q.1 ≡ codes "REDACTED")
    × ((IsSecret p.0 → ⊥) → q.1 ≡ p.1)
    × Redacts ps qs
Redacts _ _ = ⊥

hide-Redacts : (ps : List (Text × Text)) → Redacts ps (map hide ps)
unfolding is_sensitive_param
hide-Redacts [] = tt
hide-Redacts ((name, value) ∷ ps) =
    let plain : Text = keep (λ c. not (c == b'-' || c == b'_')) (to_lower name) in
    elim (Bool-cases (any (text_eq plain) sensitive_params)) [
      | inl hit ↦ rw hit (
        refl,
        (λ s. refl),
        (λ no_secret. absurd (no_secret (any-OneOf plain sensitive_params hit))),
        hide-Redacts ps,
      )
      | inr miss ↦ rw miss (
        refl,
        (λ s. absurd (any-none plain sensitive_params miss s)),
        (λ no_secret. refl),
        hide-Redacts ps,
      )
    ]

-- In a text that is a part without question mark and ampersand and then a query string of parameters
-- with names that are not empty: every parameter whose name is secret has its value replaced by
-- `REDACTED`, and every other character, and the order of the parameters, stays as it was.
pub redact-query :
    (plain : Text) (ps : List (Text × Text))
    → Free opens plain
    → All IsParameter ps
    → (qs : List (Text × Text)) × Redacts ps qs
      × (redact_query_secrets_in_text (plain ++ query b'?' ps) ≡ plain ++ query b'?' qs)
unfolding redact_query_secrets_in_text
redact-query plain ps f h = (
  map hide ps,
  hide-Redacts ps,
  scan-prefix (length (plain ++ query b'?' ps)) plain ps (omega arith) f h,
)
