-- ===== src/Incident/Rendered.antt =====
-- No markup of an operator survives in what src/services/incident-render.ts writes.
use oo_workers.Prelude.{
  ℕ, zero, suc, ◌-◌, ◌≢◌, inl, inr, ◌≡◌, refl, subst, true, false, ◌&&◌, List, [], ◌∷◌, map, ◌==◌,
  ==_iff, length, any, All, All-append, and-true, Bool-cases, arith,
}
use oo_workers.Text.{Text, codes, starts_with, whitespace}
use oo_workers.Incident.{
  escape_char, escape_html, replace_all, crlf, blank_line, push, split_blocks, code_span, bold,
  line_break, trim_start, trim_end, render_block, join, render_incident_markdown,
}
use oo_workers.Incident.Tags.{
  IsTagChar, opens_tag, opens_tag_kept, IsTagged, IsTagged-append, IsTagged-replace_all,
  IsTagged-wrap, code_span-quiet, bold-quiet, line_break-quiet, IsTagged-code_span, IsTagged-bold,
  IsTagged-line_break,
}

-- The text holds no `<`.
abbrev IsEscaped : Text → Type 0
IsEscaped s = All (λ c. c ≢ b'<') s

IsEscaped-IsTagged : (s : Text) → IsEscaped s → IsTagged s
IsEscaped-IsTagged [] h = tt
IsEscaped-IsTagged (c ∷ s) (p, h) = ((λ e. absurd (p e)), IsEscaped-IsTagged s h)

escape_char-IsEscaped : (c : ℕ) → IsEscaped (escape_char c)
unfolding escape_char
escape_char-IsEscaped c = elim (Bool-cases (c == b'&')) [
  | inl e ↦ rw e (omega arith)
  | inr amp ↦ elim (Bool-cases (c == b'<')) [
    | inl e ↦ rw (amp, e) (omega arith)
    | inr lt ↦ elim (Bool-cases (c == b'>')) [
      | inl e ↦ rw (amp, lt, e) (omega arith)
      | inr gt ↦ elim (Bool-cases (c == b'"')) [
        | inl e ↦ rw (amp, lt, gt, e) (omega arith)
        | inr quot ↦ elim (Bool-cases (c == 39)) [
          | inl e ↦ rw (amp, lt, gt, quot, e) (omega arith)
          | inr apos ↦ rw (amp, lt, gt, quot, apos) ((λ e. cc (rw ((==_iff c b'<').1 e) at lt)), tt)
        ]
      ]
    ]
  ]
]

escape_html-IsEscaped : (s : Text) → IsEscaped (escape_html s)
unfolding escape_html
escape_html-IsEscaped [] = tt
escape_html-IsEscaped (c ∷ s) =
    All-append _ (escape_char c) (escape_html s) (escape_char-IsEscaped c) (escape_html-IsEscaped s)

replace_all-crlf-IsEscaped : (k : ℕ) (s : Text) → IsEscaped s → IsEscaped (replace_all crlf k s)
unfolding replace_all crlf
replace_all-crlf-IsEscaped k [] h = tt
replace_all-crlf-IsEscaped (suc k) (c ∷ s) (p, h) = replace_all-crlf-IsEscaped k s h
replace_all-crlf-IsEscaped zero (c ∷ s) (p, h) =
    elim (Bool-cases (c == 13 && starts_with (10 ∷ []) s)) [
      | inl hit ↦ rw hit (omega arith, replace_all-crlf-IsEscaped 1 s h)
      | inr miss ↦ rw miss (p, replace_all-crlf-IsEscaped 0 s h)
    ]

push-IsEscaped : (c : ℕ) (bs : List Text) → c ≢ b'<' → All IsEscaped bs → All IsEscaped (push c bs)
push-IsEscaped c [] p h = ((p, tt), tt)
push-IsEscaped c (b ∷ bs) p (q, h) = ((p, q), h)

split_blocks-IsEscaped : (k : ℕ) (s : Text) → IsEscaped s → All IsEscaped (split_blocks k s)
unfolding split_blocks
split_blocks-IsEscaped k [] h = (tt, tt)
split_blocks-IsEscaped (suc k) (c ∷ s) (p, h) = split_blocks-IsEscaped k s h
split_blocks-IsEscaped zero (c ∷ s) (p, h) =
    let n = blank_line (c ∷ s) in
    let rest = split_blocks-IsEscaped (n - 1) s h in
    elim (Bool-cases (n == 0)) [
      | inl hit ↦ rw hit (push-IsEscaped c _ p rest)
      | inr miss ↦ rw miss (tt, rest)
    ]

whitespace-IsTagChar : (c : ℕ) → IsTagChar c → whitespace c ≡ false
unfolding whitespace
whitespace-IsTagChar c p = ground arith

trim_start-IsTagged : (s : Text) → IsTagged s → IsTagged (trim_start s)
unfolding trim_start
trim_start-IsTagged [] h = tt
trim_start-IsTagged (c ∷ s) (o, h) = elim (Bool-cases (whitespace c)) [
  | inl hit ↦ rw hit (trim_start-IsTagged s h)
  | inr miss ↦ rw miss (o, h)
]

starts_with-trim_end :
    (tag s : Text)
    → All IsTagChar tag
    → starts_with tag s ≡ true
    → starts_with tag (trim_end s) ≡ true
unfolding trim_end
starts_with-trim_end [] s h e = refl
starts_with-trim_end (c ∷ tag) [] h e = ground arith
starts_with-trim_end (c ∷ tag) (d ∷ s) (q, h) e =
    let (same, rest) = and-true (c == d) (starts_with tag s) e in
    let visible : whitespace d ≡ false =
      whitespace-IsTagChar d (subst IsTagChar ((==_iff c d).0 same) q) in
    rw (visible, same, starts_with-trim_end tag s h rest) refl

trim_end-IsTagged : (s : Text) → IsTagged s → IsTagged (trim_end s)
unfolding trim_end
trim_end-IsTagged [] h = tt
trim_end-IsTagged (c ∷ s) (o, h) = elim (Bool-cases (whitespace c && length (trim_end s) == 0)) [
  | inl hit ↦ rw hit tt
  | inr miss ↦ rw miss (
    (λ e.
        let opens = opens_tag_kept trim_end starts_with-trim_end (c ∷ s) (o e) in rw miss at opens),
    trim_end-IsTagged s h,
  )
]

render_block-IsTagged : (b : Text) → IsEscaped b → IsTagged (render_block b)
unfolding render_block opens_tag any
render_block-IsTagged b h =
    let code =
      IsTagged-replace_all code_span code_span-quiet IsTagged-code_span 0 b
        (IsEscaped-IsTagged b h) in
    let strong = IsTagged-replace_all bold bold-quiet IsTagged-bold 0 _ code in
    let broken = IsTagged-replace_all line_break line_break-quiet IsTagged-line_break 0 _ strong in
    let text = trim_end-IsTagged _ (trim_start-IsTagged _ broken) in
    let inline = replace_all line_break 0 (replace_all bold 0 (replace_all code_span 0 b)) in
    elim (Bool-cases (length (trim_end (trim_start inline)) == 0)) [
      | inl empty ↦ rw empty tt
      | inr filled ↦
          rw filled (
            IsTagged-wrap (codes "<p>") (trim_end (trim_start inline)) (codes "</p>") refl text
              refl)
    ]

join-IsTagged : (bs : List Text) → All IsEscaped bs → IsTagged (join (map render_block bs))
unfolding join
join-IsTagged [] h = tt
join-IsTagged (b ∷ bs) (p, h) =
    IsTagged-append (render_block b) (join (map render_block bs)) (render_block-IsTagged b p)
      (join-IsTagged bs h)

-- Whatever an operator writes, each `<` of the rendered body begins one of the tags `<p>`, `</p>`,
-- `<br>`, `<code>`, `</code>`, `<strong>` and `</strong>`.
pub render_incident_markdown-IsTagged : (raw : Text) → IsTagged (render_incident_markdown raw)
unfolding render_incident_markdown
render_incident_markdown-IsTagged raw =
    join-IsTagged _
      (split_blocks-IsEscaped 0 _ (replace_all-crlf-IsEscaped 0 _ (escape_html-IsEscaped raw)))
