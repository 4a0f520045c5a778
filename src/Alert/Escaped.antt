-- ===== src/Alert/Escaped.antt =====
-- The markup of an email (src/services/alert-dispatch.ts, `emailHtml`) is that of its template.
use oo_workers.Prelude.{
  ℕ, ◌+◌, ◌*◌, ◌≡◌, refl, ◌∙◌, ap, Bool, true, false, List, [], ◌∷◌, ◌++◌, map, concat, length,
  ◌==◌, Bool-cases, inl, inr, arith, if◌then◌else◌,
}
use oo_workers.Text.{Text, codes}
use oo_workers.Alert.{AlertEvent, outage, recovery, test, AlertContext}
use oo_workers.Alert.Mail.{
  EmailField, replace_char, escape_html, html_row, email_fields, email_html, tone_tag, tone_color,
  lead_of, row_pieces, html_pieces, mono_style,
}

-- How often a character occurs.
unfoldable pub occurrences : ℕ → Text → ℕ
occurrences c [] = 0
occurrences c (x ∷ s) = (if x == c then 1 else 0) + occurrences c s

pub occurrences-append :
    (c : ℕ) (s t : Text) → occurrences c (s ++ t) ≡ occurrences c s + occurrences c t
unfolding occurrences
occurrences-append c [] t = omega arith
occurrences-append c (x ∷ s) t = omega (arith, occurrences-append c s t)

-- All that was a `c` is gone.
occurrences-replaced :
    (c : ℕ) (by s : Text) → occurrences c by ≡ 0 → occurrences c (replace_char c by s) ≡ 0
unfolding occurrences replace_char
occurrences-replaced c by [] h = refl
occurrences-replaced c by (x ∷ s) h = elim (Bool-cases (x == c)) [
  | inl e ↦
      rw (replace_char, e)
        (occurrences-append c by (replace_char c by s)
          ∙ omega (arith, h, occurrences-replaced c by s h))
  | inr e ↦
      rw (replace_char, e)
        (ap (λ b. (if b then 1 else 0) + occurrences c (replace_char c by s)) e
          ∙ omega (arith, occurrences-replaced c by s h))
]

-- Another replacement brings in no `c`.
occurrences-kept :
    (c d : ℕ) (by s : Text)
    → occurrences c by ≡ 0
    → occurrences c s ≡ 0
    → occurrences c (replace_char d by s) ≡ 0
unfolding occurrences replace_char
occurrences-kept c d by [] h e = refl
occurrences-kept c d by (x ∷ s) h e =
    let rest : occurrences c s ≡ 0 = omega (arith, e) in
    elim (Bool-cases (x == d)) [
      | inl same ↦
          rw (replace_char, same)
            (occurrences-append c by (replace_char d by s)
              ∙ omega (arith, h, occurrences-kept c d by s h rest))
      | inr other ↦ rw (replace_char, other) (omega (arith, e, occurrences-kept c d by s h rest))
    ]

escape_html-no_opening : (s : Text) → occurrences b'<' (escape_html s) ≡ 0
unfolding escape_html occurrences
escape_html-no_opening s =
    let inner = replace_char b'&' (codes "&amp;") s in
    occurrences-kept b'<' b'>' (codes "&gt;") (replace_char b'<' (codes "&lt;") inner) refl
      (occurrences-replaced b'<' (codes "&lt;") inner refl)

-- Over a list of pieces.
sum_of : ℕ → List Text → ℕ
unfolding occurrences
sum_of c [] = 0
sum_of c (s ∷ ss) = occurrences c s + sum_of c ss

occurrences-concat : (c : ℕ) (ss : List Text) → occurrences c (concat ss) ≡ sum_of c ss
unfolding occurrences sum_of
occurrences-concat c [] = refl
occurrences-concat c (s ∷ ss) =
    occurrences-append c s (concat ss) ∙ ap (λ n. occurrences c s + n) (occurrences-concat c ss)

mono-no_opening :
    (b : Bool) (s : Text) → occurrences b'<' s ≡ 0 → occurrences b'<' (if b then s else []) ≡ 0
unfolding occurrences
mono-no_opening true s h = h
mono-no_opening false s h = refl

html_row-openings : (f : EmailField) → occurrences b'<' (html_row f) ≡ 6
unfolding html_row row_pieces occurrences sum_of
html_row-openings f =
    occurrences-concat b'<' (row_pieces f)
    ∙ omega (
      arith,
      escape_html-no_opening f.label,
      escape_html-no_opening f.value,
      mono-no_opening f.monospace mono_style refl,
    )

rows-openings : (fs : List EmailField) → occurrences b'<' (concat (map html_row fs)) ≡ 6 * length fs
unfolding occurrences
rows-openings [] = refl
rows-openings (f ∷ fs) =
    occurrences-append b'<' (html_row f) (concat (map html_row fs))
    ∙ omega (arith, html_row-openings f, rows-openings fs)

tone_tag-no_opening : (e : AlertEvent) → occurrences b'<' (tone_tag e) ≡ 0
unfolding occurrences
tone_tag-no_opening outage = refl
tone_tag-no_opening recovery = refl
tone_tag-no_opening test = refl

tone_color-no_opening : (e : AlertEvent) → occurrences b'<' (tone_color e) ≡ 0
unfolding occurrences
tone_color-no_opening outage = refl
tone_color-no_opening recovery = refl
tone_color-no_opening test = refl

-- Whatever texts the monitor, its target, its region and its error are: a mail has the tags of its
-- template and six for each of its fields, and no other.
pub email_html-tags :
    (iso : ℕ → Text) (ctx : AlertContext)
    → occurrences b'<' (email_html iso ctx) ≡ 25 + 6 * length (email_fields iso ctx)
unfolding email_html html_pieces occurrences sum_of
email_html-tags iso ctx =
    occurrences-concat b'<' (html_pieces iso ctx)
    ∙ omega (
      arith,
      rows-openings (email_fields iso ctx),
      tone_tag-no_opening ctx.event,
      tone_color-no_opening ctx.event,
      escape_html-no_opening ctx.name,
      escape_html-no_opening (lead_of ctx.event ctx.name),
    )
