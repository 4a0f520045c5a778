-- ===== src/Alert/Mail.antt =====
-- src/services/alert-dispatch.ts: what an email says. The ISO text of a time is a parameter.
use oo_workers.Prelude.{
  ℕ, zero, suc, ◌+◌, ◌-◌, Bool, true, false, List, [], ◌∷◌, ◌++◌, map, Option, none, some, take,
  concat, length, max, if◌then◌else◌, ◌==◌,
}
use oo_workers.Text.{Text, codes, to_upper}
use oo_workers.Text.Decimal.{show}
use oo_workers.Db.{type_name}
use oo_workers.Probes.{non_empty}
use oo_workers.Alert.{AlertEvent, outage, recovery, test, AlertContext}
use oo_workers.Alert.Formats.{join_parts, error_shown}

-- `s.replaceAll(c, by)`, for one character.
unfoldable pub replace_char : ℕ → Text → Text → Text
replace_char c by [] = []
replace_char c by (x ∷ s) = (if x == c then by else x ∷ []) ++ replace_char c by s

unfoldable pub escape_html : Text → Text
unfolding replace_char
escape_html s =
    replace_char b'>' (codes "&gt;")
      (replace_char b'<' (codes "&lt;") (replace_char b'&' (codes "&amp;") s))

-- `EMAIL_TONE`.
abbrev pub tone_tag : AlertEvent → Text
tone_tag outage = codes "DOWN"
tone_tag recovery = codes "RECOVERED"
tone_tag test = codes "TEST"

abbrev pub tone_color : AlertEvent → Text
tone_color outage = codes "#dc2626"
tone_color recovery = codes "#16a34a"
tone_color test = codes "#6b7280"

abbrev pub lead_of : AlertEvent → Text → Text
lead_of outage name = name ++ codes " is failing its check."
lead_of recovery name = name ++ codes " is back up."
lead_of test name = codes "Test alert from oo-workers — this channel is wired up correctly."

pub record EmailField : Type 0 where
  pub label : Text
  pub value : Text
  pub monospace : Bool

abbrev pub field_of : Text → Text → Bool → EmailField
field_of label value monospace = record { label = label; value = value; monospace = monospace }

abbrev pub field_line {ℓ} : {A : Type ℓ} → Option A → (A → EmailField) → List EmailField
field_line none f = []
field_line (some a) f = f a ∷ []

-- `replace('T', ' ')`, the first one.
unfoldable pub replace_first_t : Text → Text
replace_first_t [] = []
replace_first_t (c ∷ s) = if c == b'T' then b' ' ∷ s else c ∷ replace_first_t s

abbrev pad_with : ℕ → Text
pad_with zero = []
pad_with (suc n) = b' ' ∷ pad_with n

-- `s.padEnd(n)`.
unfoldable pub pad_end : ℕ → Text → Text
pad_end n s = s ++ pad_with (n - length s)

-- `Math.max(...lengths)`.
unfoldable pub longest : List EmailField → ℕ
longest [] = 0
longest (f ∷ fs) = max (length f.label) (longest fs)

abbrev pub mono_style : Text
mono_style =
    codes "font-family:ui-monospace,SFMono-Regular,Menlo,Consolas,monospace;word-break:break-all"

-- The pieces of the row of a field.
unfoldable pub row_pieces : EmailField → List Text
unfolding escape_html
row_pieces f =
    codes
      "\n            <tr>\n              <td style=\"padding:6px 16px 6px 0;color:#6b7280;font-size:13px;vertical-align:top;white-space:nowrap\">"
    ∷ escape_html f.label
    ∷ codes "</td>\n              <td style=\"padding:6px 0;color:#111827;font-size:14px;"
    ∷ (if f.monospace then mono_style else [])
    ∷ codes "\">"
    ∷ escape_html f.value
    ∷ codes "</td>\n            </tr>"
    ∷ []

unfoldable pub html_row : EmailField → Text
unfolding row_pieces
html_row f = concat (row_pieces f)

module _ (iso : ℕ → Text) where
  unfoldable pub when_utc : ℕ → Text
  unfolding replace_first_t
  when_utc time = replace_first_t (take 16 (iso time)) ++ codes " UTC"

  unfoldable pub email_fields : AlertContext → List EmailField
  unfolding when_utc
  email_fields ctx = concat (
      (field_of (codes "Target") ctx.target true ∷ [])
      ∷ (field_of (codes "Check") (to_upper (type_name ctx.type)) false ∷ [])
      ∷ field_line ctx.status_code (λ c. field_of (codes "Status code") (show c) false)
      ∷ field_line ctx.duration_ms (λ d. field_of (codes "Latency") (show d ++ codes " ms") false)
      ∷ field_line (non_empty ctx.region_slug) (λ r. field_of (codes "Region") r false)
      ∷ (field_of (codes "When") (when_utc ctx.start_time) false ∷ [])
      ∷ field_line (error_shown ctx) (λ e. field_of (codes "Error") e true)
      ∷ [])

  unfoldable pub email_subject : AlertContext → Text
  email_subject ctx =
      codes "[oo-workers] "
      ++ (elim ctx.event [
        | test ↦ codes "Test alert"
        | recovery ↦ codes "Recovered"
        | outage ↦ codes "DOWN"
      ]
          ++ (codes ": " ++ ctx.name))

  abbrev pub text_line : ℕ → EmailField → Text
  unfolding pad_end
  text_line pad f = pad_end pad (f.label ++ codes ":") ++ f.value

  unfoldable pub email_text : AlertContext → Text
  unfolding email_fields longest join_parts text_line
  email_text ctx =
      let fields = email_fields ctx in
      let pad = longest fields + 2 in
      lead_of ctx.event ctx.name
      ++ (codes "\n\n"
          ++ (join_parts (codes "\n") (map (text_line pad) fields)
              ++ codes "\n\n—\noo-workers · self-hosted monitoring"))

  unfoldable pub html_pieces : AlertContext → List Text
  unfolding html_row email_fields escape_html
  html_pieces ctx =
      codes
        "<!doctype html><html><body style=\"margin:0;background:#f6f7f9;padding:24px;font-family:-apple-system,BlinkMacSystemFont,'Segoe UI',Roboto,Helvetica,Arial,sans-serif\">\n  <table role=\"presentation\" width=\"100%\" cellpadding=\"0\" cellspacing=\"0\" style=\"max-width:560px;margin:0 auto\">\n    <tr><td style=\"background:"
      ∷ tone_color ctx.event
      ∷ codes
          ";height:4px;border-radius:8px 8px 0 0;font-size:0;line-height:0\">&nbsp;</td></tr>\n    <tr><td style=\"background:#ffffff;border:1px solid #e5e7eb;border-top:0;border-radius:0 0 8px 8px;padding:24px\">\n      <div style=\"font-size:11px;font-weight:600;letter-spacing:.06em;color:"
      ∷ tone_color ctx.event
      ∷ codes "\">"
      ∷ tone_tag ctx.event
      ∷ codes
          "</div>\n      <div style=\"font-size:18px;font-weight:600;color:#111827;margin:4px 0 12px\">"
      ∷ escape_html ctx.name
      ∷ codes "</div>\n      <div style=\"font-size:14px;color:#374151;margin-bottom:16px\">"
      ∷ escape_html (lead_of ctx.event ctx.name)
      ∷ codes
          "</div>\n      <table role=\"presentation\" cellpadding=\"0\" cellspacing=\"0\" style=\"width:100%;border-top:1px solid #f0f1f3;padding-top:8px\">"
      ∷ concat (map html_row (email_fields ctx))
      ∷ codes
          "\n      </table>\n      <div style=\"margin-top:20px;padding-top:12px;border-top:1px solid #f0f1f3;font-size:12px;color:#9ca3af\">Sent by oo-workers · self-hosted monitoring</div>\n    </td></tr>\n  </table>\n</body></html>"
      ∷ []

  unfoldable pub email_html : AlertContext → Text
  unfolding html_pieces
  email_html ctx = concat (html_pieces ctx)
