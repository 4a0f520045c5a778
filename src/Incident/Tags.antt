-- ===== src/Incident/Tags.antt =====
-- The tags in what src/services/incident-render.ts writes.
use oo_workers.Prelude.{
  ℕ, zero, suc, ◌+◌, ◌<◌, ◌≢◌, ◌⊎◌, inl, inr, ◌≡◌, refl, subst, Bool, true, not, ◌&&◌, ◌||◌, List,
  [], ◌∷◌, ◌++◌, ltb, ◌==◌, ==_iff, ==_ne, length, drop, any, All, and-true, Bool-cases, arith,
}
use oo_workers.Text.{Text, codes, starts_with}
use oo_workers.Incident.{
  run, Step, replace_all, is_code_char, code_span, is_bold_char, bold, line_break,
}

abbrev pub tags : List Text
tags =
    codes "<p>"
    ∷ codes "</p>"
    ∷ codes "<br>"
    ∷ codes "<code>"
    ∷ codes "</code>"
    ∷ codes "<strong>"
    ∷ codes "</strong>"
    ∷ []

-- The text begins with one of the tags.
unfoldable pub opens_tag : Text → Bool
unfolding any
opens_tag s = any (λ tag. starts_with tag s) tags

-- Wherever a `<` stands, one of the tags begins.
abbrev pub IsTagged : Text → Type 0
IsTagged [] = Unit
IsTagged (c ∷ s) = (c ≡ b'<' → opens_tag (c ∷ s) ≡ true) × IsTagged s

-- What the characters of the tags are like.
abbrev pub IsTagChar : ℕ → Type 0
IsTagChar c = (46 < c) × (c < 123) × (c ≢ b'`')

any-imp :
    (p q : Text → Bool) (ts : List Text)
    → All (λ t. p t ≡ true → q t ≡ true) ts
    → any p ts ≡ true
    → any q ts ≡ true
unfolding any
any-imp p q [] h e = e
any-imp p q (t ∷ ts) (f, h) e = elim (Bool-cases (p t)) [
  | inl hit ↦ rw (f hit) refl
  | inr miss ↦ elim (Bool-cases (q t)) [
    | inl hit ↦ rw hit refl
    | inr other ↦ rw other (any-imp p q ts h (rw miss at e))
  ]
]

tags-IsTagChar : All (All IsTagChar) tags
tags-IsTagChar = omega arith

module _ (f : Text → Text)
    (keeps : (tag s : Text)
      → All IsTagChar tag
      → starts_with tag s ≡ true
      → starts_with tag (f s) ≡ true) where
  kept :
      (s : Text) (ts : List Text)
      → All (All IsTagChar) ts
      → All (λ t. starts_with t s ≡ true → starts_with t (f s) ≡ true) ts
  kept s [] h = tt
  kept s (t ∷ ts) (p, h) = (keeps t s p, kept s ts h)

  pub opens_tag_kept : (s : Text) → opens_tag s ≡ true → opens_tag (f s) ≡ true
  unfolding opens_tag
  opens_tag_kept s =
      any-imp (λ t. starts_with t s) (λ t. starts_with t (f s)) tags (kept s tags tags-IsTagChar)

starts_with-append : (tag s t : Text) → starts_with tag s ≡ true → starts_with tag (s ++ t) ≡ true
starts_with-append [] s t h = refl
starts_with-append (c ∷ tag) [] t h = ground arith
starts_with-append (c ∷ tag) (d ∷ s) t h =
    let (same, rest) = and-true (c == d) (starts_with tag s) h in
    rw (same, starts_with-append tag s t rest) refl

pub IsTagged-append : (s t : Text) → IsTagged s → IsTagged t → IsTagged (s ++ t)
IsTagged-append [] t h k = k
IsTagged-append (c ∷ s) t (o, h) k = (
  (λ e. opens_tag_kept (λ x. x ++ t) (λ tag x _. starts_with-append tag x t) (c ∷ s) (o e)),
  IsTagged-append s t h k,
)

module _ (step : Step) (quiet : (c : ℕ) (s : Text) → IsTagChar c → step c s ≡ (c ∷ [], 0)) where
  starts_with-replace_all :
      (tag s : Text)
      → All IsTagChar tag
      → starts_with tag s ≡ true
      → starts_with tag (replace_all step 0 s) ≡ true
  unfolding replace_all
  starts_with-replace_all [] s p h = refl
  starts_with-replace_all (c ∷ tag) [] p h = ground arith
  starts_with-replace_all (c ∷ tag) (d ∷ s) (p, ps) h =
      let (same, rest) = and-true _ _ h in
      let e : c ≡ d = (==_iff c d).0 same in
      rw (quiet d s (subst IsTagChar e p), same, starts_with-replace_all tag s ps rest) refl

  pub IsTagged-replace_all :
      ((c : ℕ) (s : Text) → IsTagged s → (step c s ≡ (c ∷ [], 0)) ⊎ IsTagged (step c s).0)
      → (k : ℕ) (s : Text) → IsTagged s
      → IsTagged (replace_all step k s)
  unfolding replace_all
  IsTagged-replace_all fine k [] h = tt
  IsTagged-replace_all fine (suc k) (c ∷ s) (o, h) = IsTagged-replace_all fine k s h
  IsTagged-replace_all fine zero (c ∷ s) (o, h) = elim (fine c s h) [
    | inl same ↦ rw same (
      (λ e.
          let opens = opens_tag_kept (replace_all step 0) starts_with-replace_all (c ∷ s) (o e) in
          rw same at opens),
      IsTagged-replace_all fine 0 s h,
    )
    | inr good ↦ IsTagged-append _ _ good (IsTagged-replace_all fine (step c s).1 s h)
  ]

module _ (p : ℕ → Bool) (quiet : (c : ℕ) → IsTagChar c → p c ≡ true) where
  starts_with-run :
      (tag s : Text)
      → All IsTagChar tag
      → starts_with tag s ≡ true
      → starts_with tag (run p s) ≡ true
  unfolding run
  starts_with-run [] s h e = refl
  starts_with-run (c ∷ tag) [] h e = ground arith
  starts_with-run (c ∷ tag) (d ∷ s) (q, h) e =
      let (same, rest) = and-true _ _ e in
      let good : p d ≡ true = quiet d (subst IsTagChar ((==_iff c d).0 same) q) in
      rw (good, same, starts_with-run tag s h rest) refl

  IsTagged-run : (s : Text) → IsTagged s → IsTagged (run p s)
  unfolding run
  IsTagged-run [] h = tt
  IsTagged-run (c ∷ s) (o, h) = elim (Bool-cases (p c)) [
    | inl good ↦ rw good (
      (λ e. let opens = opens_tag_kept (run p) starts_with-run (c ∷ s) (o e) in rw good at opens),
      IsTagged-run s h,
    )
    | inr bad ↦ rw bad tt
  ]

-- A check for literals.
abbrev pub tagged : Text → Bool
tagged [] = true
tagged (c ∷ s) = (not (c == b'<') || opens_tag (c ∷ s)) && tagged s

pub tagged_sound : (s : Text) → tagged s ≡ true → IsTagged s
tagged_sound [] h = tt
tagged_sound (c ∷ s) h =
    let (here, rest) = and-true (not (c == b'<') || opens_tag (c ∷ s)) (tagged s) h in
    ((λ e. rw ((==_iff c b'<').1 e) at here), tagged_sound s rest)

IsTagged-drop : (n : ℕ) (s : Text) → IsTagged s → IsTagged (drop n s)
IsTagged-drop zero s h = h
IsTagged-drop (suc n) [] h = tt
IsTagged-drop (suc n) (c ∷ s) (o, h) = IsTagged-drop n s h

pub IsTagged-wrap :
    (before text after : Text)
    → tagged before ≡ true
    → IsTagged text
    → tagged after ≡ true
    → IsTagged (before ++ (text ++ after))
IsTagged-wrap before text after b h a =
    IsTagged-append before (text ++ after) (tagged_sound before b)
      (IsTagged-append text after h (tagged_sound after a))

pub code_span-quiet : (c : ℕ) (s : Text) → IsTagChar c → code_span c s ≡ (c ∷ [], 0)
unfolding code_span
code_span-quiet c s (_, _, ne) = rw (==_ne c b'`' ne) refl

pub bold-quiet : (c : ℕ) (s : Text) → IsTagChar c → bold c s ≡ (c ∷ [], 0)
unfolding bold
bold-quiet c s (gt, _, _) = rw (==_ne c b'*' (omega arith)) refl

pub line_break-quiet : (c : ℕ) (s : Text) → IsTagChar c → line_break c s ≡ (c ∷ [], 0)
unfolding line_break
line_break-quiet c s (gt, _, _) = rw (==_ne c 10 (omega arith)) refl

pub IsTagged-code_span :
    (c : ℕ) (s : Text) → IsTagged s → (code_span c s ≡ (c ∷ [], 0)) ⊎ IsTagged (code_span c s).0
unfolding code_span opens_tag any
IsTagged-code_span c s h =
    let text = run is_code_char s in
    elim (Bool-cases
      (c == b'`' && (ltb 0 (length text) && starts_with (codes "`") (drop (length text) s)))) [
        | inl hit ↦ inr (
            rw hit (
              IsTagged-wrap (codes "<code>") text (codes "</code>") refl
                (IsTagged-run is_code_char (λ c p. ground arith) s h) refl))
        | inr miss ↦ inl (rw miss refl)
      ]

pub IsTagged-bold :
    (c : ℕ) (s : Text) → IsTagged s → (bold c s ≡ (c ∷ [], 0)) ⊎ IsTagged (bold c s).0
unfolding bold opens_tag any
IsTagged-bold c s h =
    let text = run is_bold_char (drop 1 s) in
    elim (Bool-cases (
      c == b'*'
      && (starts_with (codes "*") s
          && (ltb 0 (length text) && starts_with (codes "**") (drop (1 + length text) s))))) [
            | inl hit ↦ inr (
                rw hit (
                  IsTagged-wrap (codes "<strong>") text (codes "</strong>") refl
                    (IsTagged-run is_bold_char (λ c p. ground arith) (drop 1 s)
                      (IsTagged-drop 1 s h))
                    refl))
            | inr miss ↦ inl (rw miss refl)
          ]

pub IsTagged-line_break :
    (c : ℕ) (s : Text) → IsTagged s → (line_break c s ≡ (c ∷ [], 0)) ⊎ IsTagged (line_break c s).0
unfolding line_break opens_tag any
IsTagged-line_break c s h = elim (Bool-cases (c == 10)) [
  | inl hit ↦ inr (rw hit (tagged_sound (codes "<br>") refl))
  | inr miss ↦ inl (rw miss refl)
]
