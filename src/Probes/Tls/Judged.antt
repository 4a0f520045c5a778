-- ===== src/Probes/Tls/Judged.antt =====
-- Which certificates pass the tls probe of src/services/tls-probe.ts.
use mathlib.Core.Option.{some-injective}
use oo_workers.Prelude.{
  ℕ, ◌+◌, ◌*◌, ◌≤◌, ◌≡◌, ◌≢◌, refl, sym, ap, ◌∙◌, subst, ◌↔◌, Bool, true, false, ◌||◌, [], ◌∷◌,
  Option, none, some, arith, any, Bool-cases, Option-cases, inl, inr, if◌then◌else◌,
}
use oo_workers.Text.{Text}
use oo_workers.Probes.{non_empty}
use oo_workers.Probes.Tls.{
  TlsApi, TlsProbeOptions, TlsSession, PeerCertificate, day_ms, days_between, days_le, judge,
  judge_dated, eval_tls_assertions, check_tls_chain, check_tls_hostname, check_expected_cn,
  is_altname, cn_targets, host_for_id, or_null, cn_part,
}

-- More than the days of the warning are left exactly if that many days and one fit in.
days_between-warn :
    (now valid_to warn : ℕ)
    → (days_le (days_between now valid_to) warn ≡ false) ↔ (now + (warn + 1) * day_ms ≤ valid_to)
unfolding days_between
days_between-warn now valid_to warn = ground arith

or_null_iff : (a b : Option Text) → (or_null a b ≡ none) ↔ ((a ≡ none) × (b ≡ none))
or_null_iff none b = ((λ h. (refl, h)), (λ h. h.1))
or_null_iff (some x) b = ((λ h. cc h), (λ h. cc (h.0)))

check_tls_chain_iff :
    (s : TlsSession)
    → (check_tls_chain s ≡ none) ↔ ((s.authorized || is_altname s.authorization_error) ≡ true)
unfolding check_tls_chain
check_tls_chain_iff s = ground arith

module _ (T : TlsApi) (o : TlsProbeOptions) where
  check_tls_hostname_iff :
      (host : Text) (c : PeerCertificate)
      → (check_tls_hostname T o host c ≡ none) ↔ (T.check_server_identity host c ≡ none)
  unfolding check_tls_hostname
  check_tls_hostname_iff host c = ground arith

  check_expected_cn_iff :
      (e : Text) (c : PeerCertificate)
      → (check_expected_cn T o e c ≡ none)
        ↔ ((T.compile_error e ≡ none) × (any (T.matches (T.compile e)) (cn_targets c) ≡ true))
  unfolding check_expected_cn
  check_expected_cn_iff e c = ground arith

  -- The assertions that are switched on hold of the session and the certificate.
  abbrev pub Asserted : TlsSession → PeerCertificate → Type 0
  Asserted s c =
      (o.verify_chain ≡ true → (s.authorized || is_altname s.authorization_error) ≡ true)
      × (o.verify_hostname ≡ true → T.check_server_identity (host_for_id T o) c ≡ none)
      × ((e : Text)
          → non_empty o.expect_cn_regex ≡ some e
          → (T.compile_error e ≡ none) × (any (T.matches (T.compile e)) (cn_targets c) ≡ true))

  switched_iff {ℓ} :
      {P : Type ℓ} (on : Bool) (m : Option Text)
      → (m ≡ none) ↔ P
      → ((if on then m else none) ≡ none) ↔ (on ≡ true → P)
  switched_iff true m (to, of) = ((λ h _. to h), (λ h. of (h refl)))
  switched_iff false m (to, of) = ((λ h e. absurd (cc e)), (λ h. refl))

  cn_part_iff :
      (c : PeerCertificate)
      → (cn_part T o c ≡ none) ↔ (
          (e : Text)
          → non_empty o.expect_cn_regex ≡ some e
          → (T.compile_error e ≡ none) × (any (T.matches (T.compile e)) (cn_targets c) ≡ true))
  unfolding cn_part
  cn_part_iff c = elim (Option-cases (non_empty o.expect_cn_regex)) [
    | inl off ↦ ((λ h e is. absurd (cc (sym off ∙ is))), (λ h. rw (off, cn_part) refl))
    | inr (e, on) ↦ (
      (λ h e' is.
          let same : e ≡ e' = some-injective e e' (sym on ∙ is) in
          (check_expected_cn_iff e' c).0 (rw (on, cn_part, same) at h)),
      (λ h. rw (on, cn_part) ((check_expected_cn_iff e c).1 (h e on))),
    )
  ]

  eval_tls_assertions_iff :
      (s : TlsSession) (c : PeerCertificate)
      → (eval_tls_assertions T o s c (host_for_id T o) ≡ none) ↔ Asserted s c
  unfolding eval_tls_assertions
  eval_tls_assertions_iff s c =
      let chain = switched_iff o.verify_chain (check_tls_chain s) (check_tls_chain_iff s) in
      let name =
        switched_iff o.verify_hostname (check_tls_hostname T o (host_for_id T o) c)
          (check_tls_hostname_iff (host_for_id T o) c) in
      (
        (λ h.
            let (first, rest) = (or_null_iff _ _).0 h in
            let (second, third) = (or_null_iff _ _).0 rest in
            (chain.0 first, name.0 second, (cn_part_iff c).0 third)),
        (λ (first, second, third).
            (or_null_iff _ _).1
              (chain.1 first, (or_null_iff _ _).1 (name.1 second, (cn_part_iff c).1 third))),
      )

  -- What a certificate has that passes: a date that can be read, more days than the warning asks
  -- for, and whatever is asserted.
  abbrev pub Passes : ℕ → TlsSession → PeerCertificate → ℕ → Type 0
  Passes now s c valid_to =
      (s.certificate ≡ some c)
      × (c.valid_to ≢ [])
      × (T.parse_date c.valid_to ≡ some valid_to)
      × (now + (o.warn_days + 1) * day_ms ≤ valid_to)
      × Asserted s c

  judge_dated-ok :
      (ms now : ℕ) (s : TlsSession) (c : PeerCertificate) (valid_to : ℕ)
      → ((judge_dated T o ms now s c valid_to).ok ≡ true)
        ↔ ((now + (o.warn_days + 1) * day_ms ≤ valid_to) × Asserted s c)
  unfolding judge_dated
  judge_dated-ok ms now s c valid_to =
      let warn = days_between-warn now valid_to o.warn_days in
      let asserted = eval_tls_assertions_iff s c in
      elim (Bool-cases (days_le (days_between now valid_to) o.warn_days)) [
        | inl soon ↦ (
          (λ h. absurd (cc (rw (soon, judge_dated) at h))),
          (λ (far, _). absurd (cc (sym soon ∙ warn.1 far))),
        )
        | inr far ↦ elim (Option-cases (eval_tls_assertions T o s c (host_for_id T o))) [
          | inl good ↦
              ((λ h. (warn.0 far, asserted.0 good)), (λ h. rw (far, judge_dated, good) refl))
          | inr (m, bad) ↦ (
            (λ h. absurd (cc (rw (far, judge_dated, bad) at h))),
            (λ (_, h). absurd (cc (sym bad ∙ asserted.1 h))),
          )
        ]
      ]

  judge_certificate :
      (ms now : ℕ) (s : TlsSession) (c : PeerCertificate) (date : Text)
      → s.certificate ≡ some c
      → c.valid_to ≡ date
      → ((judge T o ms now s).ok ≡ true) ↔ ((valid_to : ℕ) × Passes now s c valid_to)
  unfolding judge
  judge_certificate ms now s c [] has is = (
    (λ h. absurd (cc (rw (has, judge, is) at h))),
    (λ (v, (_, dated, _, _, _)). absurd (dated is)),
  )
  judge_certificate ms now s c (x ∷ date) has is = elim (Option-cases (T.parse_date (x ∷ date))) [
    | inl bad ↦ (
      (λ h. absurd (cc (rw (has, judge, is, bad) at h))),
      (λ (v, (_, _, reads, _, _)). absurd (cc (sym bad ∙ (ap T.parse_date (sym is) ∙ reads)))),
    )
    | inr (v, reads) ↦ (
      (λ h.
          let (far, asserted) = (judge_dated-ok ms now s c v).0 (rw (has, judge, is, reads) at h) in
          (v, (has, (λ e. cc (sym is ∙ e)), ap T.parse_date is ∙ reads, far, asserted))),
      (λ (v', (_, _, reads', far, asserted)).
          let same : v' ≡ v = some-injective v' v (sym reads' ∙ (ap T.parse_date is ∙ reads)) in
          rw (has, judge, is, reads)
            ((judge_dated-ok ms now s c v).1
              (subst (λ k. now + (o.warn_days + 1) * day_ms ≤ k) same far, asserted))),
    )
  ]

  -- A handshake passes exactly if the peer has a certificate with a date that can be read, at least
  -- one day more is left than the days of the warning, and each assertion that is switched on holds:
  -- the chain is trusted (a name that does not fit is no objection here), the certificate is valid
  -- for the name asked for, and a name of the certificate matches the pattern.
  pub judge-ok :
      (ms now : ℕ) (s : TlsSession)
      → ((judge T o ms now s).ok ≡ true)
        ↔ ((c : PeerCertificate) × ((valid_to : ℕ) × Passes now s c valid_to))
  unfolding judge
  judge-ok ms now s = elim (Option-cases s.certificate) [
    | inl missing ↦ (
      (λ h. absurd (cc (rw (missing, judge) at h))),
      (λ (c, (v, (has, _, _, _, _))). absurd (cc (sym missing ∙ has))),
    )
    | inr (c, has) ↦ (
      (λ h. (c, (judge_certificate ms now s c c.valid_to has refl).0 h)),
      (λ (c', (v, passes)).
          (judge_certificate ms now s c' c'.valid_to passes.0 refl).1 (v, passes)),
    )
  ]
