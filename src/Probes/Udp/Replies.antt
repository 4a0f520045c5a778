-- ===== src/Probes/Udp/Replies.antt =====
-- What the udp probe of src/services/udp-probe.ts answers.
use oo_workers.Prelude.{
  ℕ, ◌≡◌, refl, sym, ap, ◌∙◌, Bool, true, false, ◌&&◌, List, [], ◌∷◌, map, Option, none, some,
  arith, Option-cases, inl, inr, if◌then◌else◌,
}
use oo_workers.Text.{Text}
use oo_workers.Probes.Udp.{
  UdpProbeOptions, UdpProbe, UdpSocket, UdpEvent, LookupAddress, timer, resolved, socket_error,
  message, sent, udp_start, udp_step, udp_probe, finish_udp, is_reply, on_resolved, on_message,
  on_sent,
}

-- What an event after the lookup decides, if anything.
abbrev pub decides : UdpProbeOptions → List Text → UdpEvent → Option Bool
unfolding is_reply
decides o sources timer = some false
decides o sources (resolved e addresses) = none
decides o sources (socket_error e) = some false
decides o sources (message d) =
    if o.expect_response && is_reply o.port sources d then some true else none
decides o sources (sent (some e)) = some false
decides o sources (sent none) = if o.expect_response then none else some true

unfoldable pub first_decision : UdpProbeOptions → List Text → List (ℕ × UdpEvent) → Option Bool
first_decision o sources [] = none
first_decision o sources ((ms, e) ∷ es) = elim (decides o sources e) [
  | none ↦ first_decision o sources es
  | some b ↦ some b
]

-- The answer so far.
abbrev pub udp_answer : UdpProbe → Option Bool
udp_answer p = elim p.settled [ none ↦ none | some r ↦ some r.ok ]

module _ (o : UdpProbeOptions) where
  pub udp_step-answer :
      (e : ℕ × UdpEvent) (p : UdpProbe) (b : Bool)
      → udp_answer p ≡ some b
      → udp_answer (udp_step o e p) ≡ some b
  unfolding udp_step on_resolved on_message on_sent finish_udp
  udp_step-answer (ms, timer) p b h = ground arith
  udp_step-answer (ms, resolved none []) p b h = ground arith
  udp_step-answer (ms, resolved none (a ∷ others)) p b h = ground arith
  udp_step-answer (ms, resolved (some e) found) p b h = ground arith
  udp_step-answer (ms, socket_error e) p b h = ground arith
  udp_step-answer (ms, message d) p b h = ground arith
  udp_step-answer (ms, sent none) p b h = ground arith
  udp_step-answer (ms, sent (some e)) p b h = ground arith

  -- An answer is never taken back.
  pub udp_probe-answer :
      (es : List (ℕ × UdpEvent)) (p : UdpProbe) (b : Bool)
      → udp_answer p ≡ some b
      → udp_answer (udp_probe o es p) ≡ some b
  unfolding udp_probe
  udp_probe-answer [] p b h = h
  udp_probe-answer (e ∷ es) p b h = udp_probe-answer es (udp_step o e p) b (udp_step-answer e p b h)

  -- The timer settles it, if nothing has before.
  pub udp_step-timer :
      (ms : ℕ) (p : UdpProbe) → (b : Bool) × (udp_answer (udp_step o (ms, timer) p) ≡ some b)
  unfolding udp_step finish_udp
  udp_step-timer ms p = elim (Option-cases p.settled) [
    | inl free ↦ (false, rw (free, finish_udp) refl)
    | inr (r, done) ↦ (r.ok, ground arith)
  ]

  module _ (s : UdpSocket) where
    step-undecided :
        (ms : ℕ) (e : UdpEvent) (p : UdpProbe)
        → p.socket ≡ some s
        → decides o s.valid_sources e ≡ none
        → udp_step o (ms, e) p ≡ p
    unfolding udp_step on_message on_sent is_reply
    step-undecided ms timer p has h = cc h
    step-undecided ms (resolved e found) p has h = ground arith
    step-undecided ms (socket_error e) p has h = cc h
    step-undecided ms (message d) p has h = ground arith
    step-undecided ms (sent none) p has h = ground arith
    step-undecided ms (sent (some e)) p has h = cc h

    step-decided :
        (ms : ℕ) (e : UdpEvent) (p : UdpProbe) (b : Bool)
        → p.settled ≡ none
        → p.socket ≡ some s
        → decides o s.valid_sources e ≡ some b
        → udp_answer (udp_step o (ms, e) p) ≡ some b
    unfolding udp_step on_message on_sent is_reply finish_udp
    step-decided ms timer p b free has h = ground arith
    step-decided ms (resolved e found) p b free has h = cc h
    step-decided ms (socket_error e) p b free has h = ground arith
    step-decided ms (message d) p b free has h = ground arith
    step-decided ms (sent none) p b free has h = ground arith
    step-decided ms (sent (some e)) p b free has h = ground arith

    run-first_decision :
        (es : List (ℕ × UdpEvent)) (p : UdpProbe)
        → p.settled ≡ none
        → p.socket ≡ some s
        → udp_answer (udp_probe o es p) ≡ first_decision o s.valid_sources es
    unfolding udp_probe first_decision
    run-first_decision [] p free has = rw free refl
    run-first_decision ((ms, e) ∷ es) p free has =
        elim (Option-cases (decides o s.valid_sources e)) [
          | inl open_still ↦
              let same = step-undecided ms e p has open_still in
              ap (λ (q : UdpProbe). udp_answer (udp_probe o es q)) same
              ∙ (run-first_decision es p free has ∙ sym (rw (open_still, first_decision) refl))
          | inr (b, decided) ↦
              udp_probe-answer es (udp_step o (ms, e) p) b (step-decided ms e p b free has decided)
              ∙ sym (rw (decided, first_decision) refl)
        ]

-- Once the host is resolved, the probe answers by the first event that decides: a datagram counts
-- only if an answer is expected and it comes from the port of the monitor and from one of the
-- resolved addresses; the timer, an error of the socket and an error of the send are failures; a
-- send that went through is a success only if no answer is expected. Whatever comes later changes
-- nothing.
pub udp_probe-first_decision :
    (o : UdpProbeOptions) (ms : ℕ) (target : LookupAddress) (others : List LookupAddress)
    (es : List (ℕ × UdpEvent))
    → udp_answer (udp_probe o ((ms, resolved none (target ∷ others)) ∷ es) udp_start)
      ≡ first_decision o (map (λ (a : LookupAddress). a.address) (target ∷ others)) es
unfolding udp_probe udp_step on_resolved
udp_probe-first_decision o ms target others es = run-first_decision o _ es _ refl refl
