-- ===== src/Probes/Tcp/Banner.antt =====
-- What the tcp probe of src/services/tcp-probe.ts answers when it waits for a banner.
use oo_workers.Prelude.{
  ℕ, ◌+◌, ◌-◌, ◌≤◌, ◌<◌, ◌≡◌, refl, sym, ap, ◌∙◌, subst, Option-cases, min, Bool, true, false, ◌||◌,
  List, [], ◌∷◌, ◌++◌, map, none, some, ltb, leb, length, take, concat, concat-snoc, length-append,
  take-all, take-append, take-append_within, arith, Bool-cases, inl, inr, leb→le, not_leb→lt,
}
use oo_workers.Text.{Text, includes}
use oo_workers.Probes.{non_empty}
use oo_workers.Probes.Tcp.{
  TcpProbeOptions, TcpProbeResult, TcpProbe, TcpEvent, connect, chunk, timeout, error, closed,
  tcp_start, tcp_step, tcp_probe, finish_tcp, on_connect, on_data, store, succeeds, fails,
  want_banner, banner_cap, banner_so_far, timeout_message, no_match,
}

module _ (utf8 : List ℕ → Text) (o : TcpProbeOptions) where
  -- An answer is never taken back.
  pub tcp_step-settled :
      (e : ℕ × TcpEvent) (p : TcpProbe) (r : TcpProbeResult)
      → p.settled ≡ some r
      → (tcp_step utf8 o e p).settled ≡ some r
  unfolding tcp_step on_connect on_data finish_tcp store
  tcp_step-settled (ms, connect) p r h = ground arith
  tcp_step-settled (ms, chunk d) p r h = ground arith
  tcp_step-settled (ms, timeout) p r h = ground arith
  tcp_step-settled (ms, error e) p r h = ground arith
  tcp_step-settled (ms, closed) p r h = h

  pub tcp_probe-settled :
      (es : List (ℕ × TcpEvent)) (p : TcpProbe) (r : TcpProbeResult)
      → p.settled ≡ some r
      → (tcp_probe utf8 o es p).settled ≡ some r
  unfolding tcp_probe
  tcp_probe-settled [] p r h = h
  tcp_probe-settled (e ∷ es) p r h =
      tcp_probe-settled es (tcp_step utf8 o e p) r (tcp_step-settled e p r h)

  -- Some of the packets, with all before them and cut at 256 bytes, hold the text.
  unfoldable pub shows : Text → List ℕ → List (ℕ × List ℕ) → Bool
  shows text before [] = false
  shows text before ((ms, d) ∷ ds) =
      includes text (utf8 (take banner_cap (before ++ d))) || shows text (before ++ d) ds

  abbrev pub packets : List (ℕ × List ℕ) → List (ℕ × TcpEvent)
  packets = map (λ (d : ℕ × List ℕ). (d.0, chunk d.1))

  -- Past the cap nothing new can show.
  shows-false :
      (text : Text) (before : List ℕ) (ds : List (ℕ × List ℕ))
      → banner_cap ≤ length before
      → includes text (utf8 (take banner_cap before)) ≡ false
      → shows text before ds ≡ false
  unfolding shows
  shows-false text before [] full miss = refl
  shows-false text before ((ms, d) ∷ ds) full miss =
      let same : take banner_cap (before ++ d) ≡ take banner_cap before =
        take-append_within banner_cap before d full in
      let miss' : includes text (utf8 (take banner_cap (before ++ d))) ≡ false = rw same miss in
      rw miss' (shows-false text (before ++ d) ds (omega (arith, length-append before d)) miss')

  -- The bytes that arrived, none of them dropped yet.
  pub record IsWaiting (before : List ℕ) (p : TcpProbe) : Type 0 where
    pub open_still : p.settled ≡ none
    pub stored : concat p.chunks ≡ before
    pub counted : p.received ≡ length before
    pub short : length before < banner_cap

  pub store-concat :
      (before d : List ℕ) (p : TcpProbe)
      → IsWaiting before p
      → (concat (store utf8 o d p).chunks ≡ take banner_cap (before ++ d))
        × ((store utf8 o d p).received
            ≡ length before + min (length d) (banner_cap - length before))
        × ((store utf8 o d p).settled ≡ none)
  unfolding store
  store-concat before d p w =
      let room : ltb 0 (banner_cap - p.received) ≡ true = ground (arith, w.counted, w.short) in
      rw room (
        (concat-snoc p.chunks (take (banner_cap - p.received) d)
            ∙ (ap (λ xs. xs ++ take (banner_cap - p.received) d) w.stored
                ∙ (ap (λ k. before ++ take (banner_cap - k) d) w.counted
                    ∙ sym (take-append banner_cap before d (omega (arith, w.short)))))),
        ap (λ k. k + min (length d) (banner_cap - k)) w.counted,
        w.open_still,
      )

  module _ (text : Text) (expected : non_empty o.expect_banner ≡ some text) where
    on_data-hit :
        (ms : ℕ) (d : List ℕ) (p : TcpProbe)
        → (store utf8 o d p).settled ≡ none
        → includes text (utf8 (concat (store utf8 o d p).chunks)) ≡ true
        → (r : TcpProbeResult) × ((on_data utf8 o ms d p).settled ≡ some r) × (r.ok ≡ true)
    unfolding on_data finish_tcp
    on_data-hit ms d p free hit = (
      succeeds ms (some (utf8 (concat (store utf8 o d p).chunks))),
      rw (expected, on_data, hit, free, finish_tcp) refl,
      refl,
    )

    on_data-full :
        (ms : ℕ) (d : List ℕ) (p : TcpProbe)
        → (store utf8 o d p).settled ≡ none
        → includes text (utf8 (concat (store utf8 o d p).chunks)) ≡ false
        → leb banner_cap (store utf8 o d p).received ≡ true
        → (r : TcpProbeResult) × ((on_data utf8 o ms d p).settled ≡ some r) × (r.ok ≡ false)
    unfolding on_data finish_tcp
    on_data-full ms d p free miss full = (
      fails ms (some (utf8 (concat (store utf8 o d p).chunks))) (no_match utf8 o),
      rw (expected, on_data, miss, full, free, finish_tcp) refl,
      refl,
    )

    pub on_data-waits :
        (ms : ℕ) (d : List ℕ) (p : TcpProbe)
        → includes text (utf8 (concat (store utf8 o d p).chunks)) ≡ false
        → leb banner_cap (store utf8 o d p).received ≡ false
        → on_data utf8 o ms d p ≡ store utf8 o d p
    unfolding on_data
    on_data-waits ms d p miss room = rw (expected, on_data, miss, room) refl

    SettlesTo : Bool → TcpProbe → Type 0
    SettlesTo b p = (r : TcpProbeResult) × (p.settled ≡ some r) × (r.ok ≡ b)

    run-shows :
        (before : List ℕ) (ds : List (ℕ × List ℕ)) (ms : ℕ) (rest : List (ℕ × TcpEvent))
        (p : TcpProbe)
        → IsWaiting before p
        → SettlesTo (shows text before ds) (tcp_probe utf8 o (packets ds ++ (ms, timeout) ∷ rest) p)
    unfolding tcp_probe tcp_step finish_tcp shows SettlesTo
    run-shows before [] ms rest p w =
        let q = tcp_step utf8 o (ms, timeout) p in
        let r = fails ms (banner_so_far utf8 o p) (timeout_message utf8 o p) in
        let answered : q.settled ≡ some r = rw (w.open_still, finish_tcp) refl in
        (r, tcp_probe-settled rest q r answered, refl)
    run-shows before ((t, d) ∷ ds) ms rest p w =
        let (stored, counted, free) = store-concat before d p w in
        let q = store utf8 o d p in
        let es = packets ds ++ (ms, timeout) ∷ rest in
        let view : utf8 (concat q.chunks) ≡ utf8 (take banner_cap (before ++ d)) = ap utf8 stored in
        elim (Bool-cases (includes text (utf8 (concat q.chunks)))) [
          | inl hit ↦
              let (r, answered, good) = on_data-hit t d p free hit in
              (
                r,
                tcp_probe-settled es _ r answered,
                good ∙ sym (rw (sym (ap (includes text) view) ∙ hit) refl),
              )
          | inr miss ↦ elim (Bool-cases (leb banner_cap q.received)) [
            | inl full ↦
                let (r, answered, bad) = on_data-full t d p free miss full in
                (
                  r,
                  tcp_probe-settled es _ r answered,
                  bad
                      ∙ sym (
                          rw (sym (ap (includes text) view) ∙ miss) (
                            shows-false text (before ++ d) ds
                              (omega (arith, length-append before d, counted, leb→le _ _ full))
                              (sym (ap (includes text) view) ∙ miss))),
                )
            | inr room ↦
                let short : length (before ++ d) < banner_cap =
                  omega (arith, length-append before d, counted, w.short, not_leb→lt _ _ room) in
                let w' : IsWaiting (before ++ d) q = record {
                  open_still = free;
                  stored = stored ∙ take-all banner_cap (before ++ d) (omega (arith, short));
                  counted = counted ∙ omega (arith, length-append before d, w.short, short);
                  short = short;
                } in
                subst (SettlesTo (shows text before ((t, d) ∷ ds)))
                  (sym (ap (tcp_probe utf8 o es) (on_data-waits t d p miss room)))
                  (rw (sym (ap (includes text) view) ∙ miss)
                    (run-shows (before ++ d) ds ms rest q w'))
          ]
        ]

want_banner-expected :
    (o : TcpProbeOptions) (text : Text)
    → non_empty o.expect_banner ≡ some text
    → want_banner o ≡ true
unfolding want_banner
want_banner-expected o text e = rw e (ground arith)

pub on_connect-IsWaiting :
    (utf8 : List ℕ → Text) (o : TcpProbeOptions) (text : Text)
    → non_empty o.expect_banner ≡ some text
    → (at : ℕ) → IsWaiting utf8 o [] (on_connect utf8 o at tcp_start)
unfolding on_connect
on_connect-IsWaiting utf8 o text e at =
    rw (want_banner-expected o text e) (elim (Option-cases o.payload) [
      | inl silent ↦
          rw silent
            (record { open_still = refl; stored = refl; counted = refl; short = omega arith })
      | inr (bytes, sends) ↦
          rw sends
            (record { open_still = refl; stored = refl; counted = refl; short = omega arith })
    ])

-- With an expected text, and whatever the server sends in whatever packets until the socket times
-- out: the probe has answered by then, and answers ok exactly if the text shows in the first 256
-- bytes of what has come by the end of some packet. The match is not against the first packet only,
-- as the comment of `tcpProbe` and docs/tcp-checks.md say.
pub tcp_probe-shows :
    (utf8 : List ℕ → Text) (o : TcpProbeOptions) (text : Text)
    → non_empty o.expect_banner ≡ some text
    → (at : ℕ) (ds : List (ℕ × List ℕ)) (ms : ℕ) (rest : List (ℕ × TcpEvent))
    → (r : TcpProbeResult) × ((tcp_probe utf8 o
          ((at, connect) ∷ (packets utf8 o ds ++ (ms, timeout) ∷ rest))
          tcp_start).settled
        ≡ some r)
      × (r.ok ≡ shows utf8 o text [] ds)
unfolding tcp_probe tcp_step SettlesTo
tcp_probe-shows utf8 o text expected at ds ms rest =
    run-shows utf8 o text expected [] ds ms rest (on_connect utf8 o at tcp_start)
      (on_connect-IsWaiting utf8 o text expected at)
