-- ===== src/Probes/Tcp/Closed.antt =====
-- What the tcp probe of src/services/tcp-probe.ts does when the server closes the connection.
use oo_workers.Prelude.{
  ℕ, ◌+◌, ◌-◌, ◌<◌, ◌≡◌, sym, ap, ◌∙◌, subst, min, Bool, false, ◌||◌, List, [], ◌∷◌, ◌++◌, none,
  some, leb, length, take, concat, length-append, take-all, arith,
}
use oo_workers.Text.{Text, includes}
use oo_workers.Probes.{non_empty}
use oo_workers.Probes.Tcp.{
  TcpProbeOptions, TcpProbe, connect, closed, tcp_start, tcp_step, tcp_probe, store, banner_cap,
}
use oo_workers.Probes.Tcp.Banner.{
  IsWaiting, store-concat, on_data-waits, on_connect-IsWaiting, shows, packets,
}

-- The bytes of the packets.
abbrev pub bytes : List (ℕ × List ℕ) → List ℕ
bytes [] = []
bytes ((ms, d) ∷ ds) = d ++ bytes ds

or-false : (a b : Bool) → (a || b) ≡ false → (a ≡ false) × (b ≡ false)
or-false a b h = ground (arith, h)

roomy :
    (n l cap received : ℕ) → received ≡ n + min l (cap - n) → n + l < cap → leb cap received ≡ false
roomy n l cap received e h = ground (arith, e, h)

module _ (utf8 : List ℕ → Text) (o : TcpProbeOptions) (text : Text)
    (expected : non_empty o.expect_banner ≡ some text) where
  run-closed :
      (before : List ℕ) (ds : List (ℕ × List ℕ)) (ms : ℕ) (p : TcpProbe)
      → IsWaiting utf8 o before p
      → shows utf8 o text before ds ≡ false
      → length before + length (bytes ds) < banner_cap
      → (tcp_probe utf8 o (packets utf8 o ds ++ (ms, closed) ∷ []) p).settled ≡ none
  unfolding tcp_probe tcp_step shows
  run-closed before [] ms p w hidden few = w.open_still
  run-closed before ((t, d) ∷ ds) ms p w hidden few =
      let (stored, counted, free) = store-concat utf8 o before d p w in
      let q = store utf8 o d p in
      let es = packets utf8 o ds ++ (ms, closed) ∷ [] in
      let (hidden_now, hidden_later) =
        or-false (includes text (utf8 (take banner_cap (before ++ d))))
          (shows utf8 o text (before ++ d) ds) hidden in
      let size = length-append before d in
      let few' : length before + (length d + length (bytes ds)) < banner_cap =
        omega (arith, few, length-append d (bytes ds)) in
      let view : utf8 (concat q.chunks) ≡ utf8 (take banner_cap (before ++ d)) = ap utf8 stored in
      let miss : includes text (utf8 (concat q.chunks)) ≡ false =
        ap (includes text) view ∙ hidden_now in
      let room : leb banner_cap q.received ≡ false =
        roomy (length before) (length d) banner_cap q.received counted (omega (arith, few')) in
      let w' : IsWaiting utf8 o (before ++ d) q = record {
        open_still = free;
        stored = stored ∙ take-all banner_cap (before ++ d) (omega (arith, size, few'));
        counted = counted ∙ omega (arith, size, w.short, few');
        short = omega (arith, size, few');
      } in
      subst (λ (r : TcpProbe). (tcp_probe utf8 o es r).settled ≡ none)
        (sym (on_data-waits utf8 o text expected t d p miss room))
        (run-closed (before ++ d) ds ms q w' hidden_later (omega (arith, size, few')))

-- With an expected text, a server that closes the connection before the text has shown, and before
-- it has sent 256 bytes, leaves the probe without an answer, in whatever packets the bytes came: no
-- handler takes note of the end.
pub tcp_probe-closed :
    (utf8 : List ℕ → Text) (o : TcpProbeOptions) (text : Text)
    (expected : non_empty o.expect_banner ≡ some text) (at : ℕ) (ds : List (ℕ × List ℕ)) (ms : ℕ)
    → shows utf8 o text [] ds ≡ false
    → length (bytes ds) < banner_cap
    → (tcp_probe utf8 o
        ((at, connect) ∷ (packets utf8 o ds ++ (ms, closed) ∷ []))
        tcp_start).settled
      ≡ none
unfolding tcp_probe tcp_step
tcp_probe-closed utf8 o text expected at ds ms hidden few =
    run-closed utf8 o text expected [] ds ms _ (on_connect-IsWaiting utf8 o text expected at) hidden
      (omega (arith, few))
