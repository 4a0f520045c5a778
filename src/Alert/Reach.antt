-- ===== src/Alert/Reach.antt =====
-- Which requests an alert makes (src/services/alert-dispatch.ts, `dispatchAlert`).
use mathlib.Core.List.{Memᴰ}
use mathlib.Core.List.Memᴰ.{head, tail, not-nil, cases_cons}
use oo_workers.Prelude.{
  keep_Mem-to, keep_Mem-from, ℕ, ◌≡◌, refl, sym, ◌∙◌, ap, subst, ◌↔◌, ◌⊎◌, inl, inr, Bool, true,
  false, List, [], ◌∷◌, Option, none, some, keep, Option-cases,
}
use oo_workers.Text.{Text}
use oo_workers.Alert.{AlertContext}
use oo_workers.Alert.Formats.{ChannelType, webhook, discord, slack, email, format_for}
use oo_workers.Alert.Mail.{email_subject, email_text, email_html}
use oo_workers.Alert.Dispatch.{
  AlertChannelRow, Binding, Request, post, mail, Reply, Log, trimmed, for_monitor,
  send_email_channel, post_to_channel, send_to_channel, send_all, dispatch_alert,
}
use oo_workers.Alert.Bound.{is_of, for_monitor-to, for_monitor-from}

module _ (iso : ℕ → Text) (ctx : AlertContext) where
  posted : AlertChannelRow → Option Request
  posted c = elim (trimmed c.config_url) [
    | none ↦ none
    | some url ↦ some (post url (format_for c.type ctx))
  ]

  mailed : AlertChannelRow → Option Request
  mailed c = elim (trimmed c.config_to) [
    | none ↦ none
    | some to ↦ some (mail to (email_subject iso ctx) (email_text iso ctx) (email_html iso ctx))
  ]

  -- What goes out for a channel: nothing if it has no address.
  pub request_for : AlertChannelRow → Option Request
  unfolding mailed posted
  request_for c = elim c.type [ email ↦ mailed c | _ ↦ posted c ]

  abbrev with_request : ℕ → Option Request → Log → Log
  with_request id none log = log
  with_request id (some r) log = (id, r) ∷ log

  request_for-type :
      (c : AlertChannelRow) (t : ChannelType)
      → c.type ≡ t
      → request_for c ≡ elim t [ email ↦ mailed c | _ ↦ posted c ]
  unfolding request_for
  request_for-type c t e = ap (λ (u : ChannelType). elim u [ email ↦ mailed c | _ ↦ posted c ]) e

  module _ (replies : ℕ → Reply) where
    send_to_channel-type :
        (c : AlertChannelRow) (log : Log) (t : ChannelType)
        → c.type ≡ t
        → send_to_channel iso replies ctx c log ≡ elim t [
          | email ↦ send_email_channel iso replies ctx c log
          | _ ↦ post_to_channel iso replies ctx c log
        ]
    unfolding send_to_channel
    send_to_channel-type c log t e =
        ap
          (λ (u : ChannelType). elim u [
            | email ↦ send_email_channel iso replies ctx c log
            | _ ↦ post_to_channel iso replies ctx c log
          ])
          e

    send_email_channel-logs :
        (c : AlertChannelRow) (log : Log)
        → (send_email_channel iso replies ctx c log).0 ≡ with_request c.id (mailed c) log
    unfolding send_email_channel mailed
    send_email_channel-logs c log = elim (Option-cases (trimmed c.config_to)) [
      | inl h ↦ rw (send_email_channel, mailed, h) refl
      | inr (to, h) ↦ rw (send_email_channel, mailed, h) refl
    ]

    post_to_channel-logs :
        (c : AlertChannelRow) (log : Log)
        → (post_to_channel iso replies ctx c log).0 ≡ with_request c.id (posted c) log
    unfolding post_to_channel posted
    post_to_channel-logs c log = elim (Option-cases (trimmed c.config_url)) [
      | inl h ↦ rw (post_to_channel, posted, h) refl
      | inr (url, h) ↦ rw (post_to_channel, posted, h) refl
    ]

    by_type :
        (c : AlertChannelRow) (log : Log) (t : ChannelType)
        → c.type ≡ t
        → (send_to_channel iso replies ctx c log).0 ≡ with_request c.id (request_for c) log
    by_type c log email e =
        ap (λ (p : Log × Bool). p.0) (send_to_channel-type c log email e)
        ∙ send_email_channel-logs c log
        ∙ ap (λ r. with_request c.id r log) (sym (request_for-type c email e))
    by_type c log webhook e =
        ap (λ (p : Log × Bool). p.0) (send_to_channel-type c log webhook e)
        ∙ post_to_channel-logs c log
        ∙ ap (λ r. with_request c.id r log) (sym (request_for-type c webhook e))
    by_type c log discord e =
        ap (λ (p : Log × Bool). p.0) (send_to_channel-type c log discord e)
        ∙ post_to_channel-logs c log
        ∙ ap (λ r. with_request c.id r log) (sym (request_for-type c discord e))
    by_type c log slack e =
        ap (λ (p : Log × Bool). p.0) (send_to_channel-type c log slack e)
        ∙ post_to_channel-logs c log
        ∙ ap (λ r. with_request c.id r log) (sym (request_for-type c slack e))

    send_to_channel-logs :
        (c : AlertChannelRow) (log : Log)
        → (send_to_channel iso replies ctx c log).0 ≡ with_request c.id (request_for c) log
    send_to_channel-logs c log = by_type c log c.type refl

    -- What is in the log after some channels: what was there, and the requests for these.
    abbrev Reached : List AlertChannelRow → ℕ → Request → Type 0
    Reached cs i r = (c : AlertChannelRow) × Memᴰ c cs × (c.id ≡ i) × (request_for c ≡ some r)

    with_request-to :
        (c : AlertChannelRow) (log : Log) (i : ℕ) (r : Request)
        → Memᴰ (i, r) (with_request c.id (request_for c) log)
        → Memᴰ (i, r) log ⊎ ((c.id ≡ i) × (request_for c ≡ some r))
    with_request-to c log i r m = elim (Option-cases (request_for c)) [
      | inl h ↦ inl (subst (λ o. Memᴰ (i, r) (with_request c.id o log)) h m)
      | inr (q, h) ↦ elim (cases_cons (subst (λ o. Memᴰ (i, r) (with_request c.id o log)) h m)) [
        | inl e ↦ inr (
          sym (ap (λ (p : ℕ × Request). p.0) e),
          h ∙ ap some (sym (ap (λ (p : ℕ × Request). p.1) e)),
        )
        | inr m' ↦ inl m'
      ]
    ]

    with_request-keeps :
        (id : ℕ) (o : Option Request) (log : Log) (x : ℕ × Request)
        → Memᴰ x log
        → Memᴰ x (with_request id o log)
    with_request-keeps id none log x m = m
    with_request-keeps id (some r) log x m = tail m

    send_all-to :
        (cs : List AlertChannelRow) (log : Log) (i : ℕ) (r : Request)
        → Memᴰ (i, r) (send_all iso replies ctx cs log)
        → Memᴰ (i, r) log ⊎ Reached cs i r
    unfolding send_all
    send_all-to [] log i r m = inl m
    send_all-to (c ∷ cs) log i r m =
        elim (send_all-to cs (send_to_channel iso replies ctx c log).0 i r m) [
          | inr (d, inside, id, e) ↦ inr (d, tail inside, id, e)
          | inl before ↦
              elim (with_request-to c log i r
                (subst (Memᴰ (i, r)) (send_to_channel-logs c log) before)) [
                  | inl m' ↦ inl m'
                  | inr (id, e) ↦ inr (c, head refl, id, e)
                ]
        ]

    send_all-keeps :
        (cs : List AlertChannelRow) (log : Log) (x : ℕ × Request)
        → Memᴰ x log
        → Memᴰ x (send_all iso replies ctx cs log)
    unfolding send_all
    send_all-keeps [] log x m = m
    send_all-keeps (c ∷ cs) log x m =
        send_all-keeps cs (send_to_channel iso replies ctx c log).0 x (
          subst (Memᴰ x) (sym (send_to_channel-logs c log))
            (with_request-keeps c.id (request_for c) log x m))

    send_all-from :
        (cs : List AlertChannelRow) (log : Log) (i : ℕ) (r : Request)
        → Reached cs i r
        → Memᴰ (i, r) (send_all iso replies ctx cs log)
    unfolding send_all
    send_all-from [] log i r (c, inside, id, e) = absurd (not-nil inside)
    send_all-from (d ∷ cs) log i r (c, inside, id, e) = elim (cases_cons inside) [
      | inr later ↦ send_all-from cs (send_to_channel iso replies ctx d log).0 i r (c, later, id, e)
      | inl same ↦
          let here : Memᴰ (i, r) (with_request c.id (request_for c) log) =
            subst (λ o. Memᴰ (i, r) (with_request c.id o log)) (sym e)
              (head (ap (λ k. (k, r)) (sym id))) in
          let sent : Memᴰ (i, r) (send_to_channel iso replies ctx d log).0 =
            subst (λ x. Memᴰ (i, r) (send_to_channel iso replies ctx x log).0) same
              (subst (Memᴰ (i, r)) (sym (send_to_channel-logs c log)) here) in
          send_all-keeps cs (send_to_channel iso replies ctx d log).0 (i, r) sent
    ]

    -- Whatever the servers of the channels answer, an alert sends a request exactly if it is the one for
    -- an enabled channel that is bound to the monitor and has an address.
    pub dispatch_alert-reaches :
        (bindings : List Binding) (channels : List AlertChannelRow) (i : ℕ) (r : Request)
        → Memᴰ (i, r) (dispatch_alert iso replies ctx false bindings channels []) ↔ (
            (b : Binding) × (c : AlertChannelRow) × Memᴰ b bindings
            × Memᴰ c channels
            × (is_of ctx.type ctx.id b ≡ true)
            × (c.id ≡ b.channel_id)
            × (c.enabled ≡ true)
            × (c.id ≡ i)
            × (request_for c ≡ some r))
    unfolding dispatch_alert
    dispatch_alert-reaches bindings channels i r = (to, from)
      where
        bound : List AlertChannelRow
        bound = for_monitor ctx.type ctx.id bindings channels

        to :
            Memᴰ (i, r) (send_all iso replies ctx (keep (λ c. c.enabled) bound) [])
            → (b : Binding) × (c : AlertChannelRow) × Memᴰ b bindings
              × Memᴰ c channels
              × (is_of ctx.type ctx.id b ≡ true)
              × (c.id ≡ b.channel_id)
              × (c.enabled ≡ true)
              × (c.id ≡ i)
              × (request_for c ≡ some r)
        to m = elim (send_all-to (keep (λ c. c.enabled) bound) [] i r m) [
          | inl impossible ↦ absurd (not-nil impossible)
          | inr (c, inside, id, e) ↦
              let (listed, on) = keep_Mem-to (λ (x : AlertChannelRow). x.enabled) bound c inside in
              let (b, mb, mine, mc, same) =
                for_monitor-to ctx.type ctx.id bindings channels c listed in
              (b, c, mb, mc, mine, same, on, id, e)
        ]

        from :
            ((b : Binding) × (c : AlertChannelRow) × Memᴰ b bindings
              × Memᴰ c channels
              × (is_of ctx.type ctx.id b ≡ true)
              × (c.id ≡ b.channel_id)
              × (c.enabled ≡ true)
              × (c.id ≡ i)
              × (request_for c ≡ some r))
            → Memᴰ (i, r) (send_all iso replies ctx (keep (λ c. c.enabled) bound) [])
        from (b, c, mb, mc, mine, same, on, id, e) =
            send_all-from (keep (λ c. c.enabled) bound) [] i r (
              c,
              keep_Mem-from (λ (x : AlertChannelRow). x.enabled) bound c
                  (for_monitor-from ctx.type ctx.id bindings channels c b mb mine mc same) on,
              id,
              e,
            )
