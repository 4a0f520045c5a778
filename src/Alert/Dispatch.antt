-- ===== src/Alert/Dispatch.antt =====
-- src/services/alert-dispatch.ts: which channels an alert goes to. What the servers of the channels
-- answer is given; the log holds every request and email that is sent, newest first.
use oo_workers.Prelude.{
  ℕ, Bool, true, false, ◌&&◌, List, [], ◌∷◌, ◌++◌, Option, none, some, keep, ◌==◌, leb,
  if◌then◌else◌,
}
use oo_workers.Text.{Text}
use oo_workers.Db.{MonitorType, type_eq}
use oo_workers.Probes.{non_empty}
use oo_workers.Incident.{trim_start, trim_end}
use oo_workers.Alert.{AlertContext}
use oo_workers.Alert.Formats.{ChannelType, email, ChannelBody, format_for}
use oo_workers.Alert.Mail.{email_subject, email_text, email_html}

-- `config` has `to` for email and `url` for the other types.
pub record AlertChannelRow : Type 0 where
  pub id : ℕ
  pub type : ChannelType
  pub config_to : Option Text
  pub config_url : Option Text
  pub enabled : Bool

-- A row of `monitor_alert_channels`.
pub record Binding : Type 0 where
  pub monitor_type : MonitorType
  pub monitor_id : ℕ
  pub channel_id : ℕ

pub data Request : Type 0 where
  post : (url : Text) (body : ChannelBody) → Request
  mail : (to subject text html : Text) → Request

pub data Reply : Type 0 where
  status : ℕ → Reply
  failure : Text → Reply

-- A log of what went out and for which channel.
abbrev pub Log : Type 0
Log = List (ℕ × Request)

unfoldable pub find_channels : ℕ → List AlertChannelRow → List AlertChannelRow
unfolding keep
find_channels id channels = keep (λ c. c.id == id) channels

-- `forMonitor`: the join of the bindings of the monitor with the channels.
unfoldable pub for_monitor :
    MonitorType → ℕ → List Binding → List AlertChannelRow → List AlertChannelRow
unfolding find_channels
for_monitor type id [] channels = []
for_monitor type id (b ∷ bindings) channels =
    let rest = for_monitor type id bindings channels in
    if type_eq b.monitor_type type && b.monitor_id == id
    then find_channels b.channel_id channels ++ rest
    else rest

unfoldable pub trimmed : Option Text → Option Text
unfolding trim_start trim_end
trimmed none = none
trimmed (some s) = non_empty (some (trim_end (trim_start s)))

abbrev pub is_2xx : ℕ → Bool
is_2xx code = leb 200 code && leb code 299

module _ (iso : ℕ → Text) (replies : ℕ → Reply) (ctx : AlertContext) where
  unfoldable pub send_email_channel : AlertChannelRow → Log → Log × Bool
  unfolding email_subject email_text email_html trimmed
  send_email_channel c log = elim (trimmed c.config_to) [
    | none ↦ (log, false)
    | some to ↦ (
      (c.id, mail to (email_subject iso ctx) (email_text iso ctx) (email_html iso ctx)) ∷ log,
      elim (replies c.id) [ status code ↦ true | failure message ↦ false ],
    )
  ]

  unfoldable pub post_to_channel : AlertChannelRow → Log → Log × Bool
  unfolding format_for trimmed
  post_to_channel c log = elim (trimmed c.config_url) [
    | none ↦ (log, false)
    | some url ↦ (
      (c.id, post url (format_for c.type ctx)) ∷ log,
      elim (replies c.id) [ status code ↦ is_2xx code | failure message ↦ false ],
    )
  ]

  -- `sendToChannel`.
  unfoldable pub send_to_channel : AlertChannelRow → Log → Log × Bool
  unfolding send_email_channel post_to_channel
  send_to_channel c log = elim c.type [
    | email ↦ send_email_channel c log
    | _ ↦ post_to_channel c log
  ]

  -- The `Promise.all`, whose results are dropped.
  unfoldable pub send_all : List AlertChannelRow → Log → Log
  unfolding send_to_channel
  send_all [] log = log
  send_all (c ∷ channels) log = send_all channels (send_to_channel c log).0

  -- `dispatchAlert`, where the lookup may throw.
  unfoldable pub dispatch_alert :
      (lookup_throws : Bool) → List Binding → List AlertChannelRow → Log → Log
  unfolding for_monitor send_all keep
  dispatch_alert lookup_throws bindings channels log =
      if lookup_throws
      then log
      else send_all (keep (λ c. c.enabled) (for_monitor ctx.type ctx.id bindings channels)) log
