-- ===== src/Tests/Alerts.antt =====
-- Runs of the alerts: src/services/alert-dispatch.ts.
use mathlib.Core.List.{Memᴰ}
use oo_workers.Prelude.{
  ℕ, ◌+◌, ◌*◌, ◌≡◌, refl, ◌↔◌, Bool, true, false, List, [], ◌∷◌, Option, none, some, length, keep,
}
use oo_workers.Text.{Text, codes, whitespace}
use oo_workers.Db.{MonitorType, failed}
use oo_workers.Alert.{outage, AlertContext}
use oo_workers.Alert.Bound.{is_of}
use oo_workers.Alert.Dispatch.{
  AlertChannelRow, Binding, Request, post, Reply, failure, dispatch_alert, for_monitor,
  find_channels, send_all, send_to_channel, post_to_channel, trimmed,
}
use oo_workers.Alert.Escaped.{occurrences, email_html-tags}
use oo_workers.Alert.Formats.{ChannelType, webhook, email, webhook_body, format_for}
use oo_workers.Incident.{trim_start, trim_end}
use oo_workers.Alert.Mail.{email_fields, email_html}
use oo_workers.Alert.Reach.{request_for, dispatch_alert-reaches}

abbrev iso : ℕ → Text
iso time = codes "2026-01-02T03:04:05.000Z"

abbrev down : AlertContext
down = record {
  type = MonitorType.url;
  id = 4;
  name = codes "<b>shop</b>";
  target = codes "https://shop.example?a=1&b=<2>";
  event = outage;
  status = failed;
  status_code = some 502;
  error_message = some (codes "<html>Bad Gateway</html>");
  duration_ms = none;
  start_time = 0;
  region_slug = some [];
}

email_html-tags_example :
    occurrences b'<' (email_html iso down) ≡ 25 + 6 * length (email_fields iso down)
email_html-tags_example = email_html-tags iso down

abbrev channel : ℕ → ChannelType → Option Text → Option Text → Bool → AlertChannelRow
channel id type config_to config_url enabled = record {
  id = id;
  type = type;
  config_to = config_to;
  config_url = config_url;
  enabled = enabled;
}

-- One that is switched off, one without an address, and one that is fine.
abbrev channels : List AlertChannelRow
channels =
    channel 1 email (some (codes "ops@example.com")) none false
    ∷ channel 2 webhook none (some (codes " ")) true
    ∷ channel 3 webhook none (some (codes " https://hook ")) true
    ∷ []

abbrev binding : MonitorType → ℕ → ℕ → Binding
binding type id channel_id = record {
  monitor_type = type;
  monitor_id = id;
  channel_id = channel_id;
}

abbrev bindings : List Binding
bindings =
    binding MonitorType.url 4 1
    ∷ binding MonitorType.url 4 2
    ∷ binding MonitorType.tcp 4 3
    ∷ binding MonitorType.url 4 3
    ∷ []

-- No server can be reached.
abbrev unreachable : ℕ → Reply
unreachable id = failure (codes "ECONNREFUSED")

abbrev request : Request
request = post (codes "https://hook") (webhook_body down)

dispatch_alert-reaches_example :
    Memᴰ (3, request) (dispatch_alert iso unreachable down false bindings channels []) ↔ (
      (b : Binding) × (c : AlertChannelRow) × Memᴰ b bindings
      × Memᴰ c channels
      × (is_of MonitorType.url 4 b ≡ true)
      × (c.id ≡ b.channel_id)
      × (c.enabled ≡ true)
      × (c.id ≡ 3)
      × (request_for iso down c ≡ some request))
dispatch_alert-reaches_example =
    dispatch_alert-reaches iso down unreachable bindings channels 3 request

sent_once : dispatch_alert iso unreachable down false bindings channels [] ≡ (3, request) ∷ []
unfolding dispatch_alert for_monitor find_channels keep send_all send_to_channel post_to_channel
    trimmed trim_start trim_end format_for whitespace
sent_once = refl
