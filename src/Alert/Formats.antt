-- ===== src/Alert/Formats.antt =====
-- src/services/alert-dispatch.ts: the bodies for webhooks, Discord and Slack.
use oo_workers.Prelude.{ℕ, List, [], ◌∷◌, ◌++◌, Option, none, some, take, concat}
use oo_workers.Text.{Text, codes, to_upper}
use oo_workers.Text.Decimal.{show}
use oo_workers.Db.{type_name}
use oo_workers.Probes.{non_empty}
use oo_workers.Alert.{AlertEvent, outage, recovery, test, AlertContext}

pub data ChannelType : Type 0 where
  webhook discord slack email : ChannelType

unfoldable pub headline : AlertContext → Text
headline ctx = elim ctx.event [
  | recovery ↦ codes "✅ " ++ (ctx.name ++ codes " recovered")
  | test ↦ codes "🧪 " ++ (ctx.name ++ codes " — test alert")
  | outage ↦ codes "🔥 " ++ (ctx.name ++ codes " is down")
]

-- `COLORS`.
abbrev pub color_of : AlertEvent → ℕ
color_of outage = 0xdc2626
color_of recovery = 0x16a34a
color_of test = 0x6b7280

abbrev pub error_shown : AlertContext → Option Text
error_shown ctx = elim (non_empty ctx.error_message) [ none ↦ none | some e ↦ some (take 500 e) ]

-- One line for a value that is there.
abbrev pub line {ℓ} : {A : Type ℓ} → Option A → (A → Text) → List Text
line none f = []
line (some a) f = f a ∷ []

-- `parts.join(sep)`.
unfoldable pub join_parts : Text → List Text → Text
join_parts sep [] = []
join_parts sep (x ∷ []) = x
join_parts sep (x ∷ y ∷ xs) = x ++ (sep ++ join_parts sep (y ∷ xs))

unfoldable pub description : AlertContext → Text
unfolding join_parts
description ctx = join_parts (codes "\n") (
    concat (
      ((codes "**Target:** " ++ ctx.target) ∷ [])
      ∷ ((codes "**Type:** " ++ to_upper (type_name ctx.type)) ∷ [])
      ∷ line ctx.status_code (λ c. codes "**Status code:** " ++ show c)
      ∷ line ctx.duration_ms (λ d. codes "**Latency:** " ++ (show d ++ codes "ms"))
      ∷ line (non_empty ctx.region_slug) (λ r. codes "**Region:** " ++ r)
      ∷ line (error_shown ctx) (λ e. codes "**Error:** " ++ e)
      ∷ []))

pub record DiscordEmbed : Type 0 where
  pub title : Text
  pub description : Text
  pub color : ℕ
  pub timestamp : ℕ

-- The header, the fields of the section, and the section with the error.
pub record SlackMessage : Type 0 where
  pub text : Text
  pub fields : List Text
  pub error : Option Text

pub data ChannelBody : Type 0 where
  webhook_body : AlertContext → ChannelBody
  discord_body : DiscordEmbed → ChannelBody
  slack_body : SlackMessage → ChannelBody

unfoldable pub format_discord : AlertContext → DiscordEmbed
unfolding headline description
format_discord ctx = record {
  title = headline ctx;
  description = description ctx;
  color = color_of ctx.event;
  timestamp = ctx.start_time;
}

unfoldable pub format_slack : AlertContext → SlackMessage
unfolding headline
format_slack ctx = record {
  text = headline ctx;
  fields = concat (
      ((codes "*Target*\n" ++ ctx.target) ∷ [])
      ∷ ((codes "*Type*\n" ++ to_upper (type_name ctx.type)) ∷ [])
      ∷ line ctx.status_code (λ c. codes "*Status code*\n" ++ show c)
      ∷ line ctx.duration_ms (λ d. codes "*Latency*\n" ++ (show d ++ codes "ms"))
      ∷ line (non_empty ctx.region_slug) (λ r. codes "*Region*\n" ++ r)
      ∷ []);
  error = elim (error_shown ctx) [
    | none ↦ none
    | some e ↦ some (codes "*Error*\n```" ++ (e ++ codes "```"))
  ];
}

-- `formatFor`.
unfoldable pub format_for : ChannelType → AlertContext → ChannelBody
unfolding format_discord format_slack
format_for discord ctx = discord_body (format_discord ctx)
format_for slack ctx = slack_body (format_slack ctx)
format_for _ ctx = webhook_body ctx
