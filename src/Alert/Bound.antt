-- ===== src/Alert/Bound.antt =====
-- The channels bound to a monitor (src/db/repositories/alert-channel.repo.ts, `forMonitor`).
use mathlib.Core.List.{Memᴰ}
use mathlib.Core.List.Memᴰ.{
  head, tail, append_left, append_right, append_cases, not-nil, cases_cons,
}
use oo_workers.Prelude.{
  keep_Mem-to, keep_Mem-from, ℕ, ◌≡◌, refl, sym, ◌∙◌, ap, inl, inr, Bool, true, ◌&&◌, List, [], ◌∷◌,
  ◌==◌, ==_iff, Bool-cases,
}
use oo_workers.Db.{MonitorType, type_eq}
use oo_workers.Alert.Dispatch.{AlertChannelRow, Binding, find_channels, for_monitor}

-- The binding is one of the monitor.
abbrev pub is_of : MonitorType → ℕ → Binding → Bool
is_of type id b = type_eq b.monitor_type type && b.monitor_id == id

module _ (type : MonitorType) (id : ℕ) where
  pub for_monitor-to :
      (bindings : List Binding) (channels : List AlertChannelRow) (c : AlertChannelRow)
      → Memᴰ c (for_monitor type id bindings channels)
      → (b : Binding) × Memᴰ b bindings
        × (is_of type id b ≡ true)
        × Memᴰ c channels
        × (c.id ≡ b.channel_id)
  unfolding for_monitor find_channels
  for_monitor-to [] channels c m = absurd (not-nil m)
  for_monitor-to (b ∷ bindings) channels c m = elim (Bool-cases (is_of type id b)) [
    | inl mine ↦
        elim (append_cases (find_channels b.channel_id channels) (rw (for_monitor, mine) at m)) [
          | inl here ↦
              let (inside, same) = keep_Mem-to (λ d. d.id == b.channel_id) channels c here in
              (b, head refl, mine, inside, (==_iff c.id b.channel_id).0 same)
          | inr later ↦
              let (b', m', mine', inside, same) = for_monitor-to bindings channels c later in
              (b', tail m', mine', inside, same)
        ]
    | inr other ↦
        let (b', m', mine', inside, same) =
          for_monitor-to bindings channels c (rw (for_monitor, other) at m) in
        (b', tail m', mine', inside, same)
  ]

  pub for_monitor-from :
      (bindings : List Binding) (channels : List AlertChannelRow) (c : AlertChannelRow)
      (b : Binding)
      → Memᴰ b bindings
      → is_of type id b ≡ true
      → Memᴰ c channels
      → c.id ≡ b.channel_id
      → Memᴰ c (for_monitor type id bindings channels)
  unfolding for_monitor find_channels
  for_monitor-from [] channels c b m mine inside same = absurd (not-nil m)
  for_monitor-from (d ∷ bindings) channels c b m mine inside same = elim (cases_cons m) [
    | inl e ↦
        let mine' : is_of type id d ≡ true = ap (is_of type id) (sym e) ∙ mine in
        let same' : (c.id == d.channel_id) ≡ true =
          (==_iff c.id d.channel_id).1 (same ∙ ap (λ (x : Binding). x.channel_id) e) in
        rw (for_monitor, mine')
          (append_left _ (keep_Mem-from (λ x. x.id == d.channel_id) channels c inside same'))
    | inr m' ↦
        let rest = for_monitor-from bindings channels c b m' mine inside same in
        elim (Bool-cases (is_of type id d)) [
          | inl here ↦
              rw (for_monitor, here) (append_right (find_channels d.channel_id channels) rest)
          | inr there ↦ rw (for_monitor, there) rest
        ]
  ]
