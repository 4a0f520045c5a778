-- ===== src/Alert.antt =====
-- src/services/alert-dispatch.ts: what an alert says.
pub mod Formats
pub mod Mail
pub mod Dispatch
pub mod Bound
pub mod Reach
pub mod Escaped
use oo_workers.Prelude.{ℕ, Option}
use oo_workers.Text.{Text}
use oo_workers.Db.{MonitorType}

pub data AlertEvent : Type 0 where
  outage recovery test : AlertEvent

pub record AlertContext : Type 0 where
  pub type : MonitorType
  pub id : ℕ
  pub name : Text
  pub target : Text
  pub event : AlertEvent
  pub status : Text
  pub status_code : Option ℕ
  pub error_message : Option Text
  pub duration_ms : Option ℕ
  pub start_time : ℕ
  pub region_slug : Option Text
