-- ===== src/Capacity.antt =====
-- packages/api/src/capacity/capacity.entity.ts: what a capacity limit is.
pub mod Period
pub mod Keys
pub mod Usage
pub mod Resolve
pub mod Tests
use open_vm_x_ai.Common.{ℕ, Bool, false, Option, String, List, get_or, str_eq}

pub data CapacityPeriod : Type 0 where
  minute hour day week month lifetime : CapacityPeriod

-- The values of the enum, which are its names at run time.
unfoldable pub period_name : CapacityPeriod → String
period_name minute = "minute"
period_name hour = "hour"
period_name day = "day"
period_name week = "week"
period_name month = "month"
period_name lifetime = "lifetime"

unfoldable pub is_minute : CapacityPeriod → Bool
unfolding period_name
is_minute p = str_eq (period_name p) "minute"

pub data CapacityDimension : Type 0 where
  source_ip : CapacityDimension

-- `requests`, `tokens`, `enabled` and `dimension` may be null or undefined: `none`.
pub record CapacityEntity : Type 0 where
  pub period : CapacityPeriod
  pub requests : Option ℕ
  pub tokens : Option ℕ
  pub enabled : Option Bool
  pub dimension : Option CapacityDimension

-- `capacity.enabled` as a condition.
abbrev pub is_enabled : CapacityEntity → Bool
is_enabled c = get_or c.enabled false

-- `capacity.requests ?? 0`.
abbrev pub requests_or_zero : CapacityEntity → ℕ
requests_or_zero c = get_or c.requests 0

-- `capacity.tokens ?? 0`.
abbrev pub tokens_or_zero : CapacityEntity → ℕ
tokens_or_zero c = get_or c.tokens 0

pub record DiscoveredCapacityEntry : Type 0 where
  pub updated_at : ℕ
  pub capacity : List CapacityEntity
