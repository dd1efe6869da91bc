-- ===== src/Capacity/Tests.antt =====
-- Runs on a clock that stands still and on counters in memory, and the theorems at such inputs.
use open_vm_x_ai.Common.{
  ℕ, ◌+◌, ◌<◌, ◌≡◌, if◌then◌else◌, true, false, Option, none, some, String, List, [], ◌∷◌, ok,
  arith, str_eq, lookup,
}
use mathlib.Core.Option
use open_vm_x_ai.Common.Int.{ℤ}
use open_vm_x_ai.Redis.{MemoryKeys, memory_redis}
use open_vm_x_ai.Capacity.{CapacityEntity, minute, hour}
use open_vm_x_ai.Capacity.Period.{Calendar, remaining_seconds}
use open_vm_x_ai.Capacity.Keys.{get_resource_key_prefix, usage_prefix}
use open_vm_x_ai.Capacity.Usage.{
  EvaluatedCapacity, PrefixedCapacity, UsageMetric, uniq_periods, get_usage,
}
use open_vm_x_ai.Capacity.Usage.Lookup.{metric, last_with, get_usage-lookup}
use open_vm_x_ai.Entities.{
  AiConnectionEntity, AiResourceEntity, AiResourceModelConfigEntity, ApiKeyEntity,
}
use open_vm_x_ai.Http.{FastifyRequest}

pub less_than_60 : (now : ℕ) → 15 < 60
less_than_60 now = omega arith

-- Always the 15th second of a minute and of an hour.
abbrev pub still_calendar : Calendar
still_calendar = record {
  get_seconds = λ now. 15;
  get_minutes = λ now. 15;
  zoned = λ now. now;
  start_of_next_day = λ now. now + 5000;
  end_of_week = λ now. now + 5000;
  end_of_month = 9000;
  zoned_current_time = 5000;
  seconds_lt = less_than_60;
  minutes_lt = less_than_60;
}

-- 4 requests and 90 tokens are counted.
abbrev pub four_requests : MemoryKeys
four_requests k = if str_eq k "p:minute:requests" then some 4 else some 90

abbrev pub an_entry : EvaluatedCapacity
an_entry = record { period = "minute"; key_prefix = "p:" }

abbrev pub five_per_minute : CapacityEntity
five_per_minute = record {
  period = minute;
  requests = some 5;
  tokens = some 100;
  enabled = some true;
  dimension = none;
}

abbrev pub two_limits : List PrefixedCapacity
two_limits =
    record { capacity = five_per_minute; key_prefix = "p:" }
    ∷ record { capacity = five_per_minute; key_prefix = "q:" }
    ∷ []

abbrev pub a_model : AiResourceModelConfigEntity
a_model = record { provider = "openai"; model = "m"; connection_id = "c1" }

abbrev pub limited_connection : AiConnectionEntity
limited_connection = record {
  connection_id = "c1";
  provider = "openai";
  capacity = some (five_per_minute ∷ []);
  discovered_capacity = none;
}

abbrev pub limited_resource : AiResourceEntity
limited_resource = record {
  resource_id = "r1";
  model = a_model;
  fallback_models = none;
  secondary_models = some (a_model ∷ a_model ∷ []);
  routing_enabled = false;
  capacity = some (record five_per_minute { period = hour } ∷ []);
  enforce_capacity = true;
}

abbrev pub limited_key : ApiKeyEntity
limited_key = record {
  api_key_id = "k1";
  capacity = some (five_per_minute ∷ []);
  enforce_capacity = false;
}

get_usage-lookup_example :
    (m : List (String × UsageMetric)) × (get_usage memory_redis still_calendar four_requests 0
        two_limits
      ≡ ok m)
    × ((p : String) (left : ℤ)
        → remaining_seconds still_calendar p 0 ≡ some left
        → lookup p m
          ≡ Option.map
              (metric memory_redis still_calendar four_requests left)
              (last_with p (uniq_periods two_limits)))
get_usage-lookup_example = get_usage-lookup memory_redis still_calendar four_requests 0 two_limits

abbrev pub from_10_0_0_1 : Option FastifyRequest
from_10_0_0_1 = some (record { ip = "10.0.0.1"; forwarded_for = none })

abbrev tests_base : String
tests_base = usage_prefix (get_resource_key_prefix "w" "e" "r1" "c1")
