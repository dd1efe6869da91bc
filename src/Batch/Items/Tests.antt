-- ===== src/Batch/Items/Tests.antt =====
-- Retrieving items on a small input.
use open_vm_x_ai.Common.{
  ℕ, ◌≡◌, refl, true, false, none, some, String, List, [], ◌∷◌, ◌++◌, filter, ok, lookup, insert,
  All, str_eq, if◌then◌else◌, arith,
}
use open_vm_x_ai.Common.Int.{pos}
use open_vm_x_ai.Capacity.{CapacityEntity, minute, period_name, is_enabled}
use open_vm_x_ai.Capacity.Period.{remaining_seconds}
use open_vm_x_ai.Capacity.Keys.{key_prefix_for, get_resource_key_prefix, usage_prefix}
use open_vm_x_ai.Capacity.Resolve.{
  Resolution, resolve, resolve_lem, keyed, ai_connection, ai_resource, api_key,
  connection_capacities_of, enforced, api_key_capacities,
}
use open_vm_x_ai.Capacity.Tests.{still_calendar}
use open_vm_x_ai.Capacity.Usage.{
  PrefixedCapacity, UsageMetric, get_usage, usage_from, usage_of, uniq_periods, uniq, period_key,
  before_mark, second_part,
}
use open_vm_x_ai.Entities.{AiConnectionEntity, AiResourceEntity}
use open_vm_x_ai.Redis.{MemoryKeys, memory_redis}
use open_vm_x_ai.Redis.Sets.{MemorySets, memory_sets}
use open_vm_x_ai.Batch.Keys.{base_key, queue_key, request_tokens, lua_parts, split_bar}
use open_vm_x_ai.Batch.Retrieve.Script.{ShowTokens}
use open_vm_x_ai.Batch.Available.{batch_capacities, recent_discovered}
use open_vm_x_ai.Batch.Items.{Retrieval, retrieve_items}
use open_vm_x_ai.Batch.Items.Left.{InTokens, InRequests, HasLeft, OfRetrieved}
use open_vm_x_ai.Batch.Items.Within.{retrieve_items-tokens, retrieve_items-requests}
use open_vm_x_ai.Batch.Tests.{unary, size}

-- Three requests and three tokens are counted in each period.
abbrev three_counted : MemoryKeys
three_counted k = some 3

abbrev ten_per_minute : CapacityEntity
ten_per_minute = record {
  period = minute;
  requests = some 10;
  tokens = some 100;
  enabled = some true;
  dimension = none;
}

abbrev connection : AiConnectionEntity
connection = record {
  connection_id = "c";
  provider = "p";
  capacity = some (ten_per_minute ∷ []);
  discovered_capacity = none;
}

abbrev resource : AiResourceEntity
resource = record {
  resource_id = "r";
  model = record { provider = "p"; model = "m"; connection_id = "c" };
  fallback_models = none;
  secondary_models = none;
  routing_enabled = false;
  capacity = none;
  enforce_capacity = false;
}

abbrev base : String
base = usage_prefix (get_resource_key_prefix "w" "e" "r" "c")

abbrev resolution : Resolution
resolution = record {
  enabled_capacities =
      filter (λ r. is_enabled r.capacity)
        (keyed ai_connection base none (connection_capacities_of connection)
          ++ (keyed ai_resource base none (enforced false none)
              ++ keyed api_key base none (api_key_capacities none)));
  connection_capacities = connection_capacities_of connection;
}

resolved_one : resolve "w" "e" connection resource none none ≡ ok resolution
resolved_one = resolve_lem "w" "e" connection resource none none

abbrev capacities : List PrefixedCapacity
capacities =
    batch_capacities "w" "e" connection resource (some (ten_per_minute ∷ [])) 0
      resolution.enabled_capacities

abbrev usage : List (String × UsageMetric)
usage = ("minute", record { total_requests = 4; used_tokens = 3; remaining_seconds = pos 45 }) ∷ []

usage_read : get_usage memory_redis still_calendar three_counted 0 capacities ≡ ok usage
unfolding get_usage usage_from usage_of uniq_periods uniq period_key before_mark second_part
    batch_capacities connection_capacities_of remaining_seconds period_name key_prefix_for
    usage_prefix get_resource_key_prefix enforced recent_discovered lookup insert
usage_read = refl

abbrev main_queue : String
main_queue = queue_key (base_key "w" "e") "r"

abbrev one_queued : MemorySets
one_queued k = if str_eq k main_queue then ("w|e|b|i|r|110|1110", 2) ∷ [] else []

abbrev three : String → ℕ
three m = 3

one_queued-tokens : ShowTokens unary three (memory_sets.zrange one_queued main_queue)
unfolding request_tokens lua_parts split_bar size queue_key base_key
one_queued-tokens = (refl, tt)

capacities-HasLeft : All (HasLeft usage) capacities
unfolding batch_capacities connection_capacities_of enforced period_name lookup recent_discovered
capacities-HasLeft =
    let metric : UsageMetric = record {
      total_requests = 4;
      used_tokens = 3;
      remaining_seconds = pos 45;
    } in
    ((metric, refl, λ h. omega arith), ((metric, refl, λ h. omega arith), tt))

retrieve_items-tokens_example :
    (o : Retrieval) × ((retrieve_items unary memory_sets memory_redis still_calendar three_counted 0
        0 9 "w" "e" "b" connection resource
        (some (ten_per_minute ∷ []))
        2
        one_queued).0
      ≡ ok o)
    × OfRetrieved (λ items. All (InTokens usage three items) capacities) o
retrieve_items-tokens_example =
    retrieve_items-tokens unary memory_sets memory_redis still_calendar three_counted 0 0 9 "w" "e"
      "b" connection resource (some (ten_per_minute ∷ [])) resolution usage three 2 one_queued
      resolved_one usage_read one_queued-tokens

retrieve_items-requests_example :
    (o : Retrieval) × ((retrieve_items unary memory_sets memory_redis still_calendar three_counted 0
        0 9 "w" "e" "b" connection resource
        (some (ten_per_minute ∷ []))
        2
        one_queued).0
      ≡ ok o)
    × OfRetrieved (λ items. All (InRequests usage items) capacities) o
retrieve_items-requests_example =
    retrieve_items-requests unary memory_sets memory_redis still_calendar three_counted 0 0 9 "w"
      "e" "b" connection resource (some (ten_per_minute ∷ [])) resolution usage three 2 one_queued
      resolved_one usage_read capacities-HasLeft (omega arith) one_queued-tokens
