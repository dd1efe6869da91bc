-- ===== src/Gate/Tests.antt =====
-- Runs of the gate on counters in memory, and the theorems at such inputs.
use open_vm_x_ai.Common.{
  false, ◌≤◌, ◌<◌, ◌≡◌, refl, Option, none, some, String, List, [], map, ok, arith,
}
use open_vm_x_ai.Common.Int.{pos}
use open_vm_x_ai.Redis.{memory_redis}
use open_vm_x_ai.Capacity.Tests.{
  still_calendar, four_requests, an_entry, five_per_minute, a_model, limited_connection,
  limited_resource, limited_key,
}
use open_vm_x_ai.Capacity.Usage.Lookup.{metric}
use open_vm_x_ai.Capacity.Usage.{UsageMetric, get_usage}
use open_vm_x_ai.Capacity.Resolve.{Resolution, resolve}
use open_vm_x_ai.Prioritization.Allocations.{PoolWorkloadAllocation}
use open_vm_x_ai.Prioritization.Gate.{Repositories}
use open_vm_x_ai.Gate.Request.{GateState, prefixed, request_gate}
use open_vm_x_ai.Gate.Applied.{limits}
use open_vm_x_ai.Gate.Checks.{GateCases, request_gate-GateCases}
use open_vm_x_ai.Gate.Counters.{increase_for}
use open_vm_x_ai.Gate.Window.{requests_counted, tokens_counted, counting_keeps_limit}

counting_keeps_limit_example :
    let s' =
      increase_for memory_redis
        (some (metric memory_redis still_calendar four_requests (pos 45) an_entry))
        10
        an_entry
        four_requests in
    (0 < 5 → requests_counted memory_redis still_calendar s' an_entry ≤ 5)
    × (0 < 100 → tokens_counted memory_redis still_calendar s' an_entry ≤ 100)
counting_keeps_limit_example =
    counting_keeps_limit memory_redis still_calendar four_requests an_entry (pos 45) five_per_minute
      10 (record { requests_fit = λ p. omega arith; tokens_fit = λ p. omega arith })

-- Nothing is kept of the pools.
abbrev no_pools : Repositories
no_pools = record {
  js = record {
    of_nat = λ n. record { bits = n };
    plus = λ a b. a;
    minus = λ a b. a;
    times = λ a b. a;
    divided_by = λ a b. a;
    math_min = λ a b. a;
    math_max = λ a b. b;
    less = λ a b. false;
  };
  S = Option PoolWorkloadAllocation;
  get_minute_metric_by_pool = λ s now c e. 0;
  get_resource_metric_by_window = λ s now c w d. [];
  write_metric = λ s now t c e. s;
  get_allocation = λ s c. s;
  write_allocation = λ s c m. some m;
  get-write_allocation = λ s c m. refl;
}

abbrev before : GateState memory_redis still_calendar no_pools
before = record { keys = four_requests; pools = none }

request_gate-GateCases_example :
    (r : Resolution) × (resolve "w" "e" limited_connection limited_resource none (some limited_key)
      ≡ ok r)
    × ((usage : List (String × UsageMetric)) × (get_usage memory_redis still_calendar four_requests
            0
            (map prefixed r.enabled_capacities)
          ≡ ok usage)
        × GateCases memory_redis still_calendar no_pools 10 before usage
            (limits limited_connection limited_resource (some limited_key))
            (request_gate memory_redis still_calendar no_pools 0 10 "w" "e" limited_resource a_model
              limited_connection
              (some limited_key)
              none
              none
              none
              before))
request_gate-GateCases_example =
    request_gate-GateCases memory_redis still_calendar no_pools 0 10 "w" "e" limited_resource
      a_model limited_connection (some limited_key) none none before
