-- ===== src/Prioritization/Gate.antt =====
-- `gate` of packages/api/src/prioritization/strategy/adaptive-token-scaling.ts over the two
-- repositories of storage/base. What the repositories keep, and how, is not part of this module:
-- they are a parameter, and a state `S` stands for what they hold.
use open_vm_x_ai.Common.{
  ℕ, ◌≡◌, Bool, true, false, Option, none, some, String, List, [], ◌∷◌, map, Result, ok, ◌>>=◌,
  or_throw, if◌then◌else◌, find, includes, insert, lookup, get_or,
}
use open_vm_x_ai.Capacity.{CapacityEntity, is_minute, tokens_or_zero}
use open_vm_x_ai.Entities.{Number, AiConnectionEntity, PoolDefinitionEntry, PoolDefinitionEntity}
use open_vm_x_ai.Prioritization.Allocations.{
  PoolAllocation, PoolWorkloadAllocation, Arithmetic, get_available_capacity,
}
use open_vm_x_ai.Prioritization.Scaling.{
  PrioritizationError, no_resource_pool, no_capacity_plan, type_error, window_size, consumed_tokens,
  scale_pools,
}

-- `PrioritizationMetricsRepository` and `PrioritizationAllocationRepository`, the methods that the
-- gate calls, and the arithmetic of the numbers that it computes with. A connection is named by its
-- id.
pub record Repositories : Type 1 where
  pub js : Arithmetic
  pub S : Type 0
  pub get_minute_metric_by_pool : S → ℕ → String → PoolDefinitionEntry → ℕ
  pub get_resource_metric_by_window : S → ℕ → String → ℕ → PoolDefinitionEntity → List (String × ℕ)
  pub write_metric : S → ℕ → ℕ → String → PoolDefinitionEntry → S
  pub get_allocation : S → String → Option PoolWorkloadAllocation
  pub write_allocation : S → String → PoolWorkloadAllocation → S
  -- An allocation that was written is read back, and metrics are kept apart from it.
  pub get-write_allocation :
      (s : S) (c : String) (m : PoolWorkloadAllocation)
      → get_allocation (write_allocation s c m) c ≡ some m

-- The message of a denial shows the pool, its share and the tokens of the plan.
pub record DenyReason : Type 0 where
  pub pool_name : String
  pub current : Number
  pub tokens : ℕ

pub record GateOutput : Type 0 where
  pub allowed : Bool
  pub allocation : PoolWorkloadAllocation
  pub reason : Option DenyReason

abbrev pub deny : String → Number → ℕ → PoolWorkloadAllocation → GateOutput
deny name current tokens m = record {
  allowed = false;
  allocation = m;
  reason = some (record { pool_name = name; current = current; tokens = tokens });
}

abbrev pub allow : PoolWorkloadAllocation → GateOutput
allow m = record { allowed = true; allocation = m; reason = none }

-- `getResourcePool` of strategy/base/index.ts.
unfoldable pub get_resource_pool : PoolDefinitionEntity → String → Option PoolDefinitionEntry
get_resource_pool pool resource_id = find (λ p. includes p.resources resource_id) pool.definition

-- What a pool gets before anything is stored.
abbrev pub initial_allocation : PoolDefinitionEntry → PoolAllocation
initial_allocation p = record {
  min = p.min_reservation;
  max = p.max_reservation;
  current = p.min_reservation;
  scale_action = none;
  scale_action_at = none;
  scale_description = none;
}

-- `pool.definition.reduce(…)`.
unfoldable pub initial_from :
    PoolWorkloadAllocation → List PoolDefinitionEntry → PoolWorkloadAllocation
initial_from acc [] = acc
initial_from acc (p ∷ ps) = initial_from (insert p.name (initial_allocation p) acc) ps

-- `rawAllocation || …`.
unfoldable pub allocation_or_initial :
    Option PoolWorkloadAllocation → List PoolDefinitionEntry → PoolWorkloadAllocation
allocation_or_initial none ps = initial_from [] ps
allocation_or_initial (some m) ps = m

abbrev pub pools_rank : PoolDefinitionEntity → List String
pools_rank pool = map (λ p. p.name) pool.definition

-- `connection.capacity?.find((capacity) => capacity.period === CapacityPeriod.MINUTE)`.
unfoldable pub capacity_plan : AiConnectionEntity → Option CapacityEntity
capacity_plan c = find (λ p. is_minute p.period) (get_or c.capacity [])

module _ (repos : Repositories) where
  open repos use {
    S, js, get_minute_metric_by_pool, get_resource_metric_by_window, write_metric, get_allocation,
    write_allocation,
  }

  -- `minuteTokensByPool > (capacityPlan.tokens ?? 0) * (current / 100)`.
  unfoldable pub is_over_share : ℕ → ℕ → PoolAllocation → Bool
  is_over_share minute tokens p = js.less (consumed_tokens js tokens p) (js.of_nat minute)

  -- The end of `gate`: compare with the share, and write what the request uses.
  unfoldable pub decide_share :
      PoolDefinitionEntry
      → ℕ
      → ℕ
      → ℕ
      → ℕ
      → String
      → PoolWorkloadAllocation
      → S
      → Result PrioritizationError (GateOutput × S)
  decide_share entry now request_tokens minute tokens connection_id m s = do
    p ← or_throw (lookup entry.name m) type_error
    if is_over_share minute tokens p
        then ok (deny entry.name p.current tokens m, s)
        else ok (
          allow m,
          write_allocation (write_metric s now request_tokens connection_id entry) connection_id m,
        )

  unfoldable pub gate :
      PoolDefinitionEntity
      → ℕ
      → ℕ
      → String
      → AiConnectionEntity
      → S
      → Result PrioritizationError (GateOutput × S)
  gate pool now request_tokens resource_id connection s = do
    entry ← or_throw (get_resource_pool pool resource_id) no_resource_pool
    let id = connection.connection_id
    let minute = get_minute_metric_by_pool s now id entry
    let windows = get_resource_metric_by_window s now id window_size pool
    let m = allocation_or_initial (get_allocation s id) pool.definition
    let available = get_available_capacity js m
    plan ← or_throw (capacity_plan connection) no_capacity_plan
    let tokens = tokens_or_zero plan
    m' ← scale_pools js (pools_rank pool) now tokens available windows (pools_rank pool) m
    decide_share entry now request_tokens minute tokens id m' s
