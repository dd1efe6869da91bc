-- ===== src/Gate/Request.antt =====
-- `requestGate` of packages/api/src/completion/gate.service.ts.
use open_vm_x_ai.Common.{
  ℕ, true, ◌&&◌, Option, none, some, get_or, String, List, [], ◌++◌, map, Result, ok, err, ◌>>=◌,
  if◌then◌else◌, find, lookup,
}
use open_vm_x_ai.Redis.{RedisClient}
use open_vm_x_ai.Capacity.{CapacityEntity, is_minute, is_enabled, period_name}
use open_vm_x_ai.Capacity.Period.{Calendar}
use open_vm_x_ai.Capacity.Keys.{get_resource_key_prefix}
use open_vm_x_ai.Capacity.Resolve.{ResolvedCapacity, resolve}
use open_vm_x_ai.Capacity.Usage.{PrefixedCapacity, EvaluatedCapacity, uniq_periods, get_usage}
use open_vm_x_ai.Entities.{
  AiConnectionEntity, AiResourceEntity, AiResourceModelConfigEntity, ApiKeyEntity,
  PoolDefinitionEntity,
}
use open_vm_x_ai.Errors.{CompletionErrorData, denied_by_pool, reason}
use open_vm_x_ai.Gate.Limits.{
  GateError, completion_error, capacity_error, usage_error, prioritization_error, too_many_requests,
  check_capacities,
}
use open_vm_x_ai.Gate.Counters.{increase_all}
use open_vm_x_ai.Http.{FastifyRequest}
use open_vm_x_ai.Prioritization.Gate.{Repositories, DenyReason, get_resource_pool, gate}

-- An error of a part, as one of the gate.
abbrev pub map_err {ℓ κ μ} :
    {E : Type κ} {F : Type μ} {A : Type ℓ} → (E → F) → Result E A → Result F A
map_err f (ok a) = ok a
map_err f (err e) = err (f e)

abbrev pub prefixed : ResolvedCapacity → PrefixedCapacity
prefixed r = record { capacity = r.capacity; key_prefix = r.key_prefix }

abbrev pub gate_denied : Option DenyReason → CompletionErrorData
gate_denied why = record {
  code = some "prioritization_gate_denied";
  headers = none;
  message = denied_by_pool why;
  rate = true;
  status_code = too_many_requests;
  retryable = true;
  retry_delay = none;
  failure_reason = some (reason "Denied by prioritization gate");
}

-- `connectionCapacities.find(…)`.
unfoldable pub connection_minute_capacity : List CapacityEntity → Option CapacityEntity
connection_minute_capacity = find (λ c. is_minute c.period && is_enabled c)

-- `aiConnection.discoveredCapacity?.models[model.model]`, and its capacities.
unfoldable pub discovered_capacities :
    AiConnectionEntity → AiResourceModelConfigEntity → List CapacityEntity
discovered_capacities connection model =
    elim (lookup model.model (get_or connection.discovered_capacity [])) [
      | none ↦ []
      | some entry ↦ entry.capacity
    ]

-- `capacity.map((capacity) => ({ period, keyPrefix: getResourceKeyPrefix(…) }))`.
abbrev pub with_prefix : String → List CapacityEntity → List EvaluatedCapacity
with_prefix prefix = map (λ c. record { period = period_name c.period; key_prefix = prefix })

-- The counters that a request uses: those of its limits, and those of the discovered and the
-- batch capacity.
unfoldable pub counted_capacities :
    String
    → String
    → AiResourceEntity
    → AiResourceModelConfigEntity
    → AiConnectionEntity
    → Option (List CapacityEntity)
    → List ResolvedCapacity
    → List EvaluatedCapacity
counted_capacities workspace_id environment_id resource model connection batch_capacity enabled =
    let prefix =
      get_resource_key_prefix workspace_id environment_id resource.resource_id
        connection.connection_id in
    uniq_periods (map prefixed enabled)
    ++ (with_prefix prefix (discovered_capacities connection model)
        ++ with_prefix prefix (get_or batch_capacity []))

module _ (redis : RedisClient) (cal : Calendar) (repos : Repositories) where
  open redis use {Keys}
  open repos use {S}

  -- The counters, and what the prioritization keeps.
  pub record GateState : Type 0 where
    pub keys : Keys
    pub pools : S

  -- The prioritization gate, which a request passes only if its resource is in a pool and its
  -- connection has a minute capacity.
  unfoldable pub prioritization_gate :
      Option PoolDefinitionEntity
      → List CapacityEntity
      → ℕ
      → ℕ
      → AiResourceEntity
      → AiConnectionEntity
      → S
      → Result GateError S
  prioritization_gate none capacities now request_tokens resource connection s = ok s
  prioritization_gate (some pool) capacities now request_tokens resource connection s =
      elim (get_resource_pool pool resource.resource_id) [
        | none ↦ ok s
        | some entry ↦ elim (connection_minute_capacity capacities) [
          | none ↦ ok s
          | some capacity ↦
              map_err prioritization_error
                (gate repos pool now request_tokens resource.resource_id connection s)
              >>= λ r.
                  if r.0.allowed then ok r.1 else err (completion_error (gate_denied r.0.reason))
        ]
      ]

  -- The pool definition is the one that the pool definition service finds; `batch_capacity` is
  -- `batch?.capacity`.
  unfoldable pub request_gate :
      ℕ
      → ℕ
      → String
      → String
      → AiResourceEntity
      → AiResourceModelConfigEntity
      → AiConnectionEntity
      → Option ApiKeyEntity
      → Option FastifyRequest
      → Option (List CapacityEntity)
      → Option PoolDefinitionEntity
      → GateState
      → Result GateError (List EvaluatedCapacity × GateState)
  unfolding counted_capacities
  request_gate now request_tokens workspace_id environment_id resource model connection api_key
        request batch_capacity pool s =
      do
        r ←
            map_err capacity_error
              (resolve workspace_id environment_id connection resource request api_key)
        usage ←
            map_err usage_error (get_usage redis cal s.keys now (map prefixed r.enabled_capacities))
        _ ← check_capacities usage request_tokens r.enabled_capacities
        pools ←
            prioritization_gate pool r.connection_capacities now request_tokens resource connection
              s.pools
        let capacities =
            counted_capacities workspace_id environment_id resource model connection batch_capacity
              r.enabled_capacities
        ok (
          capacities,
          record {
            keys = increase_all redis usage request_tokens capacities s.keys;
            pools = pools;
          },
        )
