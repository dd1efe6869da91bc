-- ===== src/Capacity/Resolve.antt =====
-- `resolve` of packages/api/src/capacity/capacity.service.ts: which capacities limit a request.
use open_vm_x_ai.Common.{
  ◌≡◌, refl, Bool, Option, none, some, get_or, String, List, [], ◌∷◌, ◌++◌, map, filter, Result, ok,
  ◌>>=◌, if◌then◌else◌,
}
use open_vm_x_ai.Capacity.{CapacityEntity, is_enabled}
use open_vm_x_ai.Capacity.Keys.{
  KeyPrefix, CapacityError, get_resource_key_prefix, usage_prefix, key_prefix_for,
  resolve_capacity_key_prefix, resolve_capacity_key_prefix-ok,
}
use open_vm_x_ai.Entities.{AiConnectionEntity, AiResourceEntity, ApiKeyEntity}
use open_vm_x_ai.Http.{FastifyRequest}

-- Where a capacity comes from, as the messages name it.
pub data CapacitySource : Type 0 where
  ai_connection ai_resource api_key : CapacitySource

pub record ResolvedCapacity : Type 0 where
  pub capacity : CapacityEntity
  pub key_prefix : String
  pub source : CapacitySource
  pub dimension_value : Option String

pub record Resolution : Type 0 where
  pub enabled_capacities : List ResolvedCapacity
  pub connection_capacities : List CapacityEntity

-- `{ ...keyPrefixAttributes, capacity, source }`.
abbrev pub resolved : CapacitySource → CapacityEntity → KeyPrefix → ResolvedCapacity
resolved source capacity prefix = record {
  capacity = capacity;
  key_prefix = prefix.key_prefix;
  source = source;
  dimension_value = prefix.dimension_value;
}

-- `capacities.map((capacity) => …)` for one source.
unfoldable pub resolve_each :
    CapacitySource
    → String
    → Option FastifyRequest
    → List CapacityEntity
    → Result CapacityError (List ResolvedCapacity)
resolve_each source base request [] = ok []
resolve_each source base request (c ∷ cs) = do
  prefix ← resolve_capacity_key_prefix c base request
  rest ← resolve_each source base request cs
  ok (resolved source c prefix ∷ rest)

-- `aiConnection.capacity?.filter((u) => u.enabled) ?? []`.
unfoldable pub connection_capacities_of : AiConnectionEntity → List CapacityEntity
connection_capacities_of connection = filter is_enabled (get_or connection.capacity [])

-- `resource.enforceCapacity && resource.capacity ? resource.capacity : []`.
unfoldable pub enforced : Bool → Option (List CapacityEntity) → List CapacityEntity
enforced enforce capacity = if enforce then get_or capacity [] else []

abbrev pub api_key_capacities : Option ApiKeyEntity → List CapacityEntity
api_key_capacities none = []
api_key_capacities (some k) = enforced k.enforce_capacity k.capacity

unfoldable pub resolve :
    String
    → String
    → AiConnectionEntity
    → AiResourceEntity
    → Option FastifyRequest
    → Option ApiKeyEntity
    → Result CapacityError Resolution
unfolding resolve_each connection_capacities_of enforced
resolve workspace_id environment_id connection resource request api_key_entity = do
  let base = usage_prefix (
      get_resource_key_prefix workspace_id environment_id resource.resource_id
        connection.connection_id)
  let connection_capacities = connection_capacities_of connection
  of_connection ← resolve_each ai_connection base request connection_capacities
  of_resource ←
      resolve_each ai_resource base request (enforced resource.enforce_capacity resource.capacity)
  of_api_key ← resolve_each api_key base request (api_key_capacities api_key_entity)
  ok (record {
    enabled_capacities =
        filter (λ r. is_enabled r.capacity) (of_connection ++ (of_resource ++ of_api_key));
    connection_capacities = connection_capacities;
  })

-- The capacities of one source with their keys, which need no check.
abbrev pub keyed :
    CapacitySource → String → Option FastifyRequest → List CapacityEntity → List ResolvedCapacity
keyed source base request = map (λ c. resolved source c (key_prefix_for c.dimension base request))

resolve_each-ok :
    (source : CapacitySource) (prefix : String) (request : Option FastifyRequest)
    (cs : List CapacityEntity)
    → resolve_each source (usage_prefix prefix) request cs
      ≡ ok (keyed source (usage_prefix prefix) request cs)
unfolding resolve_each
resolve_each-ok source prefix request [] = refl
resolve_each-ok source prefix request (c ∷ cs) =
    rw (resolve_capacity_key_prefix-ok c prefix request, resolve_each-ok source prefix request cs)
      refl

-- The capacities of a request never fail to resolve. They are the enabled ones among, in this order,
-- those of the connection, those of the resource if it enforces its capacity, and those of the API
-- key if there is one and it enforces its capacity, each under the key of its dimension.
pub resolve_lem :
    (workspace_id environment_id : String) (connection : AiConnectionEntity)
    (resource : AiResourceEntity) (request : Option FastifyRequest) (k : Option ApiKeyEntity)
    → let base = usage_prefix (
        get_resource_key_prefix workspace_id environment_id resource.resource_id
          connection.connection_id) in
      resolve workspace_id environment_id connection resource request k
      ≡ ok (record {
        enabled_capacities =
            filter
              (λ r. is_enabled r.capacity)
              (keyed ai_connection base request (connection_capacities_of connection)
                ++ (keyed ai_resource base request
                      (enforced resource.enforce_capacity resource.capacity)
                    ++ keyed api_key base request (api_key_capacities k)));
        connection_capacities = connection_capacities_of connection;
      })
unfolding resolve
resolve_lem workspace_id environment_id connection resource request k =
    let prefix =
      get_resource_key_prefix workspace_id environment_id resource.resource_id
        connection.connection_id in
    rw
      (
        resolve_each-ok ai_connection prefix request (connection_capacities_of connection),
        resolve_each-ok ai_resource prefix request
            (enforced resource.enforce_capacity resource.capacity),
        resolve_each-ok api_key prefix request (api_key_capacities k),
      )
      refl
