-- ===== src/Entities.antt =====
-- The entities that requests carry through the API: connections, resources, API keys, pool
-- definitions and model configurations (packages/api/src, the *.entity.ts files).
-- Fields that no modelled code reads are left out.
use open_vm_x_ai.Common.{ℕ, Bool, Option, String, List}
use open_vm_x_ai.Capacity.{CapacityEntity, DiscoveredCapacityEntry}

pub record AiResourceModelConfigEntity : Type 0 where
  pub provider : String
  pub model : String
  pub connection_id : String

pub record AiConnectionEntity : Type 0 where
  pub connection_id : String
  pub provider : String
  pub capacity : Option (List CapacityEntity)
  -- `discoveredCapacity.models`: an entry for each model.
  pub discovered_capacity : Option (List (String × DiscoveredCapacityEntry))

-- A number of JavaScript, by the 64 bits of its IEEE 754 double.
pub record Number : Type 0 where
  pub bits : ℕ

pub record PoolDefinitionEntry : Type 0 where
  pub name : String
  pub min_reservation : Number
  pub max_reservation : Number
  pub resources : List String

pub record PoolDefinitionEntity : Type 0 where
  pub definition : List PoolDefinitionEntry

pub record AiResourceEntity : Type 0 where
  pub resource_id : String
  pub model : AiResourceModelConfigEntity
  pub fallback_models : Option (List AiResourceModelConfigEntity)
  pub secondary_models : Option (List AiResourceModelConfigEntity)
  -- `routing?.enabled` as a condition.
  pub routing_enabled : Bool
  pub capacity : Option (List CapacityEntity)
  pub enforce_capacity : Bool

pub record ApiKeyEntity : Type 0 where
  pub api_key_id : String
  pub capacity : Option (List CapacityEntity)
  pub enforce_capacity : Bool
