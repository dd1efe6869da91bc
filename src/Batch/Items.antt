-- ===== src/Batch/Items.antt =====
-- `retrieveItems` of packages/api/src/completion/batch/batch-queue.service.ts: which items of a
-- resource a consumer gets, and whether the resource stays active.
pub mod Left
pub mod Within
mod Tests
use open_vm_x_ai.Common.{
  ℕ, ◌+◌, ◌-◌, ◌*◌, suc, min, Option, none, some, is_some, String, List, [], ◌∷◌, Result, ok, err,
  if◌then◌else◌,
}
use open_vm_x_ai.Common.Int.{ℤ, pos, negsuc}
use open_vm_x_ai.Capacity.{CapacityEntity}
use open_vm_x_ai.Capacity.Period.{Calendar}
use open_vm_x_ai.Entities.{AiConnectionEntity, AiResourceEntity}
use open_vm_x_ai.Redis.{RedisClient}
use open_vm_x_ai.Redis.Sets.{SortedSets}
use open_vm_x_ai.Batch.Keys.{
  Numerals, base_key, queue_key, processing_queue_key, global_processing_queue_key,
  standby_resources_batch_key, global_active_resources_key, active_resources_member,
}
use open_vm_x_ai.Batch.Retrieve.{LuaError, zrange_up_to, retrieve_script}
use open_vm_x_ai.Batch.Available.{
  RetrieveError, lua_error, Availability, used_up, available, availability,
}

-- The resource of a batch goes on standby for so many seconds, or it has no item left, or some items
-- are retrieved.
pub data Retrieval : Type 0 where
  on_standby : Option ℤ → Retrieval
  drained : Retrieval
  retrieved : List String → Retrieval

-- `Math.min(count, availableRequests)`.
abbrev pub max_to_retrieve : ℕ → Option ℕ → ℕ
max_to_retrieve count none = count
max_to_retrieve count (some requests) = min count requests

-- `now.getTime() + seconds * 1000`.
abbrev pub seconds_later : ℕ → ℤ → ℕ
seconds_later now (pos n) = now + n * 1000
seconds_later now (negsuc n) = now - suc n * 1000

module _ (numerals : Numerals) (sets : SortedSets) where
  open sets use {Sets, zscore, zrange, zadd, zrem}

  -- ZADD with NX: only a member that is not there.
  abbrev pub zadd_nx : Sets → String → ℕ → String → Sets
  zadd_nx s key n m = if is_some (zscore s key m) then s else zadd s key n m

  -- `moveBatchToStandby`. It is never called with Infinity: without a capacity there is no limit of
  -- tokens that could stop the script before the first item.
  unfoldable pub move_batch_to_standby : String → ℕ → Option ℤ → Sets → Sets
  move_batch_to_standby member now none s = s
  move_batch_to_standby member now (some seconds) s =
      zrem (zadd_nx s standby_resources_batch_key (seconds_later now seconds) member)
        global_active_resources_key member

  unfoldable pub index_items : ℕ → List String → Sets → Sets
  index_items due [] s = s
  index_items due (m ∷ ms) s = index_items due ms (zadd s global_processing_queue_key due m)

  -- What follows the script, by what it returns: the items retrieved, and those looked at.
  abbrev pub after_script :
      String
      → ℕ
      → ℕ
      → Option ℤ
      → List String
      → Result LuaError (List String) × Sets
      → Result RetrieveError Retrieval × Sets
  after_script member now due seconds looked_at (err e, s) = (err (lua_error e), s)
  after_script member now due seconds [] (ok [], s) =
      (ok drained, zrem s global_active_resources_key member)
  after_script member now due seconds (_ ∷ _) (ok [], s) =
      (ok (on_standby seconds), move_batch_to_standby member now seconds s)
  after_script member now due seconds looked_at (ok (m ∷ ms), s) =
      (ok (retrieved (m ∷ ms)), index_items due (m ∷ ms) s)

  module _ (main processing member : String) where
    -- From the loop over the capacities on.
    unfoldable pub retrieve_available :
        ℕ → ℕ → ℕ → Result RetrieveError Availability → Sets → Result RetrieveError Retrieval × Sets
    unfolding move_batch_to_standby index_items
    retrieve_available now due count (err e) s = (err e, s)
    retrieve_available now due count (ok (used_up seconds)) s =
        (ok (on_standby (some seconds)), move_batch_to_standby member now (some seconds) s)
    retrieve_available now due count (ok (available requests tokens seconds)) s =
        let most = max_to_retrieve count requests in
        after_script member now due seconds (zrange_up_to (zrange s main) most)
          (retrieve_script numerals sets main processing most tokens due s)

  -- `due` is the time at which the visibility of an item ends, `now + visibilityTimeout`.
  unfoldable pub retrieve_items :
      (redis : RedisClient)
      → Calendar
      → redis.Keys
      → ℕ
      → ℕ
      → ℕ
      → String
      → String
      → String
      → AiConnectionEntity
      → AiResourceEntity
      → Option (List CapacityEntity)
      → ℕ
      → Sets
      → Result RetrieveError Retrieval × Sets
  unfolding availability retrieve_available
  retrieve_items redis cal keys now week_ago due workspace_id environment_id batch_id connection
        resource batch_capacity count s =
      let base = base_key workspace_id environment_id in
      retrieve_available (queue_key base resource.resource_id)
        (processing_queue_key base resource.resource_id)
        (active_resources_member workspace_id environment_id batch_id resource.resource_id) now due
        count
        (availability redis cal now week_ago workspace_id environment_id connection resource
          batch_capacity keys)
        s
