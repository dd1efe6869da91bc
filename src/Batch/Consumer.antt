-- ===== src/Batch/Consumer.antt =====
-- packages/api/src/completion/batch/batch-queue.base-consumer.ts and batch-queue.consumer.ts: how a
-- consumer shares its slots among the resources, and what it does with an item.
pub mod Slots
pub mod Counters
mod Tests
use open_vm_x_ai.Common.{
  ℕ, zero, suc, ◌+◌, ◌-◌, ◌*◌, ◌/◌, ◌%◌, Bool, true, false, not, Option, get_or, String, List, [],
  ◌∷◌, length, min, filter, str_eq, ◌==◌, if◌then◌else◌,
}
use open_vm_x_ai.Common.Int.{ℤ, pred, add_one, is_positive}
use open_vm_x_ai.Errors.{CompletionErrorData}
use open_vm_x_ai.Redis.Sets.{SortedSets}
use open_vm_x_ai.Batch.{BatchRequestStatus, completed, failed, running, CompletionBatchItemEntity}
use open_vm_x_ai.Batch.Keys.{Numerals}
use open_vm_x_ai.Batch.Queue.{
  QueueState, is_completed, is_failed, add_if, delete_item, update_queue_processing_timestamp,
}

abbrev pub resources_per_batch : ℕ
resources_per_batch = 10

abbrev pub max_concurrent_tasks : ℕ
max_concurrent_tasks = 1000

-- `remainingSlots`, while `pendingTasksCount` is below the maximum.
abbrev pub remaining_slots : ℕ → ℕ
remaining_slots pending_tasks_count = max_concurrent_tasks - pending_tasks_count

-- How many resources are asked for.
abbrev pub resources_wanted : ℕ → ℕ
resources_wanted slots = min slots resources_per_batch

-- `slotsPerResource + (index === 0 ? remainingResourceSlots : 0)`.
abbrev pub retrieve_count : ℕ → ℕ → ℕ → ℕ
retrieve_count slots resources index =
    slots / resources + (if index == 0 then slots % resources else 0)

unfoldable pub retrieve_counts_from : ℕ → ℕ → ℕ → List String → List ℕ
retrieve_counts_from slots resources index [] = []
retrieve_counts_from slots resources index (r ∷ rs) =
    retrieve_count slots resources index ∷ retrieve_counts_from slots resources (suc index) rs

-- `oldestResources.map(…)`: what is retrieved of each resource at most.
unfoldable pub retrieve_counts : ℕ → List String → List ℕ
unfolding retrieve_counts_from
retrieve_counts slots oldest_resources =
    retrieve_counts_from slots (length oldest_resources) 0 oldest_resources

-- The columns of a batch that `incrementCounters` adds to.
pub record BatchCounters : Type 0 where
  pub pending : ℤ
  pub running : ℤ
  pub completed : ℤ
  pub failed : ℤ

-- `incrementCounters` with `{ pending: -1, running: 1 }`.
abbrev pub count_running : BatchCounters → BatchCounters
count_running c = record c { pending = pred c.pending; running = add_one c.running }

-- `incrementCounters` with what has become of an item.
abbrev pub count_finished : BatchRequestStatus → BatchCounters → BatchCounters
count_finished status c = record c {
  running = pred c.running;
  completed = add_if (is_completed status) c.completed;
  failed = add_if (is_failed status) c.failed;
}

-- How the completion of an item ends: it throws a CompletionError or something else.
pub data Outcome : Type 0 where
  succeeded : Outcome
  threw_completion_error : CompletionErrorData → Outcome
  threw : Outcome

abbrev pub with_status : BatchRequestStatus → CompletionBatchItemEntity → CompletionBatchItemEntity
with_status status item = record item { status = status }

module _ (numerals : Numerals) (sets : SortedSets) where
  -- What the consumers change for one batch: its items in Redis, its counters and its status in the
  -- database, and the tasks that are running.
  pub record ConsumerState : Type 0 where
    pub queue : QueueState numerals sets
    pub counters : BatchCounters
    pub status : BatchRequestStatus
    pub pending_tasks : List String

  -- The status that `completeBatch` sets, by the failures that are counted in Redis.
  abbrev pub final_status : QueueState numerals sets → BatchRequestStatus
  final_status q = if is_positive q.failed then failed else completed

  abbrev complete_batch : Bool → ConsumerState → ConsumerState
  complete_batch is_last x = record x {
    status = if is_last then final_status x.queue else x.status;
  }

  -- `finishItem`, for an item with its last status.
  unfoldable pub finish_item : CompletionBatchItemEntity → ConsumerState → ConsumerState
  finish_item item x =
      let deleted = delete_item numerals sets item x.queue in
      let after = complete_batch deleted.0 (record x { queue = deleted.1 }) in
      record after { counters = count_finished item.status after.counters }

  -- `processItem` up to the completion: an item that is tried for the first time is counted.
  unfoldable pub process_item : ℕ → ConsumerState → ConsumerState
  process_item zero x = record x { counters = count_running x.counters }
  process_item (suc retry_count) x = x

  -- The rest of `processItemHandler`, by how the completion ends. An error that is none of its own
  -- leaves the item in the processing queue.
  unfoldable pub handle_outcome :
      ℕ → CompletionBatchItemEntity → Outcome → ConsumerState → ConsumerState
  unfolding finish_item
  handle_outcome now item succeeded x = finish_item (with_status completed item) x
  handle_outcome now item (threw_completion_error e) x =
      let failed_item = with_status failed item in
      if e.retryable
      then record x {
        queue =
            update_queue_processing_timestamp numerals sets now (get_or e.retry_delay 0) failed_item
              x.queue;
      }
      else finish_item failed_item x
  handle_outcome now item threw x = x

  -- `delete this.pendingTasks[itemId]`.
  abbrev pub end_task : CompletionBatchItemEntity → ConsumerState → ConsumerState
  end_task item x = record x {
    pending_tasks = filter (λ id. not (str_eq id item.item_id)) x.pending_tasks;
  }

  unfoldable pub process_item_handler :
      ℕ → ℕ → CompletionBatchItemEntity → Outcome → ConsumerState → ConsumerState
  unfolding process_item handle_outcome
  process_item_handler now retry_count item outcome x =
      end_task item (handle_outcome now item outcome (process_item retry_count x))
