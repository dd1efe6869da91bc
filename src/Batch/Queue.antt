-- ===== src/Batch/Queue.antt =====
-- The operations of packages/api/src/completion/batch/batch-queue.service.ts on the items of a batch.
use Prim.Native.String.{String}
use open_vm_x_ai.Common.{
  ℕ, suc, ◌+◌, Bool, true, false, Option, none, some, get_or, is_some, List, [], ◌∷◌, filter, take,
  leb, get_elem?, str_eq, if◌then◌else◌,
}
use open_vm_x_ai.Common.Int.{ℤ, pred, add_one, is_zero}
use open_vm_x_ai.Redis.Sets.{SortedSets}
use open_vm_x_ai.Batch.{BatchRequestStatus, completed, failed, CompletionBatchItemEntity}
use open_vm_x_ai.Batch.Keys.{
  Numerals, base_key, queue_key, processing_queue_key, queue_item_payload_key,
  global_processing_queue_key, split_bar, item_member_id,
}

-- The hash of an item: `timestamp` is missing if the hash was made by a retry alone.
pub record ItemPayload : Type 0 where
  pub timestamp : Option ℕ
  pub retry_count : ℕ

abbrev pub queue_of : CompletionBatchItemEntity → String
queue_of item = queue_key (base_key item.workspace_id item.environment_id) item.resource_id

abbrev pub processing_queue_of : CompletionBatchItemEntity → String
processing_queue_of item =
    processing_queue_key (base_key item.workspace_id item.environment_id) item.resource_id

abbrev pub payload_key_of : CompletionBatchItemEntity → String
payload_key_of item =
    queue_item_payload_key item.workspace_id item.environment_id item.batch_id item.item_id
      item.resource_id

abbrev pub is_completed : BatchRequestStatus → Bool
is_completed completed = true
is_completed _ = false

abbrev pub is_failed : BatchRequestStatus → Bool
is_failed failed = true
is_failed _ = false

-- A part of `item.split('|')`, which is `undefined` if there are not so many.
abbrev pub part : String → ℕ → String
part member i = get_or (get_elem? (split_bar member) i) "undefined"

abbrev pub base_key_of_member : String → String
base_key_of_member member = base_key (part member 0) (part member 1)

abbrev pub queue_of_member : String → String
queue_of_member member = queue_key (base_key_of_member member) (part member 4)

abbrev pub processing_queue_of_member : String → String
processing_queue_of_member member = processing_queue_key (base_key_of_member member) (part member 4)

abbrev pub payload_key_of_member : String → String
payload_key_of_member member =
    queue_item_payload_key (part member 0) (part member 1) (part member 2) (part member 3)
      (part member 4)

abbrev pub set_hash {ℓ} : {A : Type ℓ} → String → A → (String → A) → String → A
set_hash k v hashes j = if str_eq k j then v else hashes j

abbrev pub timestamp_of : Option ItemPayload → Option ℕ
timestamp_of none = none
timestamp_of (some p) = p.timestamp

abbrev pub count_retry : Option ItemPayload → ItemPayload
count_retry none = record { timestamp = none; retry_count = 1 }
count_retry (some p) = record p { retry_count = suc p.retry_count }

abbrev pub add_if : Bool → ℤ → ℤ
add_if b z = if b then add_one z else z

module _ (numerals : Numerals) (sets : SortedSets) where
  open sets use {Sets, zscore, zrange, zadd, zrem}

  -- What Redis holds for one batch: the sorted sets, the hashes of items by their key, and the counts
  -- in the hash of the batch.
  pub record QueueState : Type 0 where
    pub stored : Sets
    pub payloads : String → Option ItemPayload
    pub pending : ℤ
    pub completed : ℤ
    pub failed : ℤ

  -- The transaction of `sendBatch` for one item.
  unfoldable pub send_item : CompletionBatchItemEntity → QueueState → QueueState
  send_item item q = record q {
    stored = zadd q.stored (queue_of item) item.created_at (item_member_id numerals item);
    payloads =
        set_hash (payload_key_of item)
          (some (record { timestamp = some item.created_at; retry_count = 0 })) q.payloads;
  }

  abbrev pub is_due : Sets → ℕ → String → Bool
  is_due s now member = leb (get_or (zscore s global_processing_queue_key member) 0) now

  unfoldable pub remove_all : String → List String → Sets → Sets
  remove_all key [] s = s
  remove_all key (m ∷ ms) s = remove_all key ms (zrem s key m)

  abbrev pub expired : ℕ → ℕ → Sets → List String
  expired limit now s = take limit (filter (is_due s now) (zrange s global_processing_queue_key))

  -- The script of `reprocessLoop`: ZRANGEBYSCORE up to now with a limit, and a ZREM of each.
  unfoldable pub take_expired : ℕ → ℕ → QueueState → List String × QueueState
  unfolding remove_all
  take_expired limit now q =
      let items = expired limit now q.stored in
      (items, record q { stored = remove_all global_processing_queue_key items q.stored })

  -- ZADD with the timestamp of the hash; without one the command fails and adds nothing.
  abbrev pub zadd_timestamp : Option ℕ → String → String → Sets → Sets
  zadd_timestamp none key member s = s
  zadd_timestamp (some t) key member s = zadd s key t member

  -- The transaction of `reprocessLoop` for one item that was taken.
  unfoldable pub reprocess_item : String → QueueState → QueueState
  reprocess_item member q =
      let payload = q.payloads (payload_key_of_member member) in
      record q {
        stored =
            zadd_timestamp (timestamp_of payload) (queue_of_member member) member
              (zrem q.stored (processing_queue_of_member member) member);
        payloads = set_hash (payload_key_of_member member) (some (count_retry payload)) q.payloads;
      }

  -- The entry of a retrieved item in the global processing queue.
  unfoldable pub index_item : ℕ → String → QueueState → QueueState
  index_item due member q = record q {
    stored = zadd q.stored global_processing_queue_key due member;
  }

  -- `deleteItem`: whether no item of the batch is pending any more.
  unfoldable pub delete_item : CompletionBatchItemEntity → QueueState → Bool × QueueState
  delete_item item q =
      let member = item_member_id numerals item in
      let pending = pred q.pending in
      (
        is_zero pending,
        record {
          stored =
              zrem (zrem q.stored (processing_queue_of item) member) global_processing_queue_key
                member;
          payloads = set_hash (payload_key_of item) none q.payloads;
          pending = pending;
          completed = add_if (is_completed item.status) q.completed;
          failed = add_if (is_failed item.status) q.failed;
        },
      )

  -- ZADD with XX: only a member that is there.
  abbrev pub zadd_xx : Sets → String → ℕ → String → Sets
  zadd_xx s key n member = if is_some (zscore s key member) then zadd s key n member else s

  -- `updateQueueProcessingTimestamp`, at the time `now`.
  unfoldable pub update_queue_processing_timestamp :
      ℕ → ℕ → CompletionBatchItemEntity → QueueState → QueueState
  update_queue_processing_timestamp now delay item q =
      let member = item_member_id numerals item in
      let later = zadd_xx q.stored (processing_queue_of item) (now + delay) member in
      record q { stored = zadd_xx later global_processing_queue_key (now + delay) member }
