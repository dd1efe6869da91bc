-- ===== src/Batch/Machine.antt =====
-- The queue of one resource as a state machine: the operations of
-- packages/api/src/completion/batch/batch-queue.service.ts in any order, by any number of consumers.
-- A consumer retrieves items in one command and writes them into the global processing queue in the
-- next; the loop that reprocesses items takes them out of it in one command and puts them back into
-- the queue in the next. A resource of a batch is marked as active in a command after the one that
-- puts an item into the queue, and the mark is removed in a command after a retrieval that found
-- nothing; these commands may lie between any others. What lies between is held in memory only, and is gone after a crash.
-- The three transactions that finish an item are taken as one step, and the items of one ZADD are
-- indexed one by one. The script is taken where it returns: it fails only at a member that shows no
-- tokens, which no item's member is.
pub mod Placed
pub mod Payloads
pub mod Keep
pub mod Handled
pub mod Taken
pub mod Strand
use Prim.Native.String.{String}
use open_vm_x_ai.Common.{
  ℕ, ◌≡◌, ◌≢◌, Bool, true, false, not, ◌||◌, Option, none, some, is_some, List, [], ◌∷◌, ◌++◌, ok,
  filter, includes, str_eq,
}
use open_vm_x_ai.Redis.Sets.{SortedSets}
use open_vm_x_ai.Batch.{CompletionBatchItemEntity}
use open_vm_x_ai.Batch.Keys.{
  Numerals, base_key, queue_key, processing_queue_key, global_processing_queue_key, item_member_id,
}
use open_vm_x_ai.Batch.Members.{HasParts}
use open_vm_x_ai.Batch.Retrieve.{retrieve_script}
use open_vm_x_ai.Batch.Queue.{
  QueueState, send_item, take_expired, reprocess_item, index_item, delete_item,
  update_queue_processing_timestamp, timestamp_of, payload_key_of,
}

abbrev pub without : String → List String → List String
without m ms = filter (λ x. not (str_eq x m)) ms

module _ (numerals : Numerals) (sets : SortedSets) where
  open sets use {zscore}

  -- The items that were sent and not finished, those retrieved and not yet in the global processing
  -- queue, and those taken out of it and not yet put back; the members of the set of active resources
  -- (one for each batch), and those to be removed from it since a retrieval for them found nothing.
  pub record Machine : Type 0 where
    pub queue : QueueState numerals sets
    pub live : List String
    pub held : List String
    pub taken : List String
    pub active : List String
    pub drained : List String

  abbrev pub drained_by : List String → String → List String → List String
  drained_by [] member drained = member ∷ drained
  drained_by (_ ∷ _) member drained = drained

  -- The items that are sent to the resource: `known` says which.
  module _ (workspace_id environment_id resource_id : String)
      (known : CompletionBatchItemEntity → Type 0) where
    abbrev pub main : String
    main = queue_key (base_key workspace_id environment_id) resource_id

    abbrev pub processing : String
    processing = processing_queue_key (base_key workspace_id environment_id) resource_id

    -- An item of the resource.
    pub record IsItem (item : CompletionBatchItemEntity) : Type 0 where
      pub of_workspace : item.workspace_id ≡ workspace_id
      pub of_environment : item.environment_id ≡ environment_id
      pub of_resource : item.resource_id ≡ resource_id
      pub parts : HasParts numerals item
      pub is_known : known item

    abbrev pub id_of : CompletionBatchItemEntity → String
    id_of item = item_member_id numerals item

    -- One command of a consumer or of a loop, or a crash.
    pub data Step : Machine → Machine → Type 0 where
      send :
          (item : CompletionBatchItemEntity) (x : Machine)
          → IsItem item
          → Step x (record x {
            queue = send_item numerals sets item x.queue;
            live = id_of item ∷ x.live;
          })
      retrieve :
          (max_to_retrieve : ℕ) (max_tokens : Option ℕ) (due : ℕ) (items : List String)
          (stored : sets.Sets) (member : String) (x : Machine)
          → retrieve_script numerals sets main processing max_to_retrieve max_tokens due
              x.queue.stored
            ≡ (ok items, stored)
          → Step x (record x {
            queue = record (x.queue) { stored = stored };
            held = items ++ x.held;
            drained = drained_by items member x.drained;
          })
      activate : (member : String) (x : Machine) → Step x (record x { active = member ∷ x.active })
      deactivate :
          (member : String) (x : Machine)
          → includes x.drained member ≡ true
          → Step x
              (record x { active = without member x.active; drained = without member x.drained })
      index :
          (due : ℕ) (m : String) (x : Machine)
          → includes x.held m ≡ true
          → Step x
              (record x { queue = index_item numerals sets due m x.queue; held = without m x.held })
      expire :
          (limit now : ℕ) (items : List String) (queue : QueueState numerals sets) (x : Machine)
          → take_expired numerals sets limit now x.queue ≡ (items, queue)
          → Step x (record x { queue = queue; taken = items ++ x.taken })
      put_back :
          (item : CompletionBatchItemEntity) (x : Machine)
          → IsItem item
          → includes x.taken (id_of item) ≡ true
          → Step x (record x {
            queue = reprocess_item numerals sets (id_of item) x.queue;
            taken = without (id_of item) x.taken;
          })
      postpone :
          (now delay : ℕ) (item : CompletionBatchItemEntity) (x : Machine)
          → IsItem item
          → Step x (record x {
            queue = update_queue_processing_timestamp numerals sets now delay item x.queue;
          })
      finish :
          (item : CompletionBatchItemEntity) (x : Machine)
          → IsItem item
          → Step x (record x {
            queue = (delete_item numerals sets item x.queue).1;
            live = without (id_of item) x.live;
          })
      crash : (x : Machine) → Step x (record x { held = []; taken = []; drained = [] })

    pub data Reach (x : Machine) : Machine → Type 0 where
      here : Reach x x
      next : {y z : Machine} → Reach x y → Step y z → Reach x z

    abbrev pub is_in : String → String → Machine → Bool
    is_in key m x = is_some (zscore x.queue.stored key m)

    -- An item that is not finished is in the queue or in the processing queue.
    abbrev pub IsKept : Machine → Type 0
    IsKept x =
        (m : String) → includes x.live m ≡ true → (is_in main m x || is_in processing m x) ≡ true

    -- The hash of an item that is not finished has its timestamp.
    abbrev pub HasTimestamps : Machine → Type 0
    HasTimestamps x =
        (item : CompletionBatchItemEntity)
        → IsItem item
        → includes x.live (id_of item) ≡ true
        → is_some (timestamp_of (x.queue.payloads (payload_key_of item))) ≡ true

    -- Items with the same ids are the same.
    abbrev pub AreDistinct : Type 0
    AreDistinct =
        (a b : CompletionBatchItemEntity)
        → IsItem a
        → IsItem b
        → payload_key_of a ≡ payload_key_of b
        → id_of a ≡ id_of b
