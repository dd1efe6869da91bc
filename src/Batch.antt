-- ===== src/Batch.antt =====
-- packages/api/src/completion/batch: the queues of the items of a batch, and their consumer.
-- This file has the entities that the queues and the consumer read.
pub mod Keys
pub mod Members
pub mod Retrieve
pub mod Queue
pub mod Machine
pub mod Available
pub mod Items
pub mod Consumer
pub mod Tests
use open_vm_x_ai.Common.{ℕ, Bool, Option, String, List}
use open_vm_x_ai.Capacity.{CapacityEntity}

-- PublicCompletionBatchRequestStatus.
pub data BatchRequestStatus : Type 0 where
  cancelled completed failed pending running : BatchRequestStatus

pub record CompletionBatchItemEntity : Type 0 where
  pub workspace_id : String
  pub environment_id : String
  pub batch_id : String
  pub item_id : String
  pub resource_id : String
  pub status : BatchRequestStatus
  -- `createdAt`, in milliseconds.
  pub created_at : ℕ
  pub estimated_prompt_tokens : ℕ
