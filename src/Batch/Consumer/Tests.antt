-- ===== src/Batch/Consumer/Tests.antt =====
-- A consumer with two items of a batch.
use open_vm_x_ai.Common.{◌≡◌, refl, false, none, [], ◌∷◌}
use open_vm_x_ai.Common.Int.{pos}
use open_vm_x_ai.Errors.{CompletionErrorData, denied_by_pool}
use open_vm_x_ai.Redis.Sets.{memory_sets}
use open_vm_x_ai.Batch.{pending, failed}
use open_vm_x_ai.Batch.Consumer.{
  ConsumerState, succeeded, threw_completion_error, process_item_handler,
}
use open_vm_x_ai.Batch.Consumer.Counters.{
  total, process_item_handler-total, handle_all, handle_all-final_status,
}
use open_vm_x_ai.Batch.Tests.{unary, first_item}

abbrev refused : CompletionErrorData
refused = record {
  code = none;
  headers = none;
  message = denied_by_pool none;
  rate = false;
  status_code = 400;
  retryable = false;
  retry_delay = none;
  failure_reason = none;
}

abbrev two_pending : ConsumerState unary memory_sets
two_pending = record {
  queue = record {
    stored = λ k. [];
    payloads = λ k. none;
    pending = pos 2;
    completed = pos 0;
    failed = pos 0;
  };
  counters = record { pending = pos 2; running = pos 0; completed = pos 0; failed = pos 0 };
  status = pending;
  pending_tasks = "i" ∷ [];
}

process_item_handler-total_example :
    total
      (process_item_handler unary memory_sets 5 0 first_item
        (threw_completion_error refused)
        two_pending).counters
    ≡ total two_pending.counters
process_item_handler-total_example =
    process_item_handler-total unary memory_sets 5 0 first_item (threw_completion_error refused)
      two_pending

handle_all-final_status_example :
    (handle_all unary memory_sets 5
      ((first_item, threw_completion_error refused) ∷ (first_item, succeeded) ∷ [])
      two_pending).status
    ≡ failed
handle_all-final_status_example =
    handle_all-final_status unary memory_sets 5 (first_item, threw_completion_error refused)
      ((first_item, succeeded) ∷ []) two_pending (refl, (refl, tt)) refl refl
