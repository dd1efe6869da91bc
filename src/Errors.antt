-- ===== src/Errors.antt =====
-- packages/api/src/completion/completion.types.ts: the error that a completion ends with.
-- A message that shows numbers is kept as what it shows.
use open_vm_x_ai.Common.{ℕ, Bool, Option, String, List}
use open_vm_x_ai.Capacity.{CapacityPeriod}
use open_vm_x_ai.Capacity.Resolve.{CapacitySource}
use open_vm_x_ai.Prioritization.Gate.{DenyReason}

-- `prefixMessage`: whose limit it is.
pub data LimitOwner : Type 0 where
  resource : LimitOwner
  source_ip : String → LimitOwner

pub data Message : Type 0 where
  text : String → Message
  limit_of_requests limit_of_tokens :
      (owner : LimitOwner) (limit : Option ℕ) (source : CapacitySource) (period : CapacityPeriod)
      → Message
  denied_by_pool : Option DenyReason → Message
  image_fetch_error : (url : String) (message part : ℕ) → Message

pub data FailureReason : Type 0 where
  reason : String → FailureReason
  reached_limit_of_requests reached_limit_of_tokens : CapacitySource → FailureReason

abbrev pub CompletionHeaders : Type 0
CompletionHeaders = List (String × String)

pub record CompletionErrorData : Type 0 where
  pub code : Option String
  pub headers : Option CompletionHeaders
  pub message : Message
  pub rate : Bool
  pub status_code : ℕ
  pub retryable : Bool
  pub retry_delay : Option ℕ
  pub failure_reason : Option FailureReason
