-- ===== src/Completion/Records.antt =====
-- What packages/api/src/completion/completion.service.ts throws and records: errors, audit events,
-- and the entries pushed to the usage, metrics and audit services. Times, durations and ids that
-- are only copied from the request are left out.
use open_vm_x_ai.Common.{ℕ, Bool, Option, none, get_or, String, List}
use open_vm_x_ai.Entities.{AiResourceModelConfigEntity}
use open_vm_x_ai.Errors.{
  CompletionErrorData, CompletionHeaders, Message, text, FailureReason, reason,
}

-- Something thrown: a `CompletionError`, another `Error` by its message, or anything else.
-- A service error (`throwServiceError`) is an `Error`.
pub data Thrown : Type 0 where
  completion_error : CompletionErrorData → Thrown
  plain_error : String → Thrown
  not_an_error : Thrown

pub record ProviderError : Type 0 where
  pub failure_reason : FailureReason
  pub status_code : ℕ
  pub error_message : Message
  pub headers : Option CompletionHeaders

abbrev pub internal_server_error : String
internal_server_error = "Internal server error"

-- `parseProviderError`.
unfoldable pub parse_provider_error : Thrown → ProviderError
parse_provider_error (completion_error d) = record {
  failure_reason = get_or d.failure_reason (reason internal_server_error);
  status_code = d.status_code;
  error_message = d.message;
  headers = d.headers;
}
parse_provider_error (plain_error message) = record {
  failure_reason = reason internal_server_error;
  status_code = 500;
  error_message = text message;
  headers = none;
}
parse_provider_error not_an_error = record {
  failure_reason = reason internal_server_error;
  status_code = 500;
  error_message = text internal_server_error;
  headers = none;
}

-- The audit events of a request.
pub data AuditEvent : Type 0 where
  routing : (original routed : AiResourceModelConfigEntity) → AuditEvent
  fallback : (model : AiResourceModelConfigEntity) (why : ProviderError) → AuditEvent

pub record CompletionUsage : Type 0 where
  pub prompt_tokens : ℕ
  pub completion_tokens : Option ℕ
  pub total_tokens : ℕ

pub record CompletionResponse : Type 0 where
  pub id : String
  pub usage : Option CompletionUsage
  pub headers : CompletionHeaders

pub record UsageEntry : Type 0 where
  pub resource_id : Option String
  pub model : Option AiResourceModelConfigEntity
  pub status_code : ℕ
  pub error : Bool
  pub failure_reason : Option FailureReason
  pub usage : Option CompletionUsage

pub record MetricsEntry : Type 0 where
  pub resource_id : String
  pub model : AiResourceModelConfigEntity
  pub status_code : ℕ

pub record AuditEntry : Type 0 where
  pub resource_id : Option String
  pub model : Option AiResourceModelConfigEntity
  pub status_code : ℕ
  pub events : List AuditEvent
  pub response : Option CompletionResponse
  pub response_headers : Option CompletionHeaders
  pub error_message : Option Message
  pub failure_reason : Option FailureReason

-- What was pushed so far, the latest first, and the audit events in their order.
pub record Recorded : Type 0 where
  pub usage : List UsageEntry
  pub metrics : List MetricsEntry
  pub audit : List AuditEntry
  pub events : List AuditEvent
