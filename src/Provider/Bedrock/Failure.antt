-- ===== src/Provider/Bedrock/Failure.antt =====
-- `handleError` of packages/api/src/ai-provider/providers/aws-bedrock.provider.ts.
use open_vm_x_ai.Common.{ℕ, Bool, true, false, Option, none, some, get_or, String, [], ◌∷◌}
use Prim.Native.String.{◌++◌}
use open_vm_x_ai.Errors.{CompletionErrorData, CompletionHeaders, text, reason}

pub data ExceptionKind : Type 0 where
  internal_server service_unavailable model_stream validation throttling : ExceptionKind

-- What the client throws: an exception of the service, with `$retryable?.throttling` and the id of
-- the request; another `Error`; or anything else.
pub data BedrockError : Type 0 where
  exception :
      ExceptionKind
      → (message : String) (retryable : Option Bool) (request_id : Option String) → BedrockError
  other_error : String → BedrockError
  not_an_error : BedrockError

abbrev pub request_id_header : Option String → CompletionHeaders
request_id_header none = []
request_id_header (some id) = ("x-request-id", id) ∷ []

abbrev service_failure : Bool → String → String → ℕ → String → Option String → CompletionErrorData
service_failure retryable message code status why request_id = record {
  code = some code;
  headers = some (request_id_header request_id);
  message = text message;
  rate = retryable;
  status_code = status;
  retryable = retryable;
  retry_delay = none;
  failure_reason = some (reason why);
}

abbrev unknown_failure : String → String → CompletionErrorData
unknown_failure message why = record {
  code = some "unknown_error";
  headers = none;
  message = text message;
  rate = false;
  status_code = 500;
  retryable = false;
  retry_delay = none;
  failure_reason = some (reason why);
}

unfoldable pub handle_error : BedrockError → CompletionErrorData
handle_error (exception internal_server message retryable id) =
    service_failure (get_or retryable false)
      ("AWS Bedrock API returned an internal server error: " ++ message)
      "aws_bedrock_internal_server_error" 500 "Internal server error" id
handle_error (exception service_unavailable message retryable id) =
    service_failure (get_or retryable false)
      ("AWS Bedrock API returned a service unavailable error: " ++ message)
      "aws_bedrock_service_unavailable_error" 503 "Service unavailable" id
handle_error (exception model_stream message retryable id) =
    service_failure (get_or retryable false)
      ("AWS Bedrock API returned a model stream error: " ++ message)
      "aws_bedrock_model_stream_error" 500 "Model stream error" id
handle_error (exception validation message retryable id) =
    service_failure (get_or retryable false)
      ("AWS Bedrock API returned a validation error: " ++ message) "aws_bedrock_validation_error"
      400 "Validation error" id
handle_error (exception throttling message retryable id) =
    service_failure true ("AWS Bedrock API returned a throttling error: " ++ message)
      "aws_bedrock_throttling_error" 429 "Throttling error" id
handle_error (other_error message) = unknown_failure message "External API error"
handle_error not_an_error = unknown_failure "Unknown error" "Unknown error"
