-- ===== src/Gate/Limits.antt =====
-- `checkRequestCapacity` of packages/api/src/completion/gate.service.ts, and the loop that calls it.
use open_vm_x_ai.Common.{
  ℕ, ◌+◌, ◌*◌, Bool, true, false, ◌&&◌, Option, none, some, get_or, String, List, ◌∷◌, Result, ok,
  err, ◌>>=◌, or_throw, ltb, str_eq, if◌then◌else◌, lookup,
}
use open_vm_x_ai.Common
use open_vm_x_ai.Common.Int.{ℤ, is_positive, pos_part}
use open_vm_x_ai.Capacity.{
  CapacityEntity, CapacityDimension, period_name, requests_or_zero, tokens_or_zero,
}
use open_vm_x_ai.Capacity
use open_vm_x_ai.Capacity.Keys.{CapacityError}
use open_vm_x_ai.Capacity.Resolve.{CapacitySource, ResolvedCapacity}
use open_vm_x_ai.Capacity.Usage.{UsageMetric, UsageError}
use open_vm_x_ai.Errors.{
  LimitOwner, resource, source_ip, Message, limit_of_requests, limit_of_tokens, FailureReason,
  reached_limit_of_requests, reached_limit_of_tokens, CompletionErrorData,
}
use open_vm_x_ai.Prioritization.Scaling.{PrioritizationError}

-- What `requestGate` may throw: `type_error` is the read of a property of `undefined`.
pub data GateError : Type 0 where
  completion_error : CompletionErrorData → GateError
  type_error : GateError
  capacity_error : CapacityError → GateError
  usage_error : UsageError → GateError
  prioritization_error : PrioritizationError → GateError

abbrev pub too_many_requests : ℕ
too_many_requests = 429

-- `if (capacity.dimension && capacityDimensionValue) switch (capacity.dimension) …`.
unfoldable pub limit_owner : Option CapacityDimension → Option String → LimitOwner
limit_owner (some Capacity.source_ip) (some value) =
    if str_eq value "" then resource else source_ip value
limit_owner _ _ = resource

-- `remainingSeconds > 0 ? remainingSeconds * 1000 : undefined`.
unfoldable pub retry_delay_of : ℤ → Option ℕ
retry_delay_of left = if is_positive left then some (pos_part left * 1000) else none

abbrev pub limit_error : Message → FailureReason → ℤ → CompletionErrorData
limit_error message why left = record {
  code = some "resource_exhausted";
  headers = none;
  message = message;
  rate = true;
  status_code = too_many_requests;
  retryable = true;
  retry_delay = retry_delay_of left;
  failure_reason = some why;
}

-- `capacityRequests > 0 && totalRequests > capacityRequests`, and the same of the tokens.
abbrev pub is_over : ℕ → ℕ → Bool
is_over limit used = ltb 0 limit && ltb limit used

unfoldable pub check_request_capacity :
    CapacityEntity → CapacitySource → ℕ → ℕ → ℕ → ℤ → Option String → Result GateError (Unit {0})
unfolding retry_delay_of limit_owner
check_request_capacity capacity source total_requests used_tokens request_tokens left value =
    let owner = limit_owner capacity.dimension value in
    if is_over (requests_or_zero capacity) total_requests
    then err (
        completion_error (
          limit_error (limit_of_requests owner capacity.requests source capacity.period)
            (reached_limit_of_requests source) left))
    else if is_over (tokens_or_zero capacity) (used_tokens + request_tokens)
    then err (
        completion_error (
          limit_error (limit_of_tokens owner capacity.tokens source capacity.period)
            (reached_limit_of_tokens source) left))
    else ok tt

-- The check of one capacity against what was read for its period.
unfoldable pub check_resolved : ResolvedCapacity → UsageMetric → ℕ → Result GateError (Unit {0})
check_resolved r u request_tokens =
    check_request_capacity r.capacity r.source u.total_requests u.used_tokens request_tokens
      u.remaining_seconds r.dimension_value

-- `for (const { capacity, source, dimensionValue } of enabledCapacities)`.
unfoldable pub check_capacities :
    List (String × UsageMetric) → ℕ → List ResolvedCapacity → Result GateError (Unit {0})
check_capacities usage request_tokens Common.[] = ok tt
check_capacities usage request_tokens (r ∷ rs) = do
  u ← or_throw (lookup (period_name r.capacity.period) usage) type_error
  _ ← check_resolved r u request_tokens
  check_capacities usage request_tokens rs
