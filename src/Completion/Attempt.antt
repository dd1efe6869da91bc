-- ===== src/Completion/Attempt.antt =====
-- One attempt of `completion` in packages/api/src/completion/completion.service.ts: the body of the
-- `try` in its loop over the models, for a response that is not a stream, and `postCompletion`.
-- The services that the method calls are a parameter; a world `W` stands for what they keep.
use open_vm_x_ai.Common.{
  ℕ, Bool, false, Option, none, some, String, List, ◌∷◌, Result, ok, err, if◌then◌else◌,
}
use open_vm_x_ai.Capacity.Usage.{EvaluatedCapacity}
use open_vm_x_ai.Entities.{AiConnectionEntity, AiResourceEntity, AiResourceModelConfigEntity}
use open_vm_x_ai.Errors.{CompletionHeaders}
use open_vm_x_ai.Completion.Records.{
  Thrown, plain_error, CompletionUsage, CompletionResponse, UsageEntry, MetricsEntry, AuditEntry,
  Recorded,
}

-- What the method asks of other services, for one request. Each call may throw.
pub record Services : Type 1 where
  pub W : Type 0
  pub get_ai_resource : W → Result Thrown AiResourceEntity × W
  -- `evaluateRoutingConditions`, and the model of its result.
  pub evaluate_routing :
      AiResourceEntity → W → Result Thrown (Option AiResourceModelConfigEntity) × W
  pub get_connection : String → W → Result Thrown AiConnectionEntity × W
  pub has_provider : String → Bool
  pub request_gate :
      AiResourceEntity
      → AiResourceModelConfigEntity
      → AiConnectionEntity
      → W
      → Result Thrown (List EvaluatedCapacity) × W
  pub provider_completion :
      AiConnectionEntity → AiResourceModelConfigEntity → W → Result Thrown CompletionResponse × W
  pub increase_token_response_usage :
      List EvaluatedCapacity → CompletionUsage → W → Result Thrown (Unit {0}) × W
  -- The end of `postCompletion`, from the limits in the headers on.
  pub update_discovered_capacity :
      AiConnectionEntity
      → AiResourceModelConfigEntity
      → CompletionHeaders
      → W
      → Result Thrown (Unit {0}) × W

abbrev pub ai_provider_not_found : Thrown
ai_provider_not_found = plain_error "AI_PROVIDER_NOT_FOUND"

module _ (services : Services) where
  open services use {
    W, get_connection, has_provider, request_gate, provider_completion,
    increase_token_response_usage, update_discovered_capacity,
  }

  -- The world, and what was recorded.
  pub record State : Type 0 where
    pub world : W
    pub recorded : Recorded

  abbrev pub M : Type 0 → Type 0
  M A = State → Result Thrown A × State

  abbrev pub bind_result :
      {A B : Type 0} → Result Thrown A × State → (A → M B) → Result Thrown B × State
  bind_result (ok a, s) f = f a s
  bind_result (err e, s) f = (err e, s)

  infixl 5 ◌>>=◌
  abbrev pub ◌>>=◌ : {A B : Type 0} → M A → (A → M B) → M B
  ◌>>=◌ m f s = bind_result (m s) f

  abbrev pub pure : {A : Type 0} → A → M A
  pure a s = (ok a, s)

  abbrev pub throw : {A : Type 0} → Thrown → M A
  throw e s = (err e, s)

  abbrev pub with_world : {A : Type 0} → Result Thrown A × W → Recorded → Result Thrown A × State
  with_world (r, w) recorded = (r, record { world = w; recorded = recorded })

  -- A call of a service, which records nothing.
  abbrev pub lift : {A : Type 0} → (W → Result Thrown A × W) → M A
  lift op s = with_world (op s.world) s.recorded

  abbrev pub success_usage :
      AiResourceEntity → AiResourceModelConfigEntity → CompletionResponse → UsageEntry
  success_usage resource model response = record {
    resource_id = some resource.resource_id;
    model = some model;
    status_code = 200;
    error = false;
    failure_reason = none;
    usage = response.usage;
  }

  abbrev pub metrics_entry : AiResourceEntity → AiResourceModelConfigEntity → ℕ → MetricsEntry
  metrics_entry resource model status = record {
    resource_id = resource.resource_id;
    model = model;
    status_code = status;
  }

  -- `auditService.push` of `postCompletion`.
  abbrev pub success_entry :
      AiResourceEntity → AiResourceModelConfigEntity → CompletionResponse → Recorded → AuditEntry
  success_entry resource model response r = record {
    resource_id = some resource.resource_id;
    model = some model;
    status_code = 200;
    events = r.events;
    response = some response;
    response_headers = some response.headers;
    error_message = none;
    failure_reason = none;
  }

  -- The three pushes of `postCompletion`.
  unfoldable pub record_success :
      AiResourceEntity → AiResourceModelConfigEntity → CompletionResponse → Recorded → Recorded
  record_success resource model response r = record r {
    usage = success_usage resource model response ∷ r.usage;
    metrics = metrics_entry resource model 200 ∷ r.metrics;
    audit = success_entry resource model response r ∷ r.audit;
  }

  -- `if (completionUsage) await this.gateService.increaseTokenResponseUsage(…)`.
  unfoldable pub count_response_tokens :
      List EvaluatedCapacity → Option CompletionUsage → M (Unit {0})
  count_response_tokens capacities none = pure tt
  count_response_tokens capacities (some usage) =
      lift (increase_token_response_usage capacities usage)

  abbrev pub push_success :
      AiResourceEntity → AiResourceModelConfigEntity → CompletionResponse → M (Unit {0})
  push_success resource model response s =
      (ok tt, record s { recorded = record_success resource model response s.recorded })

  unfoldable pub post_completion :
      AiResourceEntity
      → AiResourceModelConfigEntity
      → AiConnectionEntity
      → List EvaluatedCapacity
      → CompletionResponse
      → M (Unit {0})
  post_completion resource model connection capacities response = do
    _ ← count_response_tokens capacities response.usage
    _ ← push_success resource model response
    lift (update_discovered_capacity connection model response.headers)

  abbrev pub require_provider : Bool → M (Unit {0})
  require_provider found = if found then pure tt else throw ai_provider_not_found

  unfoldable pub attempt : AiResourceEntity → AiResourceModelConfigEntity → M CompletionResponse
  attempt resource model = do
    connection ← lift (get_connection model.connection_id)
    _ ← require_provider (has_provider connection.provider)
    capacities ← lift (request_gate resource model connection)
    response ← lift (provider_completion connection model)
    _ ← post_completion resource model connection capacities response
    pure response
