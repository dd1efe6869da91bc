-- ===== src/Completion/Run.antt =====
-- `completion` of packages/api/src/completion/completion.service.ts: the loop over the primary or
-- routed model and the fallback models, and what is recorded of a failure.
use open_vm_x_ai.Common.{
  ℕ, Bool, true, false, ◌&&◌, Option, none, some, get_or, List, [], ◌∷◌, ◌++◌, Result, ok, err,
  if◌then◌else◌,
}
use open_vm_x_ai.Entities.{AiResourceEntity, AiResourceModelConfigEntity}
use open_vm_x_ai.Completion.Records.{
  Thrown, ProviderError, parse_provider_error, routing, fallback, CompletionResponse, UsageEntry,
  MetricsEntry, Recorded,
}
use open_vm_x_ai.Completion.Select.{select_model}
use open_vm_x_ai.Completion.Attempt.{Services, State, M, lift, attempt, metrics_entry}

abbrev pub is_none {ℓ} : {A : Type ℓ} → Option A → Bool
is_none none = true
is_none (some _) = false

module _ (services : Services) where
  open services use {W, get_ai_resource, evaluate_routing}

  abbrev pub failure_usage :
      Option AiResourceEntity → Option AiResourceModelConfigEntity → ProviderError → UsageEntry
  failure_usage resource model why = record {
    resource_id = elim resource [ none ↦ none | some r ↦ some r.resource_id ];
    model = model;
    status_code = why.status_code;
    error = true;
    failure_reason = some why.failure_reason;
    usage = none;
  }

  -- The inner `catch`, for a model that is not the last.
  unfoldable pub record_fallback :
      AiResourceEntity → AiResourceModelConfigEntity → ProviderError → Recorded → Recorded
  record_fallback resource model why r = record {
    events = r.events ++ fallback model why ∷ [];
    usage = failure_usage (some resource) (some model) why ∷ r.usage;
    metrics = metrics_entry services resource model why.status_code ∷ r.metrics;
    audit = r.audit;
  }

  -- `if (modelConfig && aiResource)`.
  abbrev pub failure_metrics :
      Option AiResourceEntity
      → Option AiResourceModelConfigEntity
      → ℕ
      → List MetricsEntry
      → List MetricsEntry
  failure_metrics (some r) (some m) status rest = metrics_entry services r m status ∷ rest
  failure_metrics _ _ status rest = rest

  -- The outer `catch`.
  unfoldable pub record_failure :
      Option AiResourceEntity
      → Option AiResourceModelConfigEntity
      → ProviderError
      → Recorded
      → Recorded
  record_failure resource model why r = record {
    events = r.events;
    usage = failure_usage resource model why ∷ r.usage;
    metrics = failure_metrics resource model why.status_code r.metrics;
    audit =
        record {
          resource_id = elim resource [ none ↦ none | some x ↦ some x.resource_id ];
          model = model;
          status_code = why.status_code;
          events = r.events;
          response = none;
          response_headers = why.headers;
          error_message = some why.error_message;
          failure_reason = some why.failure_reason;
        }
        ∷ r.audit;
  }

  -- Rethrow, after the records of the outer `catch`.
  abbrev pub fail :
      Option AiResourceEntity
      → Option AiResourceModelConfigEntity
      → Thrown
      → M services CompletionResponse
  fail resource model e s = (
    err e,
    record s { recorded = record_failure resource model (parse_provider_error e) s.recorded },
  )

  abbrev pub fall_back :
      AiResourceEntity → AiResourceModelConfigEntity → Thrown → State services → State services
  fall_back resource model e s = record s {
    recorded = record_fallback resource model (parse_provider_error e) s.recorded;
  }

  -- A `catch` around an attempt.
  abbrev pub settle :
      {A : Type 0}
      → (Thrown → State services → Result Thrown A × State services)
      → Result Thrown A × State services
      → Result Thrown A × State services
  settle handler (ok a, s) = (ok a, s)
  settle handler (err e, s) = handler e s

  -- The loop over the models, `model` the first of them.
  unfoldable pub run_models :
      AiResourceEntity
      → AiResourceModelConfigEntity
      → List AiResourceModelConfigEntity
      → M services CompletionResponse
  run_models resource model [] s =
      settle (fail (some resource) (some model)) (attempt services resource model s)
  run_models resource model (next ∷ rest) s =
      settle (λ e s'. run_models resource next rest (fall_back resource model e s'))
        (attempt services resource model s)

  -- The model after the routing, of which an event tells.
  abbrev pub routed_model :
      AiResourceModelConfigEntity → Option AiResourceModelConfigEntity → AiResourceModelConfigEntity
  routed_model model routed = get_or routed model

  abbrev pub record_routing :
      AiResourceModelConfigEntity
      → Option AiResourceModelConfigEntity
      → State services
      → State services
  record_routing model none s = s
  record_routing model (some routed) s = record s {
    recorded = record (s.recorded) { events = s.recorded.events ++ routing model routed ∷ [] };
  }

  abbrev pub or_no_routing :
      Bool → AiResourceEntity → M services (Option AiResourceModelConfigEntity)
  or_no_routing should_route resource =
      if should_route then lift services (evaluate_routing resource) else (λ s. (ok none, s))

  abbrev pub then_run :
      AiResourceEntity
      → AiResourceModelConfigEntity
      → Result Thrown (Option AiResourceModelConfigEntity) × State services
      → Result Thrown CompletionResponse × State services
  then_run resource model (err e, s) = fail (some resource) (some model) e s
  then_run resource model (ok routed, s) =
      run_models resource (routed_model model routed) (get_or resource.fallback_models [])
        (record_routing model routed s)

  abbrev pub then_select :
      Option ℕ
      → Result Thrown AiResourceEntity × State services
      → Result Thrown CompletionResponse × State services
  then_select index (err e, s) = fail none none e s
  then_select index (ok resource, s) = elim (select_model resource index) [
    | err e ↦ fail (some resource) none e s
    | ok model ↦
        then_run resource model
          (or_no_routing (is_none index && resource.routing_enabled) resource s)
  ]

  -- `completion`: `index` is `payload.vmx?.secondaryModelIndex`.
  unfoldable pub completion : Option ℕ → M services CompletionResponse
  completion index s = then_select index (lift services get_ai_resource s)
