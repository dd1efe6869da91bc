-- ===== src/Completion/Fallback.antt =====
-- The order in which the models are tried, and what is recorded of each.
use open_vm_x_ai.Common.{
  ◌≡◌, refl, Option, none, some, List, map, Result, ok, err, inl, inr, Bool-cases,
}
use open_vm_x_ai.Capacity.Usage.{EvaluatedCapacity}
use open_vm_x_ai.Entities.{AiConnectionEntity, AiResourceEntity, AiResourceModelConfigEntity}
use open_vm_x_ai.Completion.Records.{
  Thrown, ProviderError, AuditEntry, AuditEvent, fallback, CompletionResponse, Recorded,
  CompletionUsage,
}
use open_vm_x_ai.Completion.Attempt.{
  Services, State, attempt, post_completion, count_response_tokens, record_success, lift,
  require_provider, ai_provider_not_found, bind_result, with_world, push_success, pure,
}

-- A model that was tried without success, and why.
pub record Failed : Type 0 where
  pub model : AiResourceModelConfigEntity
  pub why : ProviderError

abbrev pub failed_models : List Failed → List AiResourceModelConfigEntity
failed_models = map (λ f. f.model)

abbrev pub fallback_events : List Failed → List AuditEvent
fallback_events = map (λ f. fallback f.model f.why)

module _ (services : Services) where
  open services use {W, update_discovered_capacity}

  -- The audit entry of a response after which the update of the discovered capacity threw.
  pub record IsAfterThrow (entry : AuditEntry) : Type 0 where
    pub model : AiResourceModelConfigEntity
    pub response : CompletionResponse
    pub connection : AiConnectionEntity
    pub thrown : Thrown
    pub before : W
    pub after : W
    pub entry_model : entry.model ≡ some model
    pub entry_response : entry.response ≡ some response
    pub throws :
        update_discovered_capacity connection model response.headers before ≡ (err thrown, after)

  -- How an attempt ends: a success adds its three records, a failure adds none, unless it is that of
  -- the update after the records of a success.
  pub data AttemptCases (resource : AiResourceEntity) (model : AiResourceModelConfigEntity)
      (r : Recorded) : Result Thrown CompletionResponse × State services → Type 0 where
    succeeds :
        (response : CompletionResponse) (w : W)
        → AttemptCases resource model r (
          ok response,
          record { world = w; recorded = record_success services resource model response r },
        )
    fails :
        (e : Thrown) (w : W)
        → AttemptCases resource model r (err e, record { world = w; recorded = r })
    throws_after :
        (response : CompletionResponse) (connection : AiConnectionEntity) (e : Thrown) (w w' : W)
        → update_discovered_capacity connection model response.headers w ≡ (err e, w')
        → AttemptCases resource model r (
          err e,
          record { world = w'; recorded = record_success services resource model response r },
        )

  module _ (resource : AiResourceEntity) (model : AiResourceModelConfigEntity) (r : Recorded) where
    open services use {
      get_connection, has_provider, request_gate, provider_completion,
      increase_token_response_usage,
    }

    after_update :
        (connection : AiConnectionEntity) (response : CompletionResponse) (w : W)
        (x : Result Thrown (Unit {0}) × W)
        → update_discovered_capacity connection model response.headers w ≡ x
        → AttemptCases resource model r (
            bind_result services
              (with_world services x (record_success services resource model response r))
              (λ _. pure services response))
    after_update connection response w (ok _, w') e = succeeds response w'
    after_update connection response w (err thrown, w') e =
        throws_after response connection thrown w w' e

    -- The parts of an attempt from its end, each for any answer of the service that it waits for.
    after_count :
        (connection : AiConnectionEntity) (response : CompletionResponse)
        (x : Result Thrown (Unit {0}) × W)
        → AttemptCases resource model r (
            bind_result services
              (bind_result services (with_world services x r) (λ _ s.
                bind_result services (push_success services resource model response s) (λ _.
                  lift services (update_discovered_capacity connection model response.headers))))
              (λ _. pure services response))
    after_count connection response (err e, w) = fails e w
    after_count connection response (ok _, w) =
        after_update connection response w
          (update_discovered_capacity connection model response.headers w) refl

    after_provider_usage :
        (connection : AiConnectionEntity) (capacities : List EvaluatedCapacity)
        (response : CompletionResponse) (w : W) (u : Option CompletionUsage)
        → AttemptCases resource model r (
            bind_result services
              (bind_result services
                (count_response_tokens services capacities u (record { world = w; recorded = r }))
                (λ _ s. bind_result services (push_success services resource model response s) (λ _.
                  lift services (update_discovered_capacity connection model response.headers))))
              (λ _. pure services response))
    unfolding count_response_tokens
    after_provider_usage connection capacities response w none =
        after_count connection response (ok tt, w)
    after_provider_usage connection capacities response w (some usage) =
        after_count connection response (increase_token_response_usage capacities usage w)

    after_provider :
        (connection : AiConnectionEntity) (capacities : List EvaluatedCapacity)
        (x : Result Thrown CompletionResponse × W)
        → AttemptCases resource model r (
            bind_result services (with_world services x r) (λ response s.
              bind_result services
                (post_completion services resource model connection capacities response s)
                (λ _. pure services response)))
    unfolding post_completion
    after_provider connection capacities (err e, w) = fails e w
    after_provider connection capacities (ok response, w) =
        after_provider_usage connection capacities response w response.usage

    after_gate :
        (connection : AiConnectionEntity) (x : Result Thrown (List EvaluatedCapacity) × W)
        → AttemptCases resource model r (
            bind_result services (with_world services x r) (λ capacities s.
              bind_result services
                (lift services (provider_completion connection model) s)
                (λ response s'.
                  bind_result services
                    (post_completion services resource model connection capacities response s')
                    (λ _. pure services response))))
    after_gate connection (err e, w) = fails e w
    after_gate connection (ok capacities, w) =
        after_provider connection capacities (provider_completion connection model w)

    after_connection :
        (x : Result Thrown AiConnectionEntity × W)
        → AttemptCases resource model r (
            bind_result services (with_world services x r) (λ connection s.
              bind_result services
                (require_provider services (has_provider connection.provider) s)
                (λ _ s₁.
                  bind_result services
                    (lift services (request_gate resource model connection) s₁)
                    (λ capacities s₂.
                      bind_result services
                        (lift services (provider_completion connection model) s₂)
                        (λ response s₃.
                          bind_result services
                            (post_completion services resource model connection capacities response
                              s₃)
                            (λ _. pure services response))))))
    after_connection (err e, w) = fails e w
    after_connection (ok connection, w) = elim (Bool-cases (has_provider connection.provider)) [
      | inl found ↦ rw found (after_gate connection (request_gate resource model connection w))
      | inr missing ↦ rw missing (fails ai_provider_not_found w)
    ]

    pub attempt-AttemptCases :
        (w : W)
        → AttemptCases resource model r
            (attempt services resource model (record { world = w; recorded = r }))
    unfolding attempt
    attempt-AttemptCases w = after_connection (get_connection model.connection_id w)
