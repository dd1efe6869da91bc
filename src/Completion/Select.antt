-- ===== src/Completion/Select.antt =====
-- The choice of the model in `completion` of packages/api/src/completion/completion.service.ts.
use open_vm_x_ai.Common.{
  ℕ, zero, suc, ◌≡◌, refl, Option, none, some, get_or, List, [], Result, ok, err, or_throw,
  get_elem?,
}
use open_vm_x_ai.Entities.{AiResourceEntity, AiResourceModelConfigEntity}
use open_vm_x_ai.Completion.Records.{Thrown, plain_error}

-- `throwServiceError(…, COMPLETION_SECONDARY_MODEL_NOT_FOUND, …)`.
abbrev pub secondary_model_not_found : Thrown
secondary_model_not_found = plain_error "COMPLETION_SECONDARY_MODEL_NOT_FOUND"

-- `payload.vmx?.secondaryModelIndex && aiResource.secondaryModels?.[index]`: an index of 0 is false.
unfoldable pub secondary_model : AiResourceEntity → ℕ → Option AiResourceModelConfigEntity
secondary_model resource zero = none
secondary_model resource (suc n) = get_elem? (get_or resource.secondary_models []) (suc n)

-- The model, and whether it is the primary one. An index that is undefined or null is `none`.
unfoldable pub select_model :
    AiResourceEntity → Option ℕ → Result Thrown AiResourceModelConfigEntity
unfolding secondary_model
select_model resource none = ok resource.model
select_model resource (some n) = or_throw (secondary_model resource n) secondary_model_not_found

-- The secondary models can be chosen by their index from 1 on; the first, whose index is 0, never
-- can: the request is refused.
pub select_model_secondary :
    (resource : AiResourceEntity) (models : List AiResourceModelConfigEntity)
    → resource.secondary_models ≡ some models
    → (select_model resource (some 0) ≡ err secondary_model_not_found)
      × ((n : ℕ) (m : AiResourceModelConfigEntity)
          → get_elem? models (suc n) ≡ some m
          → select_model resource (some (suc n)) ≡ ok m)
unfolding select_model
select_model_secondary resource models has = (refl, λ n m e. rw (has, e) refl)
