-- ===== src/Completion/Accounting.antt =====
-- What is recorded of a whole request: `completion` of
-- packages/api/src/completion/completion.service.ts.
use open_vm_x_ai.Common.{
  ℕ, ◌≡◌, refl, ap, ◌∙◌, Bool, true, false, Option, none, some, List, [], ◌∷◌, ◌++◌, All, Result,
  ok, err, Result-cases, inl, inr,
}
use open_vm_x_ai.Entities.{AiResourceEntity, AiResourceModelConfigEntity}
use open_vm_x_ai.Completion.Records.{Thrown, CompletionResponse, AuditEntry, Recorded}
use open_vm_x_ai.Completion.Select.{select_model}
use open_vm_x_ai.Completion.Attempt.{Services, State, with_world}
use open_vm_x_ai.Completion.Run.{
  record_failure, run_models, fail, or_no_routing, then_run, then_select, completion,
}
use open_vm_x_ai.Completion.Fallback.{IsAfterThrow}
use open_vm_x_ai.Completion.Order.{run_models-Ran, response_of}

-- From the records `r` to `r'`, one audit entry tells of the result: the response, and all events.
-- The other new entries are those of responses after which the update of the discovered capacity
-- threw.
pub record IsAudited (services : Services) (r : Recorded)
    (result : Result Thrown CompletionResponse) (r' : Recorded) : Type 0 where
  pub entry : AuditEntry
  pub extra : List AuditEntry
  pub entries : r'.audit ≡ entry ∷ extra ++ r.audit
  pub extra_after_throw : All (IsAfterThrow services) extra
  pub entry_response : entry.response ≡ response_of result
  pub entry_events : entry.events ≡ r'.events

module _ (services : Services) where
  open services use {W, get_ai_resource, evaluate_routing}

  abbrev Audited : Recorded → Result Thrown CompletionResponse × State services → Type 0
  Audited r out = IsAudited services r out.0 out.1.recorded

  fail-Audited :
      (resource : Option AiResourceEntity) (model : Option AiResourceModelConfigEntity) (e : Thrown)
      (s : State services)
      → Audited s.recorded (fail services resource model e s)
  unfolding record_failure
  fail-Audited resource model e s = record {
    entry = _;
    extra = [];
    entries = refl;
    extra_after_throw = tt;
    entry_response = refl;
    entry_events = refl;
  }

  run_models-Audited :
      (resource : AiResourceEntity) (model : AiResourceModelConfigEntity)
      (models : List AiResourceModelConfigEntity) (r : Recorded) (s : State services)
      → s.recorded.audit ≡ r.audit
      → Audited r (run_models services resource model models s)
  run_models-Audited resource model models r s same =
      let ran = run_models-Ran services resource model models s in
      record {
        entry = ran.entry;
        extra = ran.extra;
        entries = ran.entries ∙ ap (λ older. ran.entry ∷ ran.extra ++ older) same;
        extra_after_throw = ran.extra_after_throw;
        entry_response = ran.entry_response;
        entry_events = ran.entry_events;
      }

  then_run-Audited :
      (resource : AiResourceEntity) (model : AiResourceModelConfigEntity) (r : Recorded)
      (x : Result Thrown (Option AiResourceModelConfigEntity) × W)
      → Audited r (then_run services resource model (with_world services x r))
  then_run-Audited resource model r (err e, w) =
      fail-Audited (some resource) (some model) e (record { world = w; recorded = r })
  then_run-Audited resource model r (ok none, w) = run_models-Audited resource model _ r _ refl
  then_run-Audited resource model r (ok (some routed), w) =
      run_models-Audited resource routed _ r _ refl

  then_route-Audited :
      (resource : AiResourceEntity) (model : AiResourceModelConfigEntity) (should_route : Bool)
      (s : State services)
      → Audited s.recorded
          (then_run services resource model (or_no_routing services should_route resource s))
  then_route-Audited resource model true s =
      then_run-Audited resource model s.recorded (evaluate_routing resource s.world)
  then_route-Audited resource model false s =
      then_run-Audited resource model s.recorded (ok none, s.world)

  then_select-Audited :
      (index : Option ℕ) (r : Recorded) (x : Result Thrown AiResourceEntity × W)
      → Audited r (then_select services index (with_world services x r))
  then_select-Audited index r (err e, w) =
      fail-Audited none none e (record { world = w; recorded = r })
  then_select-Audited index r (ok resource, w) = elim (Result-cases (select_model resource index)) [
    | inl (model, chosen) ↦
        rw (chosen, then_select)
          (then_route-Audited resource model _ (record { world = w; recorded = r }))
    | inr (e, refused) ↦
        rw (refused, then_select)
          (fail-Audited (some resource) none e (record { world = w; recorded = r }))
  ]

  -- Every request that is not a stream leaves one audit entry that tells how it ends: with a response,
  -- without a resource or a model, by a failure of the routing, or by a failure of all its models. It
  -- is the last one, and has the response that is returned, or none where an error is thrown, and all
  -- events of the request. Any other new entry is that of a response after which the update of the
  -- discovered capacity threw, so that there is no other entry where it does not throw.
  pub completion-IsAudited :
      (index : Option ℕ) (s : State services)
      → let out = completion services index s in IsAudited services s.recorded out.0 out.1.recorded
  unfolding completion
  completion-IsAudited index s = then_select-Audited index s.recorded (get_ai_resource s.world)
