-- ===== src/Completion/Order.antt =====
-- The loop over the models in `completion` of
-- packages/api/src/completion/completion.service.ts: which models it tries, and what it records.
use open_vm_x_ai.Common.{
  ◌+◌, ◌≡◌, refl, sym, ◌∙◌, ap, Option, none, some, List, [], ◌∷◌, ◌++◌, length, All, Result, ok,
  err, arith,
}
use mathlib.Core.List.{append_assoc, append-nil}
use open_vm_x_ai.Entities.{AiConnectionEntity, AiResourceEntity, AiResourceModelConfigEntity}
use open_vm_x_ai.Completion.Records.{
  Thrown, parse_provider_error, fallback, CompletionResponse, AuditEntry, Recorded,
}
use open_vm_x_ai.Completion.Attempt.{Services, State, success_entry, record_success}
use open_vm_x_ai.Completion.Run.{
  record_fallback, record_failure, run_models, fail, fall_back, settle,
}
use open_vm_x_ai.Completion.Fallback.{
  Failed, failed_models, fallback_events, IsAfterThrow, AttemptCases, succeeds, fails, throws_after,
  attempt-AttemptCases,
}

abbrev pub response_of : Result Thrown CompletionResponse → Option CompletionResponse
response_of (ok response) = some response
response_of (err _) = none

-- A run over `models` with the records `r` before and `r'` after it: some models fail, in their
-- order, until one answers or none is left. The entries `extra` are those of responses after which
-- the update of the discovered capacity threw.
pub record Ran (services : Services) (models : List AiResourceModelConfigEntity) (r : Recorded)
    (result : Result Thrown CompletionResponse) (r' : Recorded) : Type 0 where
  pub tried : List Failed
  pub last : AiResourceModelConfigEntity
  pub rest : List AiResourceModelConfigEntity
  pub entry : AuditEntry
  pub extra : List AuditEntry
  pub in_order : models ≡ failed_models tried ++ last ∷ rest
  pub events_of_tried : r'.events ≡ r.events ++ fallback_events tried
  pub entries : r'.audit ≡ entry ∷ extra ++ r.audit
  pub extra_after_throw : All (IsAfterThrow services) extra
  pub entry_model : entry.model ≡ some last
  pub entry_events : entry.events ≡ r'.events
  pub entry_response : entry.response ≡ response_of result
  pub usage_of_each : length r'.usage ≡ length r.usage + (length tried + 1) + length extra
  pub metrics_of_each : length r'.metrics ≡ length r.metrics + (length tried + 1) + length extra
  pub all_tried : response_of result ≡ none → rest ≡ []

All-append {ℓ κ} :
    {A : Type ℓ} (P : A → Type κ) (xs ys : List A) → All P xs → All P ys → All P (xs ++ ys)
All-append P [] ys hx hy = hy
All-append P (x ∷ xs) ys hx hy = (hx.0, All-append P xs ys hx.1 hy)

length-add_one : (xs : List AuditEntry) (x : AuditEntry) → length (xs ++ x ∷ []) ≡ length xs + 1
length-add_one [] x = refl
length-add_one (y ∷ xs) x = omega (arith, length-add_one xs x)

module _ (services : Services) (resource : AiResourceEntity) where
  abbrev RanTo :
      List AiResourceModelConfigEntity
      → Recorded
      → Result Thrown CompletionResponse × State services
      → Type 0
  RanTo models r out = Ran services models r out.0 out.1.recorded

  abbrev Attempted :
      AiResourceModelConfigEntity
      → Recorded
      → Result Thrown CompletionResponse × State services
      → Type 0
  Attempted model r out = AttemptCases services resource model r out

  -- A success ends the run, whatever models are left.
  Ran-success :
      (model : AiResourceModelConfigEntity) (rest : List AiResourceModelConfigEntity) (r : Recorded)
      (response : CompletionResponse)
      → Ran services
          (model ∷ rest)
          r
          (ok response)
          (record_success services resource model response r)
  unfolding record_success
  Ran-success model rest r response = record {
    tried = [];
    last = model;
    rest = rest;
    entry = _;
    extra = [];
    in_order = refl;
    events_of_tried = sym (append-nil r.events);
    entries = refl;
    extra_after_throw = tt;
    entry_model = refl;
    entry_events = refl;
    entry_response = refl;
    usage_of_each = omega arith;
    metrics_of_each = omega arith;
    all_tried = λ e. cc;
  }

  Ran-failure :
      (model : AiResourceModelConfigEntity) (e : Thrown) (r : Recorded)
      → Ran services
          (model ∷ [])
          r
          (err e)
          (record_failure services (some resource) (some model) (parse_provider_error e) r)
  unfolding record_failure
  Ran-failure model e r = record {
    tried = [];
    last = model;
    rest = [];
    entry = _;
    extra = [];
    in_order = refl;
    events_of_tried = sym (append-nil r.events);
    entries = refl;
    extra_after_throw = tt;
    entry_model = refl;
    entry_events = refl;
    entry_response = refl;
    usage_of_each = omega arith;
    metrics_of_each = omega arith;
    all_tried = λ _. refl;
  }

  -- A run from the records of a response after which the update threw.
  Ran-throws_after :
      (model : AiResourceModelConfigEntity) (models : List AiResourceModelConfigEntity)
      (response : CompletionResponse) (connection : AiConnectionEntity) (e : Thrown)
      (w w' : services.W) (r r' : Recorded) (result : Result Thrown CompletionResponse)
      → services.update_discovered_capacity connection model response.headers w ≡ (err e, w')
      → Ran services models (record_success services resource model response r) result r'
      → Ran services models r result r'
  unfolding record_success
  Ran-throws_after model models response connection e w w' r r' result throws ran =
      let entry = success_entry services resource model response r in
      record {
        tried = ran.tried;
        last = ran.last;
        rest = ran.rest;
        entry = ran.entry;
        extra = ran.extra ++ entry ∷ [];
        in_order = ran.in_order;
        events_of_tried = ran.events_of_tried;
        entries =
            ran.entries
            ∙ ap (λ es. ran.entry ∷ es) (sym (append_assoc ran.extra (entry ∷ []) r.audit));
        extra_after_throw =
            All-append (IsAfterThrow services) ran.extra (entry ∷ []) ran.extra_after_throw (
              record {
                model = model;
                response = response;
                connection = connection;
                thrown = e;
                before = w;
                after = w';
                entry_model = refl;
                entry_response = refl;
                throws = throws;
              },
              tt,
            );
        entry_model = ran.entry_model;
        entry_events = ran.entry_events;
        entry_response = ran.entry_response;
        usage_of_each = omega (arith, ran.usage_of_each, length-add_one ran.extra entry);
        metrics_of_each = omega (arith, ran.metrics_of_each, length-add_one ran.extra entry);
        all_tried = ran.all_tried;
      }

  Ran-last :
      (model : AiResourceModelConfigEntity) (r : Recorded)
      (x : Result Thrown CompletionResponse × State services)
      → Attempted model r x
      → RanTo (model ∷ []) r (settle services (fail services (some resource) (some model)) x)
  Ran-last model r x (succeeds response w) = Ran-success model [] r response
  Ran-last model r x (fails e w) = Ran-failure model e r
  Ran-last model r x (throws_after response connection e w w' throws) =
      Ran-throws_after model (model ∷ []) response connection e w w' r _ _ throws
        (Ran-failure model e (record_success services resource model response r))

  -- A failed model in front of a run.
  Ran-after :
      (model : AiResourceModelConfigEntity) (models : List AiResourceModelConfigEntity) (e : Thrown)
      (r r' : Recorded) (result : Result Thrown CompletionResponse)
      → Ran services models
          (record_fallback services resource model (parse_provider_error e) r)
          result
          r'
      → Ran services (model ∷ models) r result r'
  unfolding record_fallback
  Ran-after model models e r r' result ran = record {
    tried = record { model = model; why = parse_provider_error e } ∷ ran.tried;
    last = ran.last;
    rest = ran.rest;
    entry = ran.entry;
    extra = ran.extra;
    in_order = ap (λ ms. model ∷ ms) ran.in_order;
    events_of_tried =
        ran.events_of_tried
        ∙ append_assoc r.events (fallback model (parse_provider_error e) ∷ [])
            (fallback_events ran.tried);
    entries = ran.entries;
    extra_after_throw = ran.extra_after_throw;
    entry_model = ran.entry_model;
    entry_events = ran.entry_events;
    entry_response = ran.entry_response;
    usage_of_each = omega (arith, ran.usage_of_each);
    metrics_of_each = omega (arith, ran.metrics_of_each);
    all_tried = ran.all_tried;
  }

  Ran-more :
      (model next : AiResourceModelConfigEntity) (rest : List AiResourceModelConfigEntity)
      (r : Recorded) (x : Result Thrown CompletionResponse × State services)
      → Attempted model r x
      → ((s : State services)
          → RanTo (next ∷ rest) s.recorded (run_models services resource next rest s))
      → RanTo (model ∷ next ∷ rest) r (
          settle services
            (λ e s'.
              run_models services resource next rest (fall_back services resource model e s'))
            x)
  Ran-more model next rest r x (succeeds response w) then_run =
      Ran-success model (next ∷ rest) r response
  Ran-more model next rest r x (fails e w) then_run = Ran-after model (next ∷ rest) e r _ _ (
      then_run (record {
        world = w;
        recorded = record_fallback services resource model (parse_provider_error e) r;
      }))
  Ran-more model next rest r x (throws_after response connection e w w' throws) then_run =
      let done = record_success services resource model response r in
      Ran-throws_after model (model ∷ next ∷ rest) response connection e w w' r _ _ throws (
        Ran-after model (next ∷ rest) e done _ _ (
          then_run (record {
            world = w';
            recorded = record_fallback services resource model (parse_provider_error e) done;
          })))

  pub run_models-Ran :
      (model : AiResourceModelConfigEntity) (models : List AiResourceModelConfigEntity)
      (s : State services)
      → let out = run_models services resource model models s in
        Ran services (model ∷ models) s.recorded out.0 out.1.recorded
  unfolding run_models
  run_models-Ran model [] s =
      Ran-last model s.recorded _ (attempt-AttemptCases services resource model s.recorded s.world)
  run_models-Ran model (next ∷ rest) s =
      Ran-more model next rest s.recorded _
        (attempt-AttemptCases services resource model s.recorded s.world) (run_models-Ran next rest)
