-- ===== src/Completion/Tests.antt =====
-- A resource with a fallback model, the first model of which fails, and the theorems at such inputs.
use open_vm_x_ai.Common.{ℕ, suc, true, none, [], ok, err, str_eq, if◌then◌else◌}
use open_vm_x_ai.Capacity.Tests.{limited_connection, limited_resource}
use open_vm_x_ai.Entities.{AiResourceModelConfigEntity}
use open_vm_x_ai.Completion.Records.{plain_error, CompletionResponse}
use open_vm_x_ai.Completion.Attempt.{Services, State}
use open_vm_x_ai.Completion.Run.{completion}
use open_vm_x_ai.Completion.Accounting.{IsAudited, completion-IsAudited}

abbrev an_answer : CompletionResponse
an_answer = record { id = "a1"; usage = none; headers = [] }

-- Only the model `n` answers; the world counts the calls.
abbrev services : Services
services = record {
  W = ℕ;
  get_ai_resource = λ w. (ok limited_resource, w);
  evaluate_routing = λ r w. (ok none, w);
  get_connection = λ id w. (ok limited_connection, w);
  has_provider = λ p. true;
  request_gate = λ r m c w. (ok [], w);
  provider_completion = λ c m w.
      if str_eq m.model "n" then (ok an_answer, suc w) else (err (plain_error "down"), suc w);
  increase_token_response_usage = λ cs u w. (ok tt, w);
  update_discovered_capacity = λ c m h w. (ok tt, w);
}

abbrev at_start : State services
at_start = record {
  world = 0;
  recorded = record { usage = []; metrics = []; audit = []; events = [] };
}

abbrev another_model : AiResourceModelConfigEntity
another_model = record { provider = "openai"; model = "n"; connection_id = "c1" }

completion-IsAudited_example :
    let out = completion services none at_start in
    IsAudited services at_start.recorded out.0 out.1.recorded
completion-IsAudited_example = completion-IsAudited services none at_start
