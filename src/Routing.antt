-- ===== src/Routing.antt =====
-- packages/api/src/completion/routing.service.ts: which model a request is routed to, over the
-- conditions of packages/api/src/ai-resource/common/routing.entity.ts.
-- What one condition compares (`matchCondition`) is in Match. What a template gives (ejs) is a
-- parameter, as are the numbers that `Math.random` gives, in millionths, one after the other.
pub mod Match
pub mod Truth
pub mod Routes
mod Tests
use Prim.Native.String.{◌++◌}
use open_vm_x_ai.Common.{
  ℕ, suc, ◌*◌, Bool, true, false, not, Option, none, some, get_or, String, List, [], ◌∷◌, Result,
  ok, err, ◌>>=◌, ltb, str_eq, if◌then◌else◌,
}
use open_vm_x_ai.Entities.{AiResourceModelConfigEntity}
use open_vm_x_ai.Errors.{CompletionErrorData, text, reason}
use open_vm_x_ai.Completion.Records.{Thrown, plain_error, completion_error}

pub data RoutingOperator : Type 0 where
  and_operator or_operator : RoutingOperator

pub data RoutingAction : Type 0 where
  block call_model : RoutingAction

pub data RoutingComparator : Type 0 where
  equal not_equal greater_than greater_than_or_equal less_than less_than_or_equal contains
        not_contains starts_with ends_with pattern is_in not_in exists :
      RoutingComparator

pub data RoutingConditionType : Type 0 where
  string number boolean comma_delimited_list json_object json_array : RoutingConditionType

pub record AiResourceRoutingConditionValue : Type 0 where
  pub type_of : RoutingConditionType
  pub expression : Option String

-- A condition by its parts: what it reads, how it compares, and with what.
pub record AiResourceRoutingCondition : Type 0 where
  pub expression : String
  pub comparator : RoutingComparator
  pub value : AiResourceRoutingConditionValue

-- `conditions: Array<AIResourceRoutingCondition | AIRoutingConditionGroup>`. Of a group inside
-- another only the switch, the operator and the items are read.
mutual
  pub data RoutingItem : Type 0 where
    condition : AiResourceRoutingCondition → RoutingItem
    group : (enabled : Option Bool) → RoutingOperator → RoutingItems → RoutingItem

  pub data RoutingItems : Type 0 where
    no_items : RoutingItems
    item : RoutingItem → RoutingItems → RoutingItems

-- `mode`: an expression, or the conditions of the user interface.
pub data RoutingMode : Type 0 where
  advanced : (expression : Option String) → RoutingMode
  ui : RoutingOperator → RoutingItems → RoutingMode

-- The model of `then`. `traffic` is a percentage.
pub record RoutingTarget : Type 0 where
  pub model : AiResourceModelConfigEntity
  pub traffic : Option ℕ

-- A group at the top, with what it does; `then` is optional in the API, also where a model is called.
pub record AiRoutingConditionGroup : Type 0 where
  pub description : Option String
  pub enabled : Option Bool
  pub mode : RoutingMode
  pub action : RoutingAction
  pub target : Option RoutingTarget

-- `enabled === false`.
abbrev pub is_disabled : Option Bool → Bool
is_disabled o = not (get_or o true)

-- `!!traffic`.
abbrev pub has_share : Option ℕ → Bool
has_share none = false
has_share (some t) = ltb 0 t

-- `continue` on a group that is switched off.
abbrev pub skipped : RoutingItem → Bool
skipped (condition c) = false
skipped (group enabled _ _) = is_disabled enabled

abbrev pub blocked : AiRoutingConditionGroup → Thrown
blocked g = completion_error (record {
  code = some "blocked_by_routing_condition";
  headers = none;
  message = text ("Request blocked by routing condition: " ++ get_or g.description "undefined");
  rate = false;
  status_code = 400;
  retryable = false;
  retry_delay = none;
  failure_reason = some (reason "Blocked by routing condition");
})

-- The TypeError of `conditionGroup.then.traffic` where there is no `then`.
abbrev pub no_target : Thrown
no_target = plain_error "Cannot read properties of undefined (reading 'traffic')"

-- `Math.random() < traffic / 100`.
unfoldable pub in_traffic : ℕ → ℕ → Bool
in_traffic drawn traffic = ltb (drawn * 100) (traffic * 1000000)

abbrev pub answer :
    AiRoutingConditionGroup
    → (ℕ → Result Thrown (Option AiRoutingConditionGroup))
    → Option ℕ
    → Result Thrown (Option AiRoutingConditionGroup)
answer g rest none = ok (some g)
answer g rest (some k) = rest k

module _ (match_condition : AiResourceRoutingCondition → Result Thrown Bool) where
  -- The two loops of `recursiveEvaluateRoutingConditions`, each with what it returns at once.
  unfoldable mutual
    pub evaluate_item : RoutingItem → Result Thrown Bool
    evaluate_item (condition c) = match_condition c
    evaluate_item (group _ and_operator items) = evaluate_and items
    evaluate_item (group _ or_operator items) = evaluate_or items

    pub evaluate_and : RoutingItems → Result Thrown Bool
    evaluate_and no_items = ok true
    evaluate_and (item i items) =
        let rest = evaluate_and items in
        let here = evaluate_item i in
        if skipped i then rest else (here >>= λ m. if m then rest else ok false)

    pub evaluate_or : RoutingItems → Result Thrown Bool
    evaluate_or no_items = ok false
    evaluate_or (item i items) =
        let rest = evaluate_or items in
        let here = evaluate_item i in
        if skipped i then rest else (here >>= λ m. if m then ok true else rest)

  unfoldable pub recursive_evaluate_routing_conditions :
      RoutingOperator → RoutingItems → Result Thrown Bool
  recursive_evaluate_routing_conditions and_operator items = evaluate_and items
  recursive_evaluate_routing_conditions or_operator items = evaluate_or items

  module _ (render : String → Result Thrown String) where
    -- `match`: in the advanced mode a text, which is false only if it is empty.
    unfoldable pub evaluate_mode : RoutingMode → Result Thrown Bool
    evaluate_mode (advanced expression) =
        render (get_or expression "") >>= λ s. ok (not (str_eq s ""))
    evaluate_mode (ui operator items) = recursive_evaluate_routing_conditions operator items

module _ (random : ℕ → ℕ) where
  -- The end of the round for a group that calls a model.
  abbrev pub act_with : Option RoutingTarget → ℕ → Result Thrown (Option ℕ)
  act_with none k = err no_target
  act_with (some target) k =
      if has_share target.traffic
      then (if in_traffic (random k) (get_or target.traffic 0) then ok none else ok (some (suc k)))
      else ok none

  -- What a group that matches does: it ends the search (`none`), or the search goes on with so
  -- many numbers drawn. A share of 0 is no share, as if there were none.
  unfoldable pub act : RoutingAction → ℕ → AiRoutingConditionGroup → Result Thrown (Option ℕ)
  act block k g = err (blocked g)
  act call_model k g = act_with g.target k

  abbrev pub when_matched :
      AiRoutingConditionGroup
      → (ℕ → Result Thrown (Option AiRoutingConditionGroup))
      → ℕ
      → Bool
      → Result Thrown (Option AiRoutingConditionGroup)
  when_matched g rest k true = act g.action k g >>= answer g rest
  when_matched g rest k false = rest k

module _ (match_condition : AiResourceRoutingCondition → Result Thrown Bool)
    (render : String → Result Thrown String) (random : ℕ → ℕ) where
  -- `evaluateRoutingConditions` over `routing?.conditions ?? []`, with `k` numbers drawn: the group
  -- that it answers with, and so its model. It answers `null` if none is left.
  unfoldable pub evaluate_routing_conditions :
      List AiRoutingConditionGroup → ℕ → Result Thrown (Option AiRoutingConditionGroup)
  evaluate_routing_conditions [] k = ok none
  evaluate_routing_conditions (g ∷ gs) k =
      let rest = evaluate_routing_conditions gs in
      if is_disabled g.enabled
      then rest k
      else (evaluate_mode match_condition render g.mode >>= when_matched random g rest k)
