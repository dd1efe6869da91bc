-- ===== src/Routing/Routes.antt =====
-- Which group of conditions decides, where no condition or template of the groups throws:
-- `evaluateRoutingConditions` of packages/api/src/completion/routing.service.ts.
use open_vm_x_ai.Common.{
  ℕ, ◌≡◌, refl, Bool, false, not, ◌&&◌, Option, Option-cases, none, some, get_or, String, List, [],
  ◌∷◌, Result, ok, err, ◌>>=◌, str_eq, All, find, Bool-cases, inl, inr,
}
use open_vm_x_ai.Completion.Records.{Thrown}
use open_vm_x_ai.Routing.{
  RoutingAction, block, call_model, AiResourceRoutingCondition, RoutingMode, advanced, ui,
  AiRoutingConditionGroup, no_target, is_disabled, has_share, evaluate_mode, blocked, act, answer,
  evaluate_routing_conditions,
}
use open_vm_x_ai.Routing.Truth.{
  combine, truths, AllAgree, recursive_evaluate_routing_conditions-eq-combine,
}

abbrev outcome_of :
    RoutingAction → AiRoutingConditionGroup → Result Thrown (Option AiRoutingConditionGroup)
outcome_of block g = err (blocked g)
outcome_of call_model g = elim g.target [ none ↦ err no_target | some _ ↦ ok (some g) ]

-- What the request comes to by that group.
abbrev pub outcome : Option AiRoutingConditionGroup → Result Thrown (Option AiRoutingConditionGroup)
outcome none = ok none
outcome (some g) = outcome_of g.action g

-- Whether a group shares the traffic.
abbrev pub shares_traffic : AiRoutingConditionGroup → Bool
shares_traffic g = elim g.target [ none ↦ false | some target ↦ has_share target.traffic ]

module _ (holds : AiResourceRoutingCondition → Bool) (rendered : String → String) where
  -- Whether a group is switched on and matches.
  unfoldable pub mode_truth : RoutingMode → Bool
  mode_truth (advanced expression) = not (str_eq (rendered (get_or expression "")) "")
  mode_truth (ui operator items) = combine operator (truths holds items)

  abbrev pub is_route : AiRoutingConditionGroup → Bool
  is_route g = not (is_disabled g.enabled) && mode_truth g.mode

module _ (holds : AiResourceRoutingCondition → Bool)
    (match_condition : AiResourceRoutingCondition → Result Thrown Bool)
    (render : String → Result Thrown String) (rendered : String → String) (random : ℕ → ℕ) where
  -- Reading this mode does not throw: each of its conditions has its truth, or its template gives
  -- this text.
  abbrev pub IsRead : RoutingMode → Type 0
  IsRead (advanced expression) =
      render (get_or expression "") ≡ ok (rendered (get_or expression ""))
  IsRead (ui _ items) = AllAgree holds match_condition items

  evaluate_mode-truth :
      (m : RoutingMode)
      → IsRead m
      → evaluate_mode match_condition render m ≡ ok (mode_truth holds rendered m)
  unfolding evaluate_mode mode_truth
  evaluate_mode-truth (advanced expression) read = rw read refl
  evaluate_mode-truth (ui operator items) read =
      recursive_evaluate_routing_conditions-eq-combine holds match_condition operator items read

  act-outcome :
      (g : AiRoutingConditionGroup) (a : RoutingAction) (k : ℕ)
      (rest : ℕ → Result Thrown (Option AiRoutingConditionGroup))
      → shares_traffic g ≡ false
      → (act random a k g >>= answer g rest) ≡ outcome_of a g
  unfolding act
  act-outcome g block k rest h = refl
  act-outcome g call_model k rest h = elim (Option-cases g.target) [
    | inl missing ↦ rw missing refl
    | inr (target, given) ↦ let all = rw given at h in rw (given, all) refl
  ]

  -- If none of the conditions and templates of these groups throws, and no group has a share of the
  -- traffic (or one of 0), then the first group that is switched on and matches decides, whatever is
  -- drawn: the request is blocked by it, or routed to its model, or ends with a TypeError where the
  -- group has none; without such a group the request is not routed.
  pub evaluate_routing_conditions-eq-outcome :
      (gs : List AiRoutingConditionGroup) (k : ℕ)
      → All (λ g. IsRead g.mode × (shares_traffic g ≡ false)) gs
      → evaluate_routing_conditions match_condition render random gs k
        ≡ outcome (find (is_route holds rendered) gs)
  unfolding evaluate_routing_conditions
  evaluate_routing_conditions-eq-outcome [] k h = refl
  evaluate_routing_conditions-eq-outcome (g ∷ gs) k ((read, h), hs) =
      let later = evaluate_routing_conditions-eq-outcome gs k hs in
      elim (Bool-cases (is_disabled g.enabled)) [
        | inl off ↦ rw off later
        | inr on ↦
            rw (on, evaluate_mode-truth g.mode read)
              (elim (Bool-cases (mode_truth holds rendered g.mode)) [
                | inl hit ↦ rw hit (act-outcome g g.action k _ h)
                | inr miss ↦ rw miss later
              ])
      ]
