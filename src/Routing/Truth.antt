-- ===== src/Routing/Truth.antt =====
-- What the routing decides, where reading a condition or a template does not throw.
use open_vm_x_ai.Common.{
  ◌≡◌, refl, Bool, true, false, ◌&&◌, ◌||◌, List, [], ◌∷◌, Result, ok, if◌then◌else◌, Bool-cases,
  inl, inr,
}
use open_vm_x_ai.Completion.Records.{Thrown}
use open_vm_x_ai.Routing.{
  RoutingOperator, and_operator, or_operator, AiResourceRoutingCondition, RoutingItem, RoutingItems,
  condition, group, no_items, item, is_disabled, evaluate_item, evaluate_and, evaluate_or,
  recursive_evaluate_routing_conditions,
}

-- All of some truths, and any of them.
abbrev pub conjunction : List Bool → Bool
conjunction [] = true
conjunction (b ∷ bs) = b && conjunction bs

abbrev pub disjunction : List Bool → Bool
disjunction [] = false
disjunction (b ∷ bs) = b || disjunction bs

abbrev pub combine : RoutingOperator → List Bool → Bool
combine and_operator = conjunction
combine or_operator = disjunction

and_step :
    (b : Bool) {c : Bool} {rest : Result Thrown Bool}
    → rest ≡ ok c
    → ◌≡◌ {A = Result Thrown Bool} (if b then rest else ok false) (ok (b && c))
and_step true h = h
and_step false h = refl

or_step :
    (b : Bool) {c : Bool} {rest : Result Thrown Bool}
    → rest ≡ ok c
    → ◌≡◌ {A = Result Thrown Bool} (if b then ok true else rest) (ok (b || c))
or_step true h = refl
or_step false h = h

module _ (holds : AiResourceRoutingCondition → Bool) where
  -- The truth of an item, and the truths of the items that are not switched off.
  unfoldable mutual
    pub truth : RoutingItem → Bool
    truth (condition c) = holds c
    truth (group _ operator items) = combine operator (truths items)

    pub truths : RoutingItems → List Bool
    truths no_items = []
    truths (item (condition c) items) = holds c ∷ truths items
    truths (item (group enabled operator inner) items) =
        let rest = truths items in
        let here = combine operator (truths inner) in
        if is_disabled enabled then rest else here ∷ rest

  module _ (match_condition : AiResourceRoutingCondition → Result Thrown Bool) where
    -- None of the conditions of these items throws, and each gives its truth.
    abbrev mutual
      pub Agrees : RoutingItem → Type 0
      Agrees (condition c) = match_condition c ≡ ok (holds c)
      Agrees (group _ _ items) = AllAgree items

      pub AllAgree : RoutingItems → Type 0
      AllAgree no_items = Unit
      AllAgree (item i items) = Agrees i × AllAgree items

    mutual
      unfolding evaluate_item truth

      evaluate_item-truth :
          (i : RoutingItem) → Agrees i → evaluate_item match_condition i ≡ ok (truth i)
      evaluate_item-truth (condition c) a = a
      evaluate_item-truth (group _ and_operator items) a = evaluate_and-truths items a
      evaluate_item-truth (group _ or_operator items) a = evaluate_or-truths items a

      evaluate_and-truths :
          (items : RoutingItems)
          → AllAgree items
          → evaluate_and match_condition items ≡ ok (conjunction (truths items))
      evaluate_and-truths no_items a = refl
      evaluate_and-truths (item (condition c) items) (matches, a) =
          let rest = evaluate_and-truths items a in rw matches (and_step (holds c) rest)
      evaluate_and-truths (item (group enabled operator inner) items) (inside, a) =
          let rest = evaluate_and-truths items a in
          let here = evaluate_item-truth (group enabled operator inner) inside in
          elim (Bool-cases (is_disabled enabled)) [
            | inl off ↦ rw off rest
            | inr on ↦ rw (on, here) (and_step (combine operator (truths inner)) rest)
          ]

      evaluate_or-truths :
          (items : RoutingItems)
          → AllAgree items
          → evaluate_or match_condition items ≡ ok (disjunction (truths items))
      evaluate_or-truths no_items a = refl
      evaluate_or-truths (item (condition c) items) (matches, a) =
          let rest = evaluate_or-truths items a in rw matches (or_step (holds c) rest)
      evaluate_or-truths (item (group enabled operator inner) items) (inside, a) =
          let rest = evaluate_or-truths items a in
          let here = evaluate_item-truth (group enabled operator inner) inside in
          elim (Bool-cases (is_disabled enabled)) [
            | inl off ↦ rw off rest
            | inr on ↦ rw (on, here) (or_step (combine operator (truths inner)) rest)
          ]

    -- If none of the conditions of the group throws, the loops that stop early compute the plain meaning of a
    -- group: all of its items for `AND`, any of them for `OR`, at every depth, where groups that are
    -- switched off do not count; so an `AND` of none is true and an `OR` of none is false.
    pub recursive_evaluate_routing_conditions-eq-combine :
        (operator : RoutingOperator) (items : RoutingItems)
        → AllAgree items
        → recursive_evaluate_routing_conditions match_condition operator items
          ≡ ok (combine operator (truths items))
    unfolding recursive_evaluate_routing_conditions
    recursive_evaluate_routing_conditions-eq-combine and_operator items a =
        evaluate_and-truths items a
    recursive_evaluate_routing_conditions-eq-combine or_operator items a =
        evaluate_or-truths items a
