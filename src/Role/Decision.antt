-- ===== src/Role/Decision.antt =====
-- How `validate` decides: the first statement that matches, in the order of the user's roles and of
-- the statements in each, and a refusal if none does.
use open_vm_x_ai.Common.{
  ◌≡◌, refl, sym, ◌∙◌, Bool, true, false, ◌&&◌, Option, none, some, String, List, [], ◌∷◌, ◌++◌,
  Result, ok, err, find, any, All, Bool-cases, inl, inr, arith,
}
use open_vm_x_ai.Role.{
  RolePolicyEffect, allow, deny, RolePolicyStatement, RoleEntity, RoleError, not_authorized,
  get_by_id, matches, any_resource, any_action, statements_effect, effect_or, validate_roles,
}

-- A statement is about a call if some action and some resource of it match.
unfoldable pub is_about : (String → String → Bool) → String → String → RolePolicyStatement → Bool
is_about regex_test action resource s =
    any (λ a. matches regex_test a action) s.actions
    && any (λ r. matches regex_test r resource) s.resources

-- All statements of the roles, in the order in which they are looked at.
abbrev pub all_statements : List RoleEntity → List RolePolicyStatement
all_statements [] = []
all_statements (r ∷ rs) = r.statements ++ all_statements rs

-- What the first statement about the call says; a refusal if there is none.
abbrev pub verdict : Option RolePolicyStatement → Result RoleError (Unit {0})
verdict none = err not_authorized
verdict (some s) = elim s.effect [ deny ↦ err not_authorized | allow ↦ ok tt ]

-- The ids stand for the roles, one by one.
abbrev pub AreRoles : List RoleEntity → List String → List RoleEntity → Type 0
AreRoles roles [] [] = Unit
AreRoles roles (i ∷ is) (r ∷ rs) = (get_by_id roles i ≡ ok r) × AreRoles roles is rs
AreRoles roles _ _ = ⊥

module _ (regex_test : String → String → Bool) (action resource : String) where
  any_resource-any :
      (rs : List String)
      → any_resource regex_test resource rs ≡ any (λ r. matches regex_test r resource) rs
  unfolding any_resource
  any_resource-any [] = refl
  any_resource-any (r ∷ rs) = ground (arith, any_resource-any rs)

  any_action-any :
      (rs acts : List String)
      → any_action regex_test action resource rs acts ≡ (
          any (λ a. matches regex_test a action) acts
          && any (λ r. matches regex_test r resource) rs)
  unfolding any_action
  any_action-any rs [] = refl
  any_action-any rs (a ∷ acts) = ground (arith, any_resource-any rs, any_action-any rs acts)

  abbrev effect_of : Option RolePolicyStatement → Option RolePolicyEffect
  effect_of none = none
  effect_of (some s) = some s.effect

  statements_effect-find :
      (ss : List RolePolicyStatement)
      → statements_effect regex_test action resource ss
        ≡ effect_of (find (is_about regex_test action resource) ss)
  unfolding statements_effect is_about
  statements_effect-find [] = refl
  statements_effect-find (s ∷ ss) =
      rw (any_action-any s.resources s.actions) (ground (arith, statements_effect-find ss))

  -- Where the statements of the first role say nothing, those of the others decide.
  verdict-append :
      (xs ys : List RolePolicyStatement)
      → verdict (find (is_about regex_test action resource) (xs ++ ys))
        ≡ elim (find (is_about regex_test action resource) xs) [
          | some s ↦ verdict (some s)
          | none ↦ verdict (find (is_about regex_test action resource) ys)
        ]
  verdict-append [] ys = refl
  verdict-append (x ∷ xs) ys = elim (Bool-cases (is_about regex_test action resource x)) [
    | inl yes_about ↦ rw yes_about refl
    | inr not_about ↦ rw not_about (verdict-append xs ys)
  ]

  -- The nested loops of `validate` come to one rule: of all statements of the user's roles, in order,
  -- the first with a matching action and a matching resource decides, by its effect, and whatever
  -- stands behind it is not looked at; without such a statement the call is refused. (The roles are
  -- those that the ids of the user's memberships stand for.)
  pub validate_roles-eq-verdict :
      (roles : List RoleEntity) (ids : List String) (rs : List RoleEntity)
      → AreRoles roles ids rs
      → validate_roles regex_test roles action resource ids
        ≡ verdict (find (is_about regex_test action resource) (all_statements rs))
  unfolding validate_roles
  validate_roles-eq-verdict roles [] [] h = refl
  validate_roles-eq-verdict roles (i ∷ is) (r ∷ rs) (found, h) = rw found (
      rw (statements_effect-find r.statements) (
        decide_by (find (is_about regex_test action resource) r.statements)
          (validate_roles-eq-verdict roles is rs h)
        ∙ sym (verdict-append r.statements (all_statements rs))))
    where
      decide_by :
          (o : Option RolePolicyStatement) {a b : Result RoleError (Unit {0})}
          → a ≡ b
          → ◌≡◌ {A = Result RoleError (Unit {0})}
              (effect_or regex_test (effect_of o) a)
              (elim o [ some s ↦ verdict (some s) | none ↦ b ])
      decide_by none e = e
      decide_by (some s) e = ground arith
  validate_roles-eq-verdict roles (i ∷ is) [] h = elim h [ ]
  validate_roles-eq-verdict roles [] (r ∷ rs) h = elim h [ ]

  -- A matching statement that denies does not help behind one that allows: if a statement that allows
  -- the call comes before every statement that denies it, the call is allowed.
  pub deny_after_allow :
      (roles : List RoleEntity) (ids : List String) (rs : List RoleEntity)
      (before after : List RolePolicyStatement) (s : RolePolicyStatement)
      → AreRoles roles ids rs
      → all_statements rs ≡ before ++ s ∷ after
      → All (λ t. is_about regex_test action resource t ≡ false) before
      → is_about regex_test action resource s ≡ true
      → s.effect ≡ allow
      → validate_roles regex_test roles action resource ids ≡ ok tt
  deny_after_allow roles ids rs before after s h split none_before about allows =
      validate_roles-eq-verdict roles ids rs h ∙ rw split (first_allows before none_before)
    where
      first_allows :
          (ts : List RolePolicyStatement)
          → All (λ t. is_about regex_test action resource t ≡ false) ts
          → verdict (find (is_about regex_test action resource) (ts ++ s ∷ after)) ≡ ok tt
      first_allows [] h = rw (about, allows) refl
      first_allows (t ∷ ts) (miss, h) = rw miss (first_allows ts h)
