-- ===== src/Role.antt =====
-- packages/api/src/role/role.service.ts: `validate`, which decides whether a user may act, over the
-- policies of role/entities/role.entity.ts.
-- The tables of roles and of their members are lists, as the database answers. What a regular
-- expression matches is decided by the engine, which is a parameter.
pub mod Decision
pub mod Members
pub mod Membership
pub mod Cache
mod Tests
use Prim.Native.Char.{Char, code}
use Prim.Native.String
use Prim.Native.String.{String, [], ◌∷◌, ◌++◌}
use open_vm_x_ai.Common.{
  ℕ, Bool, true, false, Option, none, some, List, Result, ok, err, ◌>>=◌, or_throw, ◌==◌,
  if◌then◌else◌, find, str_eq,
}
use open_vm_x_ai.Common

pub data RolePolicyEffect : Type 0 where
  allow deny : RolePolicyEffect

pub record RolePolicyStatement : Type 0 where
  pub effect : RolePolicyEffect
  pub actions : List String
  pub resources : List String

pub record RoleEntity : Type 0 where
  pub role_id : String
  pub statements : List RolePolicyStatement

pub record UserRoleEntity : Type 0 where
  pub user_id : String
  pub role_id : String

pub data RoleError : Type 0 where
  not_authorized role_not_found : RoleError

-- `s.replace(/\*/g, '.*').replace(/\?/g, '.')`. The first replacement brings in no `?`.
unfoldable pub wildcard_to_regex : String → String
wildcard_to_regex [] = []
wildcard_to_regex (c ∷ s) =
    if code c == b'*'
    then ".*" ++ wildcard_to_regex s
    else if code c == b'?'
    then "." ++ wildcard_to_regex s
    else c ∷ wildcard_to_regex s

-- `getById` with `throwOnNotFound`.
unfoldable pub get_by_id : List RoleEntity → String → Result RoleError RoleEntity
get_by_id roles id = or_throw (find (λ r. str_eq r.role_id id) roles) role_not_found

-- `regex_test pattern s` is `new RegExp(pattern).test(s)`.
module _ (regex_test : String → String → Bool) where
  abbrev pub matches : String → String → Bool
  matches wildcard s = regex_test (wildcard_to_regex wildcard) s

  -- The loop over `statement.resources`: whether it returns or throws.
  unfoldable pub any_resource : String → List String → Bool
  any_resource resource Common.[] = false
  any_resource resource (Common.◌∷◌ r rs) =
      let rest = any_resource resource rs in if matches r resource then true else rest

  -- The loop over `statement.actions`, with that over the resources in it.
  unfoldable pub any_action : String → String → List String → List String → Bool
  any_action action resource resources Common.[] = false
  any_action action resource resources (Common.◌∷◌ a others) =
      let rest = any_action action resource resources others in
      if matches a action then (if any_resource resource resources then true else rest) else rest

  -- The loop over `role.policy.statements`: the effect that it ends with, if any.
  unfoldable pub statements_effect :
      String → String → List RolePolicyStatement → Option RolePolicyEffect
  statements_effect action resource Common.[] = none
  statements_effect action resource (Common.◌∷◌ s ss) =
      let rest = statements_effect action resource ss in
      if any_action action resource s.resources s.actions then some s.effect else rest

  -- What a matching statement does.
  abbrev pub apply_effect : RolePolicyEffect → Result RoleError (Unit {0})
  apply_effect deny = err not_authorized
  apply_effect allow = ok tt

  -- The loop goes on with the next role if no statement of this one matched.
  abbrev pub effect_or :
      Option RolePolicyEffect → Result RoleError (Unit {0}) → Result RoleError (Unit {0})
  effect_or (some effect) rest = apply_effect effect
  effect_or none rest = rest

  -- The loop over the roles of the user; below it the call is refused.
  unfoldable pub validate_roles :
      List RoleEntity → String → String → List String → Result RoleError (Unit {0})
  validate_roles roles action resource Common.[] = err not_authorized
  validate_roles roles action resource (Common.◌∷◌ id ids) = do
    role ← get_by_id roles id
    effect_or (statements_effect action resource role.statements)
        (validate_roles roles action resource ids)
