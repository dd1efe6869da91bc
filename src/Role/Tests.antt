-- ===== src/Role/Tests.antt =====
-- The policies of a user on concrete roles, with a matcher that knows three patterns.
use open_vm_x_ai.Common.{
  ◌≡◌, refl, Bool, ◌&&◌, ◌||◌, String, List, [], ◌∷◌, err, str_eq, find, none,
}
use open_vm_x_ai.Role.Cache.{RoleStore}
use open_vm_x_ai.Role.Cache.Keeps.{IsFresh}
use open_vm_x_ai.Role.Cache.Refines.{
  Operation, do_read_rows, do_unassign, run_operations, answers_of, tables,
  run_operations-eq-answers_of,
}
use open_vm_x_ai.Role.{
  UserRoleEntity, allow, deny, RolePolicyStatement, RoleEntity, not_authorized, wildcard_to_regex,
  get_by_id, any_resource, any_action, statements_effect, validate_roles,
}
use open_vm_x_ai.Role.Decision.{is_about, verdict, validate_roles-eq-verdict}

abbrev some_patterns : String → String → Bool
some_patterns pattern s =
    str_eq pattern ".*" || str_eq pattern s || (str_eq pattern "role:.*" && str_eq s "role:list")

abbrev everything : RolePolicyStatement
everything = record { effect = allow; actions = "*" ∷ []; resources = "*" ∷ [] }

abbrev no_roles : RolePolicyStatement
no_roles = record { effect = deny; actions = "role:*" ∷ []; resources = "*" ∷ [] }

abbrev admin : RoleEntity
admin = record { role_id = "r1"; statements = everything ∷ [] }

abbrev restricted : RoleEntity
restricted = record { role_id = "r2"; statements = no_roles ∷ [] }

abbrev two_roles : List RoleEntity
two_roles = admin ∷ restricted ∷ []

validate_roles-eq-verdict_example :
    validate_roles some_patterns two_roles "role:list" "*" ("r2" ∷ "r1" ∷ [])
    ≡ verdict (find (is_about some_patterns "role:list" "*") (no_roles ∷ everything ∷ []))
unfolding get_by_id
validate_roles-eq-verdict_example =
    validate_roles-eq-verdict some_patterns "role:list" "*" two_roles ("r2" ∷ "r1" ∷ [])
      (restricted ∷ admin ∷ []) (refl, (refl, tt))

denied_first :
    validate_roles some_patterns two_roles "role:list" "*" ("r2" ∷ "r1" ∷ []) ≡ err not_authorized
unfolding validate_roles statements_effect any_action any_resource wildcard_to_regex get_by_id
denied_first = refl

abbrev a_membership : UserRoleEntity
a_membership = record { user_id = "ann"; role_id = "r1" }

abbrev no_caches : RoleStore
no_caches = record {
  roles = [];
  rows = a_membership ∷ [];
  cached_rows = λ u. none;
  cached_roles = λ r i m. none;
}

no_caches-IsFresh : IsFresh no_caches
no_caches-IsFresh = (λ u v h. cc h, λ r i m v h. cc h)

-- Ann's rows are read and cached before she is taken from the role.
abbrev some_operations : List Operation
some_operations = do_read_rows "ann" ∷ do_unassign "r1" ("ann" ∷ []) ∷ do_read_rows "ann" ∷ []

run_operations-eq-answers_of_example :
    run_operations some_operations no_caches ≡ answers_of some_operations (tables no_caches)
run_operations-eq-answers_of_example =
    run_operations-eq-answers_of some_operations no_caches no_caches-IsFresh
