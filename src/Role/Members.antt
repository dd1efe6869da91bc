-- ===== src/Role/Members.antt =====
-- The membership of users in packages/api/src/role/role.service.ts: `getRolesByUserId`,
-- `assignUsersToRole` and `unassignUsersFromRole`, over the rows of `user_roles`.
use open_vm_x_ai.Common.{
  Bool, not, ◌&&◌, String, List, [], ◌∷◌, ◌++◌, map, Result, filter, any, includes, str_eq,
  if◌then◌else◌,
}
use open_vm_x_ai.Role.{UserRoleEntity, RoleEntity, RoleError, validate_roles}

-- `getRolesByUserId`, and the ids that `validate` takes from it.
unfoldable pub get_roles_by_user_id : List UserRoleEntity → String → List UserRoleEntity
get_roles_by_user_id rows user_id = filter (λ r. str_eq r.user_id user_id) rows

abbrev pub same_row : UserRoleEntity → UserRoleEntity → Bool
same_row a b = str_eq a.user_id b.user_id && str_eq a.role_id b.role_id

-- An insert that does nothing on a conflict of the key (role, user).
unfoldable pub insert_row : UserRoleEntity → List UserRoleEntity → List UserRoleEntity
insert_row row rows = if any (same_row row) rows then rows else rows ++ row ∷ []

unfoldable pub assign_users_to_role :
    String → List String → List UserRoleEntity → List UserRoleEntity
unfolding insert_row
assign_users_to_role role_id [] rows = rows
assign_users_to_role role_id (u ∷ us) rows =
    assign_users_to_role role_id us (insert_row (record { user_id = u; role_id = role_id }) rows)

unfoldable pub unassign_users_from_role :
    String → List String → List UserRoleEntity → List UserRoleEntity
unassign_users_from_role role_id user_ids rows =
    filter (λ r. not (str_eq r.role_id role_id && includes user_ids r.user_id)) rows

module _ (regex_test : String → String → Bool) where
  -- `validate`.
  unfoldable pub validate :
      List RoleEntity → List UserRoleEntity → String → String → String → Result RoleError (Unit {0})
  unfolding get_roles_by_user_id
  validate roles rows user_id action resource =
      validate_roles regex_test roles action resource
        (map (λ r. r.role_id) (get_roles_by_user_id rows user_id))
