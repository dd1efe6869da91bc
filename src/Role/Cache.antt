-- ===== src/Role/Cache.antt =====
-- The caches of packages/api/src/role/role.service.ts: the rows of a user, and the roles by the four
-- keys that tell which users are included. (The users' names are left out of the entities.)
pub mod Fresh
pub mod Keeps
pub mod Refines
use open_vm_x_ai.Common.{
  Bool, true, false, not, Option, none, some, String, List, [], ◌∷◌, ◌++◌, map, filter, find,
  includes, str_eq, if◌then◌else◌,
}
use open_vm_x_ai.Role.{RolePolicyStatement, RoleEntity, UserRoleEntity}
use open_vm_x_ai.Role.Members.{get_roles_by_user_id, assign_users_to_role, unassign_users_from_role}

-- A role as `getById` gives it: with its members if they are included.
pub record RoleResult : Type 0 where
  pub role : RoleEntity
  pub members : Option (List UserRoleEntity)

-- The two tables, and what the cache has: nothing under a key is `none`, as is `undefined`.
pub record RoleStore : Type 0 where
  pub roles : List RoleEntity
  pub rows : List UserRoleEntity
  pub cached_rows : String → Option (List UserRoleEntity)
  pub cached_roles : String → Bool → Bool → Option RoleResult

abbrev pub members_of : String → List UserRoleEntity → List UserRoleEntity
members_of role_id rows = filter (λ r. str_eq r.role_id role_id) rows

abbrev pub role_result : Option RoleEntity → Option (List UserRoleEntity) → Option RoleResult
role_result none members = none
role_result (some role) members = some (record { role = role; members = members })

-- The query of `getById`.
abbrev pub select_role : List RoleEntity → List UserRoleEntity → String → Bool → Option RoleResult
select_role roles rows role_id includes_members =
    role_result (find (λ r. str_eq r.role_id role_id) roles)
      (if includes_members then some (members_of role_id rows) else none)

-- `mdel` of keys by users, and of the four keys of a role.
abbrev pub forget_users :
    List String → (String → Option (List UserRoleEntity)) → String → Option (List UserRoleEntity)
forget_users user_ids cache u = if includes user_ids u then none else cache u

abbrev pub forget_role :
    String → (String → Bool → Bool → Option RoleResult) → String → Bool → Bool → Option RoleResult
forget_role role_id cache r i m = if str_eq role_id r then none else cache r i m

-- `cache.wrap`: what is cached, or else what the query gives.
abbrev pub cached_or {ℓ} : {A : Type ℓ} → Option A → Option A → Option A
cached_or none queried = queried
cached_or (some a) queried = some a

abbrev pub rows_or : Option (List UserRoleEntity) → List UserRoleEntity → List UserRoleEntity
rows_or none queried = queried
rows_or (some rows) queried = rows

-- `getRolesByUserId`.
unfoldable pub read_roles_by_user_id : String → RoleStore → List UserRoleEntity × RoleStore
read_roles_by_user_id user_id s =
    let rows = rows_or (s.cached_rows user_id) (get_roles_by_user_id s.rows user_id) in
    (rows, record s { cached_rows = λ u. if str_eq user_id u then some rows else s.cached_rows u })

abbrev pub same_flag : Bool → Bool → Bool
same_flag true b = b
same_flag false b = not b

-- `getById`, where a role that is missing is `none`.
unfoldable pub read_by_id : String → Bool → Bool → RoleStore → Option RoleResult × RoleStore
read_by_id role_id includes_user includes_members s =
    let result =
      cached_or (s.cached_roles role_id includes_user includes_members)
        (select_role s.roles s.rows role_id includes_members) in
    (
      result,
      record s {
        cached_roles = λ r i m.
            if str_eq role_id r
            then (if same_flag includes_user i
                then (if same_flag includes_members m then result else s.cached_roles r i m)
                else s.cached_roles r i m)
            else s.cached_roles r i m;
      },
    )

-- `create`, of a role with its new id.
unfoldable pub create : RoleEntity → RoleStore → RoleStore
create role s = record s { roles = s.roles ++ role ∷ [] }

abbrev pub set_policy : String → List RolePolicyStatement → RoleEntity → RoleEntity
set_policy role_id statements r =
    if str_eq r.role_id role_id then record r { statements = statements } else r

unfoldable pub update : String → List RolePolicyStatement → RoleStore → RoleStore
update role_id statements s = record s {
  roles = map (set_policy role_id statements) s.roles;
  cached_roles = forget_role role_id s.cached_roles;
}

unfoldable pub assign : String → List String → RoleStore → RoleStore
assign role_id user_ids s = record s {
  rows = assign_users_to_role role_id user_ids s.rows;
  cached_rows = forget_users user_ids s.cached_rows;
  cached_roles = forget_role role_id s.cached_roles;
}

unfoldable pub unassign : String → List String → RoleStore → RoleStore
unassign role_id user_ids s = record s {
  rows = unassign_users_from_role role_id user_ids s.rows;
  cached_rows = forget_users user_ids s.cached_rows;
  cached_roles = forget_role role_id s.cached_roles;
}

-- `delete`; the rows of the role go with it.
unfoldable pub delete : String → RoleStore → RoleStore
delete role_id s = record s {
  roles = filter (λ r. not (str_eq r.role_id role_id)) s.roles;
  rows = filter (λ r. not (str_eq r.role_id role_id)) s.rows;
  cached_rows = forget_users (map (λ r. r.user_id) (members_of role_id s.rows)) s.cached_rows;
  cached_roles = forget_role role_id s.cached_roles;
}
