-- ===== src/Role/Cache/Refines.antt =====
-- The answers of packages/api/src/role/role.service.ts with its caches, compared with those of the
-- service without.
use open_vm_x_ai.Common.{
  ◌≡◌, refl, ap, Bool, not, Option, String, List, [], ◌∷◌, ◌++◌, map, filter, str_eq,
}
use open_vm_x_ai.Role.{RolePolicyStatement, RoleEntity, UserRoleEntity}
use open_vm_x_ai.Role.Members.{get_roles_by_user_id, assign_users_to_role, unassign_users_from_role}
use open_vm_x_ai.Role.Cache.{
  RoleResult, RoleStore, select_role, read_roles_by_user_id, read_by_id, create, set_policy, update,
  assign, unassign, delete,
}
use open_vm_x_ai.Role.Cache.Keeps.{
  IsFresh, assign-IsFresh, unassign-IsFresh, delete-IsFresh, update-IsFresh, create-IsFresh,
  read_rows-answer, read_role-answer, read_rows-IsFresh, read_role-IsFresh,
}

-- The operations, and their answers: the reads answer, the writes answer nothing.
pub data Operation : Type 0 where
  do_read_rows : String → Operation
  do_read_by_id : String → Bool → Bool → Operation
  do_create : RoleEntity → Operation
  do_update : String → List RolePolicyStatement → Operation
  do_assign : String → List String → Operation
  do_unassign : String → List String → Operation
  do_delete : String → Operation

pub data Answer : Type 0 where
  no_answer : Answer
  rows_answer : List UserRoleEntity → Answer
  role_answer : Option RoleResult → Answer

abbrev pub run_operation : Operation → RoleStore → Answer × RoleStore
run_operation (do_read_rows u) s = let out = read_roles_by_user_id u s in (rows_answer out.0, out.1)
run_operation (do_read_by_id r i m) s = let out = read_by_id r i m s in (role_answer out.0, out.1)
run_operation (do_create x) s = (no_answer, create x s)
run_operation (do_update r statements) s = (no_answer, update r statements s)
run_operation (do_assign r us) s = (no_answer, assign r us s)
run_operation (do_unassign r us) s = (no_answer, unassign r us s)
run_operation (do_delete r) s = (no_answer, delete r s)

abbrev pub run_operations : List Operation → RoleStore → List Answer
run_operations [] s = []
run_operations (o ∷ os) s = let out = run_operation o s in out.0 ∷ run_operations os out.1

-- The service without caches, on the two tables.
abbrev pub Tables : Type 0
Tables = List RoleEntity × List UserRoleEntity

abbrev pub tables : RoleStore → Tables
tables s = (s.roles, s.rows)

abbrev pub answer_of : Operation → Tables → Answer
answer_of (do_read_rows u) t = rows_answer (get_roles_by_user_id t.1 u)
answer_of (do_read_by_id r i m) t = role_answer (select_role t.0 t.1 r m)
answer_of _ t = no_answer

abbrev pub write : Operation → Tables → Tables
write (do_create x) (roles, rows) = (roles ++ x ∷ [], rows)
write (do_update r statements) (roles, rows) = (map (set_policy r statements) roles, rows)
write (do_assign r us) (roles, rows) = (roles, assign_users_to_role r us rows)
write (do_unassign r us) (roles, rows) = (roles, unassign_users_from_role r us rows)
write (do_delete r) (roles, rows) =
    (filter (λ x. not (str_eq x.role_id r)) roles, filter (λ x. not (str_eq x.role_id r)) rows)
write (do_read_rows _) t = t
write (do_read_by_id _ _ _) t = t

abbrev pub answers_of : List Operation → Tables → List Answer
answers_of [] t = []
answers_of (o ∷ os) t = answer_of o t ∷ answers_of os (write o t)

run_operation-Refines :
    (o : Operation) (s : RoleStore)
    → IsFresh s
    → ((run_operation o s).0 ≡ answer_of o (tables s))
      × (tables (run_operation o s).1 ≡ write o (tables s))
      × IsFresh (run_operation o s).1
unfolding read_roles_by_user_id read_by_id create update assign unassign delete
run_operation-Refines (do_read_rows u) s f =
    (ap rows_answer (read_rows-answer u s f), refl, read_rows-IsFresh u s f)
run_operation-Refines (do_read_by_id r i m) s f =
    (ap role_answer (read_role-answer r i m s f), refl, read_role-IsFresh r i m s f)
run_operation-Refines (do_create x) s f = (refl, refl, create-IsFresh x s f)
run_operation-Refines (do_update r statements) s f = (refl, refl, update-IsFresh r statements s f)
run_operation-Refines (do_assign r us) s f = (refl, refl, assign-IsFresh r us s f)
run_operation-Refines (do_unassign r us) s f = (refl, refl, unassign-IsFresh r us s f)
run_operation-Refines (do_delete r) s f = (refl, refl, delete-IsFresh r s f)

-- In any sequence of operations one after the other, the service with its caches gives the answers
-- that it would give without them, if the caches hold what the tables hold at the start.
pub run_operations-eq-answers_of :
    (os : List Operation) (s : RoleStore)
    → IsFresh s
    → run_operations os s ≡ answers_of os (tables s)
run_operations-eq-answers_of [] s f = refl
run_operations-eq-answers_of (o ∷ os) s f =
    let (answer, after, fresh) = run_operation-Refines o s f in
    let later = run_operations-eq-answers_of os (run_operation o s).1 fresh in
    rw (answer, later, after) refl
