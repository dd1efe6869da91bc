-- ===== src/Role/Cache/Fresh.antt =====
-- What the caches of packages/api/src/role/role.service.ts hold is what the tables hold.
use open_vm_x_ai.Common.{
  ◌≡◌, refl, sym, ◌∙◌, subst, Bool, true, false, not, ◌||◌, some, String, List, [], ◌∷◌, ◌++◌, map,
  filter, find, includes, any, str_eq, eq_iff, eq_refl, Bool-cases, inl, inr, arith,
}
use open_vm_x_ai.Role.{RolePolicyStatement, RoleEntity, UserRoleEntity}
use open_vm_x_ai.Role.Members.{same_row, insert_row, assign_users_to_role}
use open_vm_x_ai.Role.Cache.{members_of, set_policy}

filter-append_out :
    (p : UserRoleEntity → Bool) (rows : List UserRoleEntity) (row : UserRoleEntity)
    → p row ≡ false
    → filter p (rows ++ row ∷ []) ≡ filter p rows
filter-append_out p [] row h = rw h refl
filter-append_out p (x ∷ rows) row h = rw (filter-append_out p rows row h) refl

filter-insert_row :
    (p : UserRoleEntity → Bool) (rows : List UserRoleEntity) (row : UserRoleEntity)
    → p row ≡ false
    → filter p (insert_row row rows) ≡ filter p rows
unfolding insert_row
filter-insert_row p rows row h = elim (Bool-cases (any (same_row row) rows)) [
  | inl there ↦ rw there refl
  | inr new ↦ rw new (filter-append_out p rows row h)
]

-- Rows that a test does not pass do not change what it filters out.
pub filter-assign :
    (p : UserRoleEntity → Bool) (role_id : String) (user_ids : List String)
    (rows : List UserRoleEntity)
    → ((u : String)
        → includes user_ids u ≡ true
        → p (record { user_id = u; role_id = role_id }) ≡ false)
    → filter p (assign_users_to_role role_id user_ids rows) ≡ filter p rows
unfolding assign_users_to_role
filter-assign p role_id [] rows h = refl
filter-assign p role_id (u ∷ us) rows h =
    filter-assign p role_id us (insert_row (record { user_id = u; role_id = role_id }) rows)
      (λ v e. h v (rw e (ground arith)))
    ∙ filter-insert_row p rows (record { user_id = u; role_id = role_id })
        (h u (rw (eq_refl u) refl))

pub filter-filter :
    (p q : UserRoleEntity → Bool) (rows : List UserRoleEntity)
    → ((x : UserRoleEntity) → q x ≡ false → p x ≡ false)
    → filter p (filter q rows) ≡ filter p rows
filter-filter p q [] h = refl
filter-filter p q (x ∷ rows) h = elim (Bool-cases (q x)) [
  | inl keep ↦ rw (keep, filter-filter p q rows h) refl
  | inr drop ↦ rw (drop, h x drop) (filter-filter p q rows h)
]

-- The rows of a user who has none of a role stay when those of the role go.
pub filter-delete :
    (role_id u : String) (rows : List UserRoleEntity)
    → includes (map (λ r. r.user_id) (members_of role_id rows)) u ≡ false
    → filter (λ r. str_eq r.user_id u) (filter (λ r. not (str_eq r.role_id role_id)) rows)
      ≡ filter (λ r. str_eq r.user_id u) rows
filter-delete role_id u [] h = refl
filter-delete role_id u (x ∷ rows) h = elim (Bool-cases (str_eq x.role_id role_id)) [
  | inr other ↦ rw (other, filter-delete role_id u rows (rw other at h)) refl
  | inl of_role ↦
      let both : (str_eq x.user_id u || includes (map (λ r. r.user_id) (members_of role_id rows)) u)
          ≡ false =
        rw of_role at h in
      let not_his : str_eq x.user_id u ≡ false = ground (arith, both) in
      rw (of_role, not_his) (filter-delete role_id u rows (ground (arith, both)))
]

pub find-append :
    (p : RoleEntity → Bool) (roles : List RoleEntity) (role found : RoleEntity)
    → find p roles ≡ some found
    → find p (roles ++ role ∷ []) ≡ some found
find-append p [] role found h = cc h
find-append p (x ∷ roles) role found h = elim (Bool-cases (p x)) [
  | inl here ↦ rw here (rw here at h)
  | inr later ↦ rw later (find-append p roles role found (rw later at h))
]

pub find-set_policy :
    (role_id r : String) (statements : List RolePolicyStatement) (roles : List RoleEntity)
    → str_eq role_id r ≡ false
    → find (λ x. str_eq x.role_id r) (map (set_policy role_id statements) roles)
      ≡ find (λ x. str_eq x.role_id r) roles
find-set_policy role_id r statements [] h = refl
find-set_policy role_id r statements (x ∷ roles) h = elim (Bool-cases (str_eq x.role_id role_id)) [
  | inr other ↦ rw (other, find-set_policy role_id r statements roles h) refl
  | inl same ↦
      let not_r : str_eq x.role_id r ≡ false =
        subst (λ y. str_eq y r ≡ false) (sym ((eq_iff x.role_id role_id).0 same)) h in
      rw (same, not_r) (find-set_policy role_id r statements roles h)
]

pub find-delete :
    (role_id r : String) (roles : List RoleEntity)
    → str_eq role_id r ≡ false
    → find (λ x. str_eq x.role_id r) (filter (λ x. not (str_eq x.role_id role_id)) roles)
      ≡ find (λ x. str_eq x.role_id r) roles
find-delete role_id r [] h = refl
find-delete role_id r (x ∷ roles) h = elim (Bool-cases (str_eq x.role_id role_id)) [
  | inr other ↦ rw (other, find-delete role_id r roles h) refl
  | inl same ↦
      let not_r : str_eq x.role_id r ≡ false =
        subst (λ y. str_eq y r ≡ false) (sym ((eq_iff x.role_id role_id).0 same)) h in
      rw (same, not_r) (find-delete role_id r roles h)
]
