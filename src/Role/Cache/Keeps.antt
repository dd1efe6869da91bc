-- ===== src/Role/Cache/Keeps.antt =====
-- Each operation of packages/api/src/role/role.service.ts keeps the caches true to the tables.
use open_vm_x_ai.Common.{
  ◌≡◌, refl, sym, ap, ◌∙◌, subst, Bool, true, false, Option, some, String, List, [], ◌∷◌, ◌++◌, map,
  find, includes, str_eq, eq_iff, Bool-cases, Option-cases, inl, inr, arith,
}
use open_vm_x_ai.Role.{RolePolicyStatement, RoleEntity, UserRoleEntity}
use open_vm_x_ai.Role.Members.{get_roles_by_user_id, unassign_users_from_role}
use open_vm_x_ai.Role.Cache.{
  RoleResult, RoleStore, members_of, select_role, forget_users, forget_role, cached_or, rows_or,
  read_roles_by_user_id, read_by_id, create, update, assign, unassign, delete, same_flag,
}
use open_vm_x_ai.Role.Cache.Fresh.{
  filter-assign, filter-filter, filter-delete, find-append, find-set_policy, find-delete,
}

-- What is cached is what the tables give.
abbrev pub FreshRows : List UserRoleEntity → (String → Option (List UserRoleEntity)) → Type 0
FreshRows rows cache =
    (u : String) (v : List UserRoleEntity) → cache u ≡ some v → v ≡ get_roles_by_user_id rows u

abbrev pub FreshRoles :
    List RoleEntity → List UserRoleEntity → (String → Bool → Bool → Option RoleResult) → Type 0
FreshRoles roles rows cache =
    (r : String) (i m : Bool) (v : RoleResult)
    → cache r i m ≡ some v
    → select_role roles rows r m ≡ some v

abbrev pub IsFresh : RoleStore → Type 0
IsFresh s = FreshRows s.rows s.cached_rows × FreshRoles s.roles s.rows s.cached_roles

kept_users :
    (us : List String) (cache : String → Option (List UserRoleEntity)) (u : String)
    (v : List UserRoleEntity)
    → forget_users us cache u ≡ some v
    → (includes us u ≡ false) × (cache u ≡ some v)
kept_users us cache u v h = elim (Bool-cases (includes us u)) [
  | inl gone ↦ cc (rw gone at h)
  | inr kept ↦ (kept, rw kept at h)
]

kept_role :
    (role_id : String) (cache : String → Bool → Bool → Option RoleResult) (r : String) (i m : Bool)
    (v : RoleResult)
    → forget_role role_id cache r i m ≡ some v
    → (str_eq role_id r ≡ false) × (cache r i m ≡ some v)
kept_role role_id cache r i m v h = elim (Bool-cases (str_eq role_id r)) [
  | inl gone ↦ cc (rw gone at h)
  | inr kept ↦ (kept, rw kept at h)
]

-- A role with the same row and the same members is selected alike.
select_role-same :
    (roles roles' : List RoleEntity) (rows rows' : List UserRoleEntity) (r : String) (m : Bool)
    → find (λ x. str_eq x.role_id r) roles' ≡ find (λ x. str_eq x.role_id r) roles
    → members_of r rows' ≡ members_of r rows
    → select_role roles' rows' r m ≡ select_role roles rows r m
select_role-same roles roles' rows rows' r m e f = rw (e, f) refl

abbrev one_row : String → String → UserRoleEntity
one_row role_id u = record { user_id = u; role_id = role_id }

str_eq-other :
    (w u : String) (vs : List String)
    → includes vs w ≡ true
    → includes vs u ≡ false
    → str_eq w u ≡ false
str_eq-other w u vs e n = elim (Bool-cases (str_eq w u)) [
  | inr other ↦ other
  | inl same ↦ cc (sym e ∙ ap (includes vs) ((eq_iff w u).0 same) ∙ n)
]

other_role :
    (x role_id r : String) → str_eq x role_id ≡ true → str_eq role_id r ≡ false → str_eq x r ≡ false
other_role x role_id r same other =
    subst (λ y. str_eq y r ≡ false) (sym ((eq_iff x role_id).0 same)) other

-- Assigning changes the rows of the users it is about, and the members of the role.
pub assign-IsFresh :
    (role_id : String) (us : List String) (s : RoleStore)
    → IsFresh s
    → IsFresh (assign role_id us s)
unfolding assign get_roles_by_user_id
assign-IsFresh role_id us s (fresh_rows, fresh_roles) = (
  λ u v h.
      let (not_in, old) = kept_users us s.cached_rows u v h in
      fresh_rows u v old
      ∙ sym (
          filter-assign (λ x. str_eq x.user_id u) role_id us s.rows
            (λ w e. str_eq-other w u us e not_in)),
  λ r i m v h.
      let (other, old) = kept_role role_id s.cached_roles r i m v h in
      select_role-same s.roles s.roles s.rows _ r m refl
        (filter-assign (λ x. str_eq x.role_id r) role_id us s.rows (λ w e. other))
      ∙ fresh_roles r i m v old,
)

pub unassign-IsFresh :
    (role_id : String) (us : List String) (s : RoleStore)
    → IsFresh s
    → IsFresh (unassign role_id us s)
unfolding unassign get_roles_by_user_id unassign_users_from_role
unassign-IsFresh role_id us s (fresh_rows, fresh_roles) = (
  λ u v h.
      let (not_in, old) = kept_users us s.cached_rows u v h in
      fresh_rows u v old
      ∙ sym (
          filter-filter (λ x. str_eq x.user_id u) _ s.rows
            (λ x e. str_eq-other x.user_id u us (ground (arith, e)) not_in)),
  λ r i m v h.
      let (other, old) = kept_role role_id s.cached_roles r i m v h in
      select_role-same s.roles s.roles s.rows _ r m refl (
        filter-filter (λ x. str_eq x.role_id r) _ s.rows
          (λ x e. other_role x.role_id role_id r (ground (arith, e)) other))
      ∙ fresh_roles r i m v old,
)

pub delete-IsFresh : (role_id : String) (s : RoleStore) → IsFresh s → IsFresh (delete role_id s)
unfolding delete get_roles_by_user_id
delete-IsFresh role_id s (fresh_rows, fresh_roles) = (
  λ u v h.
      let (not_in, old) =
        kept_users (map (λ r. r.user_id) (members_of role_id s.rows)) s.cached_rows u v h in
      fresh_rows u v old ∙ sym (filter-delete role_id u s.rows not_in),
  λ r i m v h.
      let (other, old) = kept_role role_id s.cached_roles r i m v h in
      select_role-same s.roles _ s.rows _ r m (find-delete role_id r s.roles other) (
        filter-filter (λ x. str_eq x.role_id r) _ s.rows
          (λ x e. other_role x.role_id role_id r (ground (arith, e)) other))
      ∙ fresh_roles r i m v old,
)

pub update-IsFresh :
    (role_id : String) (statements : List RolePolicyStatement) (s : RoleStore)
    → IsFresh s
    → IsFresh (update role_id statements s)
unfolding update
update-IsFresh role_id statements s (fresh_rows, fresh_roles) = (
  fresh_rows,
  λ r i m v h.
      let (other, old) = kept_role role_id s.cached_roles r i m v h in
      select_role-same s.roles _ s.rows s.rows r m
        (find-set_policy role_id r statements s.roles other) refl
      ∙ fresh_roles r i m v old,
)

select_role-create :
    (roles : List RoleEntity) (x : RoleEntity) (rows : List UserRoleEntity) (r : String) (m : Bool)
    (v : RoleResult)
    → select_role roles rows r m ≡ some v
    → select_role (roles ++ x ∷ []) rows r m ≡ some v
select_role-create roles x rows r m v h =
    elim (Option-cases (find (λ y. str_eq y.role_id r) roles)) [
      | inl missing ↦ cc (rw missing at h)
      | inr (a, found) ↦ rw (find-append (λ y. str_eq y.role_id r) roles x a found) (rw found at h)
    ]

pub create-IsFresh : (x : RoleEntity) (s : RoleStore) → IsFresh s → IsFresh (create x s)
unfolding create
create-IsFresh x s (fresh_rows, fresh_roles) =
    (fresh_rows, λ r i m v h. select_role-create s.roles x s.rows r m v (fresh_roles r i m v h))

-- A read answers what the tables hold.
pub read_rows-answer :
    (u : String) (s : RoleStore)
    → IsFresh s
    → rows_or (s.cached_rows u) (get_roles_by_user_id s.rows u) ≡ get_roles_by_user_id s.rows u
read_rows-answer u s (fresh_rows, _) = elim (Option-cases (s.cached_rows u)) [
  | inl nothing ↦ rw nothing refl
  | inr (v, cached) ↦ rw cached (fresh_rows u v cached)
]

pub read_role-answer :
    (r : String) (i m : Bool) (s : RoleStore)
    → IsFresh s
    → cached_or (s.cached_roles r i m) (select_role s.roles s.rows r m)
      ≡ select_role s.roles s.rows r m
read_role-answer r i m s (_, fresh_roles) = elim (Option-cases (s.cached_roles r i m)) [
  | inl nothing ↦ rw nothing refl
  | inr (v, cached) ↦ rw cached (sym (fresh_roles r i m v cached))
]

pub read_rows-IsFresh :
    (u : String) (s : RoleStore) → IsFresh s → IsFresh (read_roles_by_user_id u s).1
unfolding read_roles_by_user_id
read_rows-IsFresh u s (fresh_rows, fresh_roles) = (
  λ w v h. elim (Bool-cases (str_eq u w)) [
    | inr other ↦ fresh_rows w v (rw other at h)
    | inl same ↦
        let stored : some (rows_or (s.cached_rows u) (get_roles_by_user_id s.rows u)) ≡ some v =
          rw same at h in
        let value : rows_or (s.cached_rows u) (get_roles_by_user_id s.rows u) ≡ v = cc stored in
        sym value
        ∙ read_rows-answer u s (fresh_rows, fresh_roles)
        ∙ ap (get_roles_by_user_id s.rows) ((eq_iff u w).0 same)
  ],
  fresh_roles,
)

flag_eq : (a b : Bool) → same_flag a b ≡ true → a ≡ b
flag_eq true b h = sym h
flag_eq false false h = refl
flag_eq false true h = cc h

pub read_role-IsFresh :
    (r : String) (i m : Bool) (s : RoleStore) → IsFresh s → IsFresh (read_by_id r i m s).1
unfolding read_by_id
read_role-IsFresh r i m s (fresh_rows, fresh_roles) = (
  fresh_rows,
  λ w j n v h. elim (Bool-cases (str_eq r w)) [
    | inr other ↦ fresh_roles w j n v (rw other at h)
    | inl same ↦ elim (Bool-cases (same_flag i j)) [
      | inr other ↦ fresh_roles w j n v (rw (same, other) at h)
      | inl same_i ↦ elim (Bool-cases (same_flag m n)) [
        | inr other ↦ fresh_roles w j n v (rw (same, same_i, other) at h)
        | inl same_m ↦
            let stored : cached_or (s.cached_roles r i m) (select_role s.roles s.rows r m)
                ≡ some v =
              rw (same, same_i, same_m) at h in
            subst (λ k. select_role s.roles s.rows k n ≡ some v) ((eq_iff r w).0 same)
              (subst (λ b. select_role s.roles s.rows r b ≡ some v) (flag_eq m n same_m)
                (sym (read_role-answer r i m s (fresh_rows, fresh_roles)) ∙ stored))
      ]
    ]
  ],
)
