-- ===== src/Role/Membership.antt =====
-- Who is a member of a role after users were assigned to it or taken from it.
use open_vm_x_ai.Common.{
  ◌≡◌, refl, ap, ◌∙◌, Bool, true, false, not, ◌&&◌, ◌||◌, String, List, [], ◌∷◌, ◌++◌, filter, any,
  includes, str_eq, if◌then◌else◌, Bool-cases, inl, inr, arith, eq_iff,
}
use open_vm_x_ai.Role.{UserRoleEntity}
use open_vm_x_ai.Role.Members.{same_row, insert_row, assign_users_to_role, unassign_users_from_role}

-- Whether there is a row of a user and a role.
abbrev pub is_member : UserRoleEntity → List UserRoleEntity → Bool
is_member row rows = any (same_row row) rows

-- Whether a row is of the role and of one of the users.
abbrev pub is_of : String → List String → UserRoleEntity → Bool
is_of role_id user_ids row = str_eq row.role_id role_id && includes user_ids row.user_id

any-append :
    (f : UserRoleEntity → Bool) (xs ys : List UserRoleEntity)
    → any f (xs ++ ys) ≡ (any f xs || any f ys)
any-append f [] ys = refl
any-append f (x ∷ xs) ys = ground (arith, any-append f xs ys)

same_row-true : (a b : UserRoleEntity) → same_row a b ≡ true → a ≡ b
same_row-true a b h =
    let users : a.user_id ≡ b.user_id = (eq_iff a.user_id b.user_id).0 (ground arith) in
    let roles : a.role_id ≡ b.role_id = (eq_iff a.role_id b.role_id).0 (ground arith) in
    cc (users, roles)

is_member-insert_row :
    (t row : UserRoleEntity) (rows : List UserRoleEntity)
    → is_member t (insert_row row rows) ≡ (is_member t rows || same_row t row)
unfolding insert_row
is_member-insert_row t row rows = elim (Bool-cases (any (same_row row) rows)) [
  | inr new ↦ rw (new, any-append (same_row t) rows (row ∷ [])) (ground arith)
  | inl there ↦ elim (Bool-cases (same_row t row)) [
    | inr other ↦ rw (there, other) (ground arith)
    | inl same ↦
        rw (there, same)
          (ap (λ r. is_member r rows) (same_row-true t row same) ∙ there ∙ ground arith)
  ]
]

is_of-cons :
    (role_id u : String) (us : List String) (t : UserRoleEntity)
    → is_of role_id (u ∷ us) t
      ≡ (same_row t (record { user_id = u; role_id = role_id }) || is_of role_id us t)
is_of-cons role_id u us t = ground (arith, eq_iff u t.user_id, eq_iff t.user_id u)

-- Assigning users to a role makes them members of it, and changes no other membership.
pub is_member-assign_users_to_role :
    (role_id : String) (user_ids : List String) (rows : List UserRoleEntity) (t : UserRoleEntity)
    → is_member t (assign_users_to_role role_id user_ids rows)
      ≡ (is_member t rows || is_of role_id user_ids t)
unfolding assign_users_to_role
is_member-assign_users_to_role role_id [] rows t = ground arith
is_member-assign_users_to_role role_id (u ∷ us) rows t =
    let row : UserRoleEntity = record { user_id = u; role_id = role_id } in
    let later = is_member-assign_users_to_role role_id us (insert_row row rows) t in
    rw (later, is_member-insert_row t row rows, is_of-cons role_id u us t) (ground arith)

any-if :
    (f : UserRoleEntity → Bool) (b : Bool) (x : UserRoleEntity) (xs : List UserRoleEntity)
    → any f (if b then x ∷ xs else xs) ≡ (f x && b || any f xs)
any-if f true x xs = ground arith
any-if f false x xs = ground arith

-- Where only `t` passes the test, a filter keeps it or not.
any-filter :
    (f p : UserRoleEntity → Bool) (t : UserRoleEntity) (rows : List UserRoleEntity)
    → ((x : UserRoleEntity) → f x ≡ true → t ≡ x)
    → any f (filter p rows) ≡ (any f rows && p t)
any-filter f p t [] h = refl
any-filter f p t (x ∷ rows) h =
    rw (any-if f (p x) x (filter p rows), any-filter f p t rows h) (split (f x) (h x))
  where
    split :
        (b : Bool)
        → (b ≡ true → t ≡ x)
        → (b && p x || any f rows && p t) ≡ ((b || any f rows) && p t)
    split false _ = refl
    split true is_t = let same : p t ≡ p x = ap p (is_t refl) in ground (arith, same)

-- Taking users from a role ends their membership of it, and no other membership.
pub is_member-unassign_users_from_role :
    (role_id : String) (user_ids : List String) (rows : List UserRoleEntity) (t : UserRoleEntity)
    → is_member t (unassign_users_from_role role_id user_ids rows)
      ≡ (is_member t rows && not (is_of role_id user_ids t))
unfolding unassign_users_from_role
is_member-unassign_users_from_role role_id user_ids rows t =
    any-filter (same_row t) (λ r. not (is_of role_id user_ids r)) t rows (same_row-true t)
