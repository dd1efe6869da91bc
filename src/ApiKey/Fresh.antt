-- ===== src/ApiKey/Fresh.antt =====
-- Writes of packages/api/src/api-key/api-key.service.ts leave the rows alone whose keys they do not
-- take out of a cache: of the cache by hash, or of one by id.
use open_vm_x_ai.Common.{
  ◌≡◌, refl, sym, ap, ◌∙◌, Bool, true, false, not, ◌&&◌, ◌||◌, Option, none, some, String, List, [],
  ◌∷◌, ◌++◌, find, filter, any, includes, str_eq, eq_iff, Bool-cases, inl, inr, arith,
}
use open_vm_x_ai.ApiKey.{
  FullApiKeyEntity, ApiKeyStore, CachedKeys, is_of_environment, select_by_id, forget_keys, wrap,
  change_rows, row_keys, hash_key, id_key, written_rows, remember_key, has_id,
}

-- The rows that are read by a key, of those that are shown.
module _ (key : FullApiKeyEntity → String) (shown : FullApiKeyEntity → Bool) where
  abbrev has_key : String → String → String → FullApiKeyEntity → Bool
  has_key w e k r = is_of_environment w e r && str_eq (key r) k

  abbrev pub select : String → String → String → List FullApiKeyEntity → Option FullApiKeyEntity
  select w e k rows = find (λ r. has_key w e k r && shown r) rows

  -- What is cached is what the table has.
  abbrev pub FreshKeys : List FullApiKeyEntity → CachedKeys → Type 0
  FreshKeys rows cached =
      (w e k : String) (row : FullApiKeyEntity)
      → cached w e k ≡ some row
      → select w e k rows ≡ some row

  -- The rows of a write that are read by a key are forgotten with it.
  any-row_keys :
      (w e w' e' k : String) (p : FullApiKeyEntity → Bool) (rows : List FullApiKeyEntity)
      → ((r : FullApiKeyEntity) → p r ≡ true → is_of_environment w e r ≡ true)
      → (str_eq w w' && str_eq e e' && includes (row_keys key p rows) k) ≡ false
      → any (λ r. p r && has_key w' e' k r) rows ≡ false
  any-row_keys w e w' e' k p [] of_p kept = refl
  any-row_keys w e w' e' k p (r ∷ rows) of_p kept = elim (Bool-cases (p r)) [
    | inr other ↦ rw other (any-row_keys w e w' e' k p rows of_p (rw other at kept))
    | inl here ↦
        let of_environment = of_p r here in
        let kept' : (str_eq w w'
              && str_eq e e'
              && (str_eq (key r) k || includes (row_keys key p rows) k))
            ≡ false =
          rw here at kept in
        let later = any-row_keys w e w' e' k p rows of_p (ground arith) in
        rw (here, later)
          (ground (
            arith,
            eq_iff r.workspace_id w,
            eq_iff r.environment_id e,
            eq_iff r.workspace_id w',
            eq_iff r.environment_id e',
            eq_iff w w',
            eq_iff e e',
          ))
  ]

  change_rows-select :
      (p : FullApiKeyEntity → Bool) (f : FullApiKeyEntity → FullApiKeyEntity) (w e k : String)
      (rows : List FullApiKeyEntity)
      → ((r : FullApiKeyEntity) → has_key w e k (f r) ≡ has_key w e k r)
      → any (λ r. p r && has_key w e k r) rows ≡ false
      → select w e k (change_rows p f rows) ≡ select w e k rows
  change_rows-select p f w e k [] same none_there = refl
  change_rows-select p f w e k (r ∷ rows) same none_there =
      let later = change_rows-select p f w e k rows same (ground arith) in
      elim (Bool-cases (p r)) [
        | inr other ↦ rw (other, later) refl
        | inl here ↦
            let unread : has_key w e k r ≡ false = ground arith in
            rw here (rw (same r, unread) later)
      ]

  filter-select :
      (p : FullApiKeyEntity → Bool) (w e k : String) (rows : List FullApiKeyEntity)
      → any (λ r. p r && has_key w e k r) rows ≡ false
      → select w e k (filter (λ r. not (p r)) rows) ≡ select w e k rows
  filter-select p w e k [] none_there = refl
  filter-select p w e k (r ∷ rows) none_there =
      let later = filter-select p w e k rows (ground arith) in
      elim (Bool-cases (p r)) [
        | inr other ↦ rw (other, later) refl
        | inl here ↦ let unread : has_key w e k r ≡ false = ground arith in rw (here, unread) later
      ]

  append-select :
      (w e k : String) (rows : List FullApiKeyEntity) (new row : FullApiKeyEntity)
      → select w e k rows ≡ some row
      → select w e k (rows ++ new ∷ []) ≡ some row
  append-select w e k [] new row found = cc
  append-select w e k (r ∷ rows) new row found = elim (Bool-cases (has_key w e k r && shown r)) [
    | inl here ↦ rw here (rw here at found)
    | inr other ↦ rw other (append-select w e k rows new row (rw other at found))
  ]

  -- What is still cached after keys are forgotten.
  kept_keys :
      (w e : String) (keys : List String) (cached : CachedKeys) (w' e' k : String)
      (row : FullApiKeyEntity)
      → forget_keys w e keys cached w' e' k ≡ some row
      → ((str_eq w w' && str_eq e e' && includes keys k) ≡ false) × (cached w' e' k ≡ some row)
  unfolding forget_keys
  kept_keys w e keys cached w' e' k row found =
      elim (Bool-cases (str_eq w w' && str_eq e e' && includes keys k)) [
        | inl gone ↦ cc (rw gone at found)
        | inr kept ↦ (kept, rw kept at found)
      ]

  pub changed-FreshKeys :
      (w e : String) (p : FullApiKeyEntity → Bool) (f : FullApiKeyEntity → FullApiKeyEntity)
      (rows : List FullApiKeyEntity) (cached : CachedKeys)
      → ((r : FullApiKeyEntity) → p r ≡ true → is_of_environment w e r ≡ true)
      → ((w' e' k : String) (r : FullApiKeyEntity) → has_key w' e' k (f r) ≡ has_key w' e' k r)
      → FreshKeys rows cached
      → FreshKeys (change_rows p f rows) (forget_keys w e (row_keys key p rows) cached)
  changed-FreshKeys w e p f rows cached of_p same fresh w' e' k row found =
      let (kept, old) = kept_keys w e (row_keys key p rows) cached w' e' k row found in
      change_rows-select p f w' e' k rows (same w' e' k) (any-row_keys w e w' e' k p rows of_p kept)
      ∙ fresh w' e' k row old

  pub removed-FreshKeys :
      (w e : String) (p : FullApiKeyEntity → Bool) (rows : List FullApiKeyEntity)
      (cached : CachedKeys)
      → ((r : FullApiKeyEntity) → p r ≡ true → is_of_environment w e r ≡ true)
      → FreshKeys rows cached
      → FreshKeys (filter (λ r. not (p r)) rows) (forget_keys w e (row_keys key p rows) cached)
  removed-FreshKeys w e p rows cached of_p fresh w' e' k row found =
      let (kept, old) = kept_keys w e (row_keys key p rows) cached w' e' k row found in
      filter-select p w' e' k rows (any-row_keys w e w' e' k p rows of_p kept)
      ∙ fresh w' e' k row old

  pub added-FreshKeys :
      (new : FullApiKeyEntity) (rows : List FullApiKeyEntity) (cached : CachedKeys)
      → FreshKeys rows cached
      → FreshKeys (rows ++ new ∷ []) cached
  added-FreshKeys new rows cached fresh w e k row found =
      append-select w e k rows new row (fresh w e k row found)

  select-same :
      (w e k w' e' k' : String) (rows : List FullApiKeyEntity)
      → (str_eq w w' && str_eq e e' && str_eq k k') ≡ true
      → select w e k rows ≡ select w' e' k' rows
  select-same w e k w' e' k' rows same =
      let first : str_eq w w' ≡ true = ground arith in
      let second : str_eq e e' ≡ true = ground arith in
      let third : str_eq k k' ≡ true = ground arith in
      ap (λ x. select x e k rows) ((eq_iff w w').0 first)
      ∙ ap (λ x. select w' x k rows) ((eq_iff e e').0 second)
      ∙ ap (λ x. select w' e' x rows) ((eq_iff k k').0 third)

  remembered-FreshKeys :
      (rows : List FullApiKeyEntity) (cached : CachedKeys) (w e k : String) (row : FullApiKeyEntity)
      → select w e k rows ≡ some row
      → FreshKeys rows cached
      → FreshKeys rows (remember_key w e k row cached)
  remembered-FreshKeys rows cached w e k row read fresh w' e' k' row' found =
      elim (Bool-cases (str_eq w w' && str_eq e e' && str_eq k k')) [
        | inl same ↦ sym (select-same w e k w' e' k' rows same) ∙ read ∙ rw same at found
        | inr other ↦ fresh w' e' k' row' (rw other at found)
      ]

  -- A read answers what the table has, and keeps the cache fresh.
  pub wrap-answer :
      (rows : List FullApiKeyEntity) (cached : CachedKeys) (w e k : String)
      (hit found : Option FullApiKeyEntity)
      → cached w e k ≡ hit
      → select w e k rows ≡ found
      → FreshKeys rows cached
      → ((wrap cached w e k hit found).0 ≡ found) × FreshKeys rows (wrap cached w e k hit found).1
  wrap-answer rows cached w e k (some row) found hit read fresh =
      (sym (fresh w e k row hit) ∙ read, fresh)
  wrap-answer rows cached w e k none none hit read fresh = (refl, fresh)
  wrap-answer rows cached w e k none (some row) hit read fresh =
      (refl, remembered-FreshKeys rows cached w e k row read fresh)

abbrev pub all_shown : FullApiKeyEntity → Bool
all_shown r = true

abbrev pub enabled_shown : FullApiKeyEntity → Bool
enabled_shown r = r.enabled

pub select-by_id :
    (w e id : String) (rows : List FullApiKeyEntity)
    → select id_key all_shown w e id rows ≡ select_by_id w e id rows
select-by_id w e id [] = refl
select-by_id w e id (r ∷ rows) = elim (Bool-cases (has_id w e id r)) [
  | inl here ↦ rw here refl
  | inr other ↦ rw other (select-by_id w e id rows)
]

-- Both caches.
abbrev pub AreFresh : ApiKeyStore → Type 0
AreFresh s =
    FreshKeys hash_key enabled_shown s.rows s.cached
    × ((users : Bool) → FreshKeys id_key all_shown s.rows (s.cached_by_id users))

pub changed-AreFresh :
    (w e : String) (p : FullApiKeyEntity → Bool) (f : FullApiKeyEntity → FullApiKeyEntity)
    (s : ApiKeyStore)
    → ((r : FullApiKeyEntity) → p r ≡ true → is_of_environment w e r ≡ true)
    → ((w' e' h : String) (r : FullApiKeyEntity)
        → has_key hash_key enabled_shown w' e' h (f r) ≡ has_key hash_key enabled_shown w' e' h r)
    → ((w' e' id : String) (r : FullApiKeyEntity) → has_id w' e' id (f r) ≡ has_id w' e' id r)
    → AreFresh s
    → AreFresh (written_rows w e p (change_rows p f s.rows) s)
changed-AreFresh w e p f s of_p same same_id (fresh, fresh_ids) = (
  changed-FreshKeys hash_key enabled_shown w e p f s.rows s.cached of_p same fresh,
  λ users.
      changed-FreshKeys id_key all_shown w e p f s.rows (s.cached_by_id users) of_p same_id
        (fresh_ids users),
)

pub removed-AreFresh :
    (w e : String) (p : FullApiKeyEntity → Bool) (s : ApiKeyStore)
    → ((r : FullApiKeyEntity) → p r ≡ true → is_of_environment w e r ≡ true)
    → AreFresh s
    → AreFresh (written_rows w e p (filter (λ r. not (p r)) s.rows) s)
removed-AreFresh w e p s of_p (fresh, fresh_ids) = (
  removed-FreshKeys hash_key enabled_shown w e p s.rows s.cached of_p fresh,
  λ users.
      removed-FreshKeys id_key all_shown w e p s.rows (s.cached_by_id users) of_p (fresh_ids users),
)
