-- ===== src/ApiKey/Service.antt =====
-- The operations of packages/api/src/api-key/api-key.service.ts on the table and its caches.
use open_vm_x_ai.Common.{
  ℕ, Bool, true, false, not, ◌&&◌, Option, none, some, String, List, [], ◌∷◌, ◌++◌, filter, any,
  includes, Result, ok, err, str_eq, if◌then◌else◌,
}
use open_vm_x_ai.ApiKey.{
  FullApiKeyEntity, ApiKeyHost, mask_key, CachedKeys, ApiKeyStore, is_of_environment, has_id,
  select_enabled, select_by_id, forget_keys, wrap, written_rows, change_rows, changed, forgotten,
  ApiKeyUpdate, NewApiKey, set_values, with_resources,
}

pub data ApiKeyError : Type 0 where
  not_found not_authorized null_resources : ApiKeyError

-- A write that answers nothing of what is modelled.
pub data Done : Type 0 where
  done : Done

-- `if (!entity) …` and `entity.resources.includes(resource)`.
abbrev pub authorized :
    String → Option FullApiKeyEntity → Result ApiKeyError (Option FullApiKeyEntity)
authorized resource none = ok none
authorized resource (some row) =
    if includes row.resources resource then ok (some row) else err not_authorized

-- The resources of a row that are left.
abbrev pub others : String → List String → List String
others resource resources = filter (λ x. not (str_eq x resource)) resources

abbrev pub is_nil : List String → Bool
is_nil [] = true
is_nil (x ∷ xs) = false

-- The cache of one flag.
abbrev pub set_cache : Bool → CachedKeys → (Bool → CachedKeys) → Bool → CachedKeys
set_cache true cached caches true = cached
set_cache false cached caches false = cached
set_cache _ cached caches users = caches users

-- `throwOnNotFound && !apiKey`.
abbrev pub found_or_throw :
    Bool → Option FullApiKeyEntity → Result ApiKeyError (Option FullApiKeyEntity)
found_or_throw true none = err not_found
found_or_throw throws found = ok found

-- `getById`, which answers the row but for its hash.
unfoldable pub get_key_by_id :
    String
    → String
    → String
    → (includes_users throws : Bool) → ApiKeyStore
    → Result ApiKeyError (Option FullApiKeyEntity) × ApiKeyStore
get_key_by_id w e id users throws s =
    let (row, kept) =
      wrap (s.cached_by_id users) w e id (s.cached_by_id users w e id)
        (select_by_id w e id s.rows) in
    (found_or_throw throws row, record s { cached_by_id = set_cache users kept s.cached_by_id })

module _ (host : ApiKeyHost) where
  open host use {sha256, distinct, has_text}

  -- `verify`, which answers the row but for its hash.
  unfoldable pub verify :
      List ℕ
      → String
      → String
      → String
      → ApiKeyStore
      → Result ApiKeyError (Option FullApiKeyEntity) × ApiKeyStore
  verify key w e resource s =
      let h = sha256 key in
      let (entity, kept) = wrap s.cached w e h (s.cached w e h) (select_enabled w e h s.rows) in
      (authorized resource entity, record s { cached = kept })

  -- `create`, for the key that nanoid gives.
  unfoldable pub create_key : List ℕ → String → String → NewApiKey → ApiKeyStore → ApiKeyStore
  unfolding mask_key
  create_key key w e new s = record {
    rows =
        s.rows
        ++ record {
          entity = new.new_entity;
          workspace_id = w;
          environment_id = e;
          enabled = new.enabled;
          resources = new.resources;
          hash = sha256 key;
          masked_key = mask_key key;
        }
          ∷ [];
    cached = s.cached;
    cached_by_id = s.cached_by_id;
  }

  -- `update`. The identifiers are the primary key, so one row is changed, or none, which throws.
  unfoldable pub update_key :
      String → String → String → ApiKeyUpdate → ApiKeyStore → Result ApiKeyError Done × ApiKeyStore
  unfolding forget_keys
  update_key w e id u s =
      if any (has_id w e id) s.rows
      then (ok done, changed w e (has_id w e id) (set_values u) s)
      else (err not_found, s)

  -- `appendResource`, in the transaction of its caller: the rows to commit, and the store with the
  -- caches cleared at once.
  unfoldable pub append_resource :
      String → String → List String → String → ApiKeyStore → List FullApiKeyEntity × ApiKeyStore
  unfolding forget_keys
  append_resource w e ids resource s =
      let p =
        λ (r : FullApiKeyEntity). is_of_environment w e r && includes ids r.entity.api_key_id in
      (
        change_rows p (λ r. with_resources (distinct (r.resources ++ resource ∷ [])) r) s.rows,
        forgotten w e p s,
      )

  -- `delete`.
  unfoldable pub delete_key :
      String → String → String → ApiKeyStore → Result ApiKeyError Done × ApiKeyStore
  unfolding forget_keys
  delete_key w e id s =
      if any (has_id w e id) s.rows
      then (
        ok done,
        written_rows w e (has_id w e id) (filter (λ r. not (has_id w e id r)) s.rows) s,
      )
      else (err not_found, s)

  -- The rows of `deleteResourceFromApiKeys` and their new resources.
  abbrev pub mentions : String → String → String → FullApiKeyEntity → Bool
  mentions w e resource r = is_of_environment w e r && has_text r.resources resource

  -- `jsonb_agg` of no row is NULL, which the column refuses: then no row is changed.
  abbrev pub is_refused : String → String → String → List FullApiKeyEntity → Bool
  is_refused w e resource rows =
      any (λ r. mentions w e resource r && is_nil (others resource r.resources)) rows

  -- `deleteResourceFromApiKeys`, in the transaction of its caller too.
  unfoldable pub delete_resource :
      String
      → String
      → String
      → ApiKeyStore
      → Result ApiKeyError (List FullApiKeyEntity) × ApiKeyStore
  unfolding forget_keys
  delete_resource w e resource s =
      if is_refused w e resource s.rows then (err null_resources, s) else (
        ok (
            change_rows (mentions w e resource)
              (λ r. with_resources (distinct (others resource r.resources)) r) s.rows),
        forgotten w e (mentions w e resource) s,
      )
