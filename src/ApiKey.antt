-- ===== src/ApiKey.antt =====
-- packages/api/src/api-key/api-key.service.ts: the keys of the API, the table that has them and the
-- caches of its rows, by the hash of their key and by their id.
pub mod Service
pub mod Fresh
pub mod Refines
pub mod Withdrawn
pub mod Guard
mod Tests
use Prim.Native.Char.{code}
use open_vm_x_ai.Common.{
  ℕ, zero, suc, ◌≡◌, Bool, true, false, not, ◌&&◌, ◌||◌, Option, none, some, get_or, String, List,
  [], ◌∷◌, ◌++◌, map, filter, find, any, includes, Result, ok, err, str_eq, take, length, ◌-◌, leb,
  ◌==◌, if◌then◌else◌,
}
use open_vm_x_ai.Capacity.{CapacityEntity}
use open_vm_x_ai.Entities.{ApiKeyEntity}

pub record FullApiKeyEntity : Type 0 where
  pub entity : ApiKeyEntity
  pub workspace_id : String
  pub environment_id : String
  pub enabled : Bool
  pub resources : List String
  pub hash : String
  pub masked_key : List ℕ

-- A letter, a digit or a hyphen, as in a UUID.
abbrev is_plain_code : ℕ → Bool
is_plain_code c =
    (leb b'a' c && leb c b'z')
    || ((leb b'A' c && leb c b'Z') || ((leb b'0' c && leb c b'9') || c == b'-'))

-- A text of such characters, which neither JSON nor LIKE escapes.
unfoldable pub is_plain : String → Bool
is_plain String.[] = true
is_plain (String.◌∷◌ c s) = is_plain_code (code c) && is_plain s

-- What the service calls: the hash of a key, `jsonb_agg(DISTINCT e)` on texts, and LIKE on the text of
-- a list, of which only this is known: the distinct elements are the elements, and the text of a list
-- has the texts of those of its elements that nothing escapes.
pub record ApiKeyHost : Type 0 where
  pub sha256 : List ℕ → String
  pub distinct : List String → List String
  pub has_text : List String → String → Bool
  pub includes-distinct : (xs : List String) (x : String) → includes (distinct xs) x ≡ includes xs x
  pub has_text-includes :
      (xs : List String) (x : String)
      → is_plain x ≡ true
      → includes xs x ≡ true
      → has_text xs x ≡ true

abbrev repeat : ℕ → ℕ → List ℕ
repeat zero c = []
repeat (suc n) c = c ∷ repeat n c

abbrev drop_to : ℕ → List ℕ → List ℕ
drop_to zero cs = cs
drop_to (suc n) [] = []
drop_to (suc n) (c ∷ cs) = drop_to n cs

-- `maskKey`, on the code points.
unfoldable pub mask_key : List ℕ → List ℕ
mask_key key = take 6 key ++ (repeat 20 b'*' ++ drop_to (length key - 4) key)

-- Rows by their workspace, their environment, and their hash or their id.
abbrev pub CachedKeys : Type 0
CachedKeys = String → String → String → Option FullApiKeyEntity

-- The table and the caches, by hash and by id with and without the users. The identifiers in a key of
-- a cache are UUIDs, so they are kept apart. The reading and the writing connection are taken to have
-- one table: that a replica lags behind is not modelled.
pub record ApiKeyStore : Type 0 where
  pub rows : List FullApiKeyEntity
  pub cached : CachedKeys
  pub cached_by_id : Bool → CachedKeys

-- The conditions of the queries.
abbrev pub is_of_environment : String → String → FullApiKeyEntity → Bool
is_of_environment w e r = str_eq r.workspace_id w && str_eq r.environment_id e

abbrev pub has_hash : String → String → String → FullApiKeyEntity → Bool
has_hash w e h r = is_of_environment w e r && str_eq r.hash h

abbrev pub has_id : String → String → String → FullApiKeyEntity → Bool
has_id w e id r = is_of_environment w e r && str_eq r.entity.api_key_id id

abbrev pub select_enabled :
    String → String → String → List FullApiKeyEntity → Option FullApiKeyEntity
select_enabled w e h rows = find (λ r. has_hash w e h r && r.enabled) rows

abbrev pub select_by_id : String → String → String → List FullApiKeyEntity → Option FullApiKeyEntity
select_by_id w e id rows = find (has_id w e id) rows

-- `cache.mdel` of the keys with these hashes or ids.
unfoldable pub forget_keys : String → String → List String → CachedKeys → CachedKeys
forget_keys w e keys cached w' e' k =
    if str_eq w w' && str_eq e e' && includes keys k then none else cached w' e' k

abbrev pub remember_key : String → String → String → FullApiKeyEntity → CachedKeys → CachedKeys
remember_key w e k row cached w' e' k' =
    if str_eq w w' && str_eq e e' && str_eq k k' then some row else cached w' e' k'

-- `cache.wrap`: a row that is not found is not cached.
abbrev pub wrap :
    CachedKeys
    → String
    → String
    → String
    → Option FullApiKeyEntity
    → Option FullApiKeyEntity
    → Option FullApiKeyEntity × CachedKeys
wrap cached w e k (some row) found = (some row, cached)
wrap cached w e k none none = (none, cached)
wrap cached w e k none (some row) = (some row, remember_key w e k row cached)

-- The rows that a write changes, and their hashes or ids.
abbrev pub change_rows :
    (FullApiKeyEntity → Bool)
    → (FullApiKeyEntity → FullApiKeyEntity)
    → List FullApiKeyEntity
    → List FullApiKeyEntity
change_rows p f rows = map (λ r. if p r then f r else r) rows

abbrev pub row_keys :
    (FullApiKeyEntity → String) → (FullApiKeyEntity → Bool) → List FullApiKeyEntity → List String
row_keys key p [] = []
row_keys key p (r ∷ rows) = if p r then key r ∷ row_keys key p rows else row_keys key p rows

abbrev pub hash_key : FullApiKeyEntity → String
hash_key r = r.hash

abbrev pub id_key : FullApiKeyEntity → String
id_key r = r.entity.api_key_id

-- The table after a write, and the caches without the rows that it changes.
abbrev pub written_rows :
    String → String → (FullApiKeyEntity → Bool) → List FullApiKeyEntity → ApiKeyStore → ApiKeyStore
written_rows w e p rows s = record {
  rows = rows;
  cached = forget_keys w e (row_keys hash_key p s.rows) s.cached;
  cached_by_id = λ users. forget_keys w e (row_keys id_key p s.rows) (s.cached_by_id users);
}

abbrev pub changed :
    String
    → String
    → (FullApiKeyEntity → Bool)
    → (FullApiKeyEntity → FullApiKeyEntity)
    → ApiKeyStore
    → ApiKeyStore
changed w e p f s = written_rows w e p (change_rows p f s.rows) s

-- The caches without the rows that a write changes, before the write is committed.
abbrev pub forgotten : String → String → (FullApiKeyEntity → Bool) → ApiKeyStore → ApiKeyStore
forgotten w e p s = written_rows w e p s.rows s

-- The commit of the caller's transaction: the table has the rows that were written. No other write
-- comes between.
unfoldable pub commit : List FullApiKeyEntity → ApiKeyStore → ApiKeyStore
commit rows s = record s { rows = rows }

-- `UpdateApiKeyDto`: what is undefined stays.
pub record ApiKeyUpdate : Type 0 where
  pub new_enabled : Option Bool
  pub new_resources : Option (List String)
  pub new_capacity : Option (List CapacityEntity)
  pub new_enforce_capacity : Option Bool

pub record NewApiKey : Type 0 where
  pub new_entity : ApiKeyEntity
  pub enabled : Bool
  pub resources : List String

abbrev capacity_or :
    Option (List CapacityEntity) → Option (List CapacityEntity) → Option (List CapacityEntity)
capacity_or none old = old
capacity_or (some new) old = some new

abbrev pub set_values : ApiKeyUpdate → FullApiKeyEntity → FullApiKeyEntity
set_values u r = record {
  entity = record {
    api_key_id = r.entity.api_key_id;
    capacity = capacity_or u.new_capacity r.entity.capacity;
    enforce_capacity = get_or u.new_enforce_capacity r.entity.enforce_capacity;
  };
  workspace_id = r.workspace_id;
  environment_id = r.environment_id;
  enabled = get_or u.new_enabled r.enabled;
  resources = get_or u.new_resources r.resources;
  hash = r.hash;
  masked_key = r.masked_key;
}

abbrev pub with_resources : List String → FullApiKeyEntity → FullApiKeyEntity
with_resources resources r = record {
  entity = r.entity;
  workspace_id = r.workspace_id;
  environment_id = r.environment_id;
  enabled = r.enabled;
  resources = resources;
  hash = r.hash;
  masked_key = r.masked_key;
}
