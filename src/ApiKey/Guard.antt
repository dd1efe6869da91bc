-- ===== src/ApiKey/Guard.antt =====
-- packages/api/src/api-key/api-key.guard.ts: which requests pass, on the code points of the headers.
use open_vm_x_ai.Common.{
  ℕ, Option, none, some, String, List, [], ◌∷◌, Result, ok, str_eq, ◌==◌, if◌then◌else◌,
}
use open_vm_x_ai.ApiKey.Service.{ApiKeyError, verify}
use open_vm_x_ai.ApiKey.{FullApiKeyEntity, ApiKeyHost, ApiKeyStore}

-- A header: one value, or several.
pub data KeyHeader : Type 0 where
  one_key : List ℕ → KeyHeader
  many_keys : List ℕ → List (List ℕ) → KeyHeader

pub record GuardedRequest : Type 0 where
  pub workspace_param : Option String
  pub environment_param : Option String
  pub resource_param : Option String
  pub api_key_header : Option KeyHeader
  pub authorization : Option (List ℕ)

-- The text behind a prefix, if it has it.
unfoldable pub behind : List ℕ → List ℕ → Option (List ℕ)
behind [] cs = some cs
behind (p ∷ ps) [] = none
behind (p ∷ ps) (c ∷ cs) = let rest = behind ps cs in if p == c then rest else none

abbrev pub or_keep : ℕ → Option (List ℕ) → List ℕ → List ℕ
or_keep c none rest = c ∷ rest
or_keep c (some after) rest = after

-- `replace(pattern, '')`: without the first occurrence.
unfoldable pub without_first : List ℕ → List ℕ → List ℕ
unfolding behind
without_first pattern_ [] = []
without_first pattern_ (c ∷ cs) = or_keep c (behind pattern_ (c ∷ cs)) (without_first pattern_ cs)

-- "Bearer ".
abbrev pub bearer : List ℕ
bearer = b'B' ∷ b'e' ∷ b'a' ∷ b'r' ∷ b'e' ∷ b'r' ∷ b' ' ∷ []

abbrev pub given_key : List ℕ → Option (List ℕ)
given_key [] = none
given_key (c ∷ cs) = some (c ∷ cs)

unfoldable pub bearer_key : Option (List ℕ) → Option (List ℕ)
unfolding without_first
bearer_key none = none
bearer_key (some value) = given_key (without_first bearer value)

-- `apiKey`, where `apiKeyHeader` is not empty.
unfoldable pub key_of_request : Option KeyHeader → Option (List ℕ) → Option (List ℕ)
unfolding bearer_key
key_of_request none authorization = bearer_key authorization
key_of_request (some (one_key [])) authorization = bearer_key authorization
key_of_request (some (one_key (c ∷ cs))) authorization = some (c ∷ cs)
key_of_request (some (many_keys key keys)) authorization = some key

abbrev pub given_param : Option String → Option String
given_param none = none
given_param (some s) = if str_eq s "" then none else some s

module _ (host : ApiKeyHost) where
  unfoldable pub verified_key :
      Option (List ℕ)
      → String
      → String
      → String
      → ApiKeyStore
      → Result ApiKeyError (Option FullApiKeyEntity) × ApiKeyStore
  unfolding verify
  verified_key none w e resource s = (ok none, s)
  verified_key (some key) w e resource s = verify host key w e resource s

  abbrev pub with_params :
      Option String
      → Option String
      → Option String
      → Option (List ℕ)
      → ApiKeyStore
      → Result ApiKeyError (Option FullApiKeyEntity) × ApiKeyStore
  with_params (some w) (some e) (some resource) key s = verified_key key w e resource s
  with_params _ _ _ key s = (ok none, s)

  -- `canActivate`: the row that is put into the request, or none, which refuses it.
  unfoldable pub can_activate :
      GuardedRequest → ApiKeyStore → Result ApiKeyError (Option FullApiKeyEntity) × ApiKeyStore
  unfolding key_of_request verified_key
  can_activate request s =
      with_params (given_param request.workspace_param) (given_param request.environment_param)
        (given_param request.resource_param)
        (key_of_request request.api_key_header request.authorization) s
