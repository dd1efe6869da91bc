-- ===== src/ApiKey/Tests.antt =====
-- A table of two keys, and the theorems at it.
use open_vm_x_ai.Common.{
  ℕ, ◌≡◌, refl, true, false, some, none, String, List, [], ◌∷◌, includes, ok, err, if◌then◌else◌,
  ◌==◌,
}
use open_vm_x_ai.ApiKey.Service.{null_resources, verify, delete_resource}
use open_vm_x_ai.ApiKey.{FullApiKeyEntity, ApiKeyHost, ApiKeyStore, ApiKeyUpdate, is_plain, commit}
use open_vm_x_ai.ApiKey.Fresh.{AreFresh}
use open_vm_x_ai.ApiKey.Refines.{
  KeyOperation, do_verify, do_get, do_update, do_append, do_delete_resource, run_all, run_uncached,
  run_all-eq-run_uncached,
}
use open_vm_x_ai.ApiKey.Guard.{GuardedRequest, key_of_request}
use open_vm_x_ai.ApiKey.Withdrawn.{is_authorized, delete_resource-unauthorized}

-- Keys are hashed by their first character.
abbrev hash_of : List ℕ → String
hash_of [] = "second"
hash_of (c ∷ cs) = if c == b'a' then "first" else "second"

abbrev a_host : ApiKeyHost
a_host = record {
  sha256 = hash_of;
  distinct = λ xs. xs;
  has_text = includes;
  includes-distinct = λ xs x. refl;
  has_text-includes = λ xs x p h. h;
}

abbrev row_of : String → List String → FullApiKeyEntity
row_of hash resources = record {
  entity = record { api_key_id = hash; capacity = none; enforce_capacity = false };
  workspace_id = "w";
  environment_id = "e";
  enabled = true;
  resources = resources;
  hash = hash;
  masked_key = [];
}

abbrev two_keys : ApiKeyStore
two_keys = record {
  rows = row_of "first" ("chat" ∷ "search" ∷ []) ∷ row_of "second" ("search" ∷ []) ∷ [];
  cached = λ w e h. none;
  cached_by_id = λ b w e id. none;
}

two_keys-AreFresh : AreFresh two_keys
two_keys-AreFresh = (λ w e h row found. cc, λ b w e id row found. cc)

abbrev disabled : ApiKeyUpdate
disabled = record {
  new_enabled = some false;
  new_resources = none;
  new_capacity = none;
  new_enforce_capacity = none;
}

-- A key is verified, and so cached, before it is disabled.
abbrev operations : List (KeyOperation a_host)
operations =
    do_verify (b'a' ∷ []) "w" "e" "chat"
    ∷ do_get "w" "e" "first" false true
    ∷ do_append "w" "e" ("second" ∷ []) "chat"
    ∷ do_verify (b'b' ∷ []) "w" "e" "chat"
    ∷ do_update "w" "e" "first" disabled
    ∷ do_verify (b'a' ∷ []) "w" "e" "chat"
    ∷ do_get "w" "e" "first" false true
    ∷ do_delete_resource "w" "e" "chat"
    ∷ []

run_all-eq-run_uncached_example :
    run_all a_host operations two_keys ≡ run_uncached a_host operations two_keys.rows
run_all-eq-run_uncached_example =
    run_all-eq-run_uncached a_host operations two_keys two_keys-AreFresh

abbrev without_chat : ApiKeyStore
without_chat = (delete_resource a_host "w" "e" "chat" two_keys).1

abbrev rows_without_chat : List FullApiKeyEntity
rows_without_chat = row_of "first" ("search" ∷ []) ∷ row_of "second" ("search" ∷ []) ∷ []

chat_deleted : delete_resource a_host "w" "e" "chat" two_keys ≡ (ok rows_without_chat, without_chat)
unfolding delete_resource
chat_deleted = refl

chat_is_plain : is_plain "chat" ≡ true
unfolding is_plain
chat_is_plain = refl

delete_resource-unauthorized_example :
    is_authorized
      (verify a_host (b'a' ∷ []) "w" "e" "chat" (commit rows_without_chat without_chat)).0
    ≡ false
delete_resource-unauthorized_example =
    delete_resource-unauthorized a_host "w" "e" "chat" two_keys without_chat rows_without_chat
      (b'a' ∷ []) chat_is_plain two_keys-AreFresh chat_deleted

-- If the key is verified between the deletion and the commit, the old row is cached again, and the
-- key is authorized for the deleted resource after the commit.
abbrev verified_between : ApiKeyStore
verified_between =
    commit rows_without_chat (verify a_host (b'a' ∷ []) "w" "e" "chat" without_chat).1

stale_after_commit :
    is_authorized (verify a_host (b'a' ∷ []) "w" "e" "chat" verified_between).0 ≡ true
unfolding verify delete_resource commit
stale_after_commit = refl

-- The only resource of a key cannot be deleted.
search_not_deleted : (delete_resource a_host "w" "e" "search" two_keys).0 ≡ err null_resources
unfolding delete_resource
search_not_deleted = refl

-- The guard reads the key of the authorization.
abbrev a_request : GuardedRequest
a_request = record {
  workspace_param = some "w";
  environment_param = some "e";
  resource_param = some "chat";
  api_key_header = none;
  authorization = some (b'B' ∷ b'e' ∷ b'a' ∷ b'r' ∷ b'e' ∷ b'r' ∷ b' ' ∷ b'a' ∷ b'1' ∷ []);
}

a_request_key :
    key_of_request a_request.api_key_header a_request.authorization ≡ some (b'a' ∷ b'1' ∷ [])
unfolding key_of_request
a_request_key = refl
