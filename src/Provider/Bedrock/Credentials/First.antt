-- ===== src/Provider/Bedrock/Credentials/First.antt =====
-- Whose external id the clients of packages/api/src/ai-provider/providers/aws-bedrock.provider.ts use.
use open_vm_x_ai.Common.{
  ◌≡◌, refl, ap, ◌∙◌, sym, Bool-cases, inl, inr, Option, none, some, String, List, [], ◌∷◌, str_eq,
  if◌then◌else◌, lookup, lookup-insert, eq_iff,
}
use open_vm_x_ai.Provider.Bedrock.Credentials.{
  BedrockConfig, BedrockConnection, Credentials, Client, CachedProviders, temporary_credentials,
  get_aws_sdk_credentials, create_client, cache_after, remember, client_for,
}

abbrev or_else : Option Credentials → Option Credentials → Option Credentials
or_else (some c) _ = some c
or_else none later = later

-- What a connection asks for, where it has this role.
abbrev asked : String → BedrockConnection → Option BedrockConfig → Option Credentials
asked role connection none = none
asked role connection (some config) =
    if str_eq config.iam_role_arn role
    then some (temporary_credentials connection config.iam_role_arn)
    else none

-- The credentials that the first of the connections with this role asks for.
abbrev pub first_credentials : String → List BedrockConnection → Option Credentials
first_credentials role [] = none
first_credentials role (c ∷ connections) =
    or_else (asked role c c.config) (first_credentials role connections)

abbrev own_credentials : Option Credentials → Credentials → Credentials
own_credentials (some c) own = c
own_credentials none own = own

-- The client for a connection, when others were made before.
abbrev pub expected_client :
    List BedrockConnection → BedrockConnection → Option BedrockConfig → Client
expected_client before connection none = record { region = none; credentials = none }
expected_client before connection (some config) =
    let role = config.iam_role_arn in
    record {
      region = some config.region;
      credentials =
          some (
            own_credentials (first_credentials role before)
              (temporary_credentials connection role));
    }

or_else-none : (c : Option Credentials) → c ≡ or_else c none
or_else-none none = refl
or_else-none (some c) = refl

-- The map has the old credentials of a role, or the new ones where there are none.
remember-lookup :
    (cache : CachedProviders) (key role : String) (c : Credentials) (found : Option Credentials)
    → lookup key cache ≡ found
    → lookup role (remember cache key c found).1
      ≡ or_else (lookup role cache) (if str_eq key role then some c else none)
remember-lookup cache key role c none h =
    rw (lookup-insert key role c cache) (elim (Bool-cases (str_eq key role)) [
      | inl same ↦ rw (same, sym (ap (λ k. lookup k cache) ((eq_iff key role).0 same)) ∙ h) refl
      | inr other ↦ rw other (or_else-none (lookup role cache))
    ])
remember-lookup cache key role c (some d) h = elim (Bool-cases (str_eq key role)) [
  | inl same ↦ rw (sym (ap (λ k. lookup k cache) ((eq_iff key role).0 same)) ∙ h) refl
  | inr other ↦ rw other (or_else-none (lookup role cache))
]

or_else_assoc : (a b c : Option Credentials) → or_else (or_else a b) c ≡ or_else a (or_else b c)
or_else_assoc none b c = refl
or_else_assoc (some a) b c = refl

step-lookup :
    (cache : CachedProviders) (connection : BedrockConnection) (role : String)
    (config : Option BedrockConfig)
    → lookup role (client_for cache connection config).1
      ≡ or_else (lookup role cache) (asked role connection config)
unfolding client_for get_aws_sdk_credentials
step-lookup cache connection role none = or_else-none (lookup role cache)
step-lookup cache connection role (some config) =
    let key = config.iam_role_arn in
    remember-lookup cache key role (temporary_credentials connection key) (lookup key cache) refl

lookup-cache_after :
    (connections : List BedrockConnection) (cache : CachedProviders) (role : String)
    → lookup role (cache_after connections cache)
      ≡ or_else (lookup role cache) (first_credentials role connections)
unfolding cache_after create_client
lookup-cache_after [] cache role = or_else-none (lookup role cache)
lookup-cache_after (c ∷ connections) cache role =
    lookup-cache_after connections (create_client cache c).1 role
    ∙ ap (λ old. or_else old (first_credentials role connections))
        (step-lookup cache c role c.config)
    ∙ or_else_assoc (lookup role cache) (asked role c c.config) (first_credentials role connections)

remember-own :
    (cache : CachedProviders) (key : String) (c : Credentials) (found : Option Credentials)
    → (remember cache key c found).0 ≡ own_credentials found c
remember-own cache key c none = refl
remember-own cache key c (some d) = refl

client_for-expected :
    (before : List BedrockConnection) (connection : BedrockConnection)
    (config : Option BedrockConfig)
    → (client_for (cache_after before []) connection config).0
      ≡ expected_client before connection config
unfolding client_for get_aws_sdk_credentials lookup
client_for-expected before connection none = refl
client_for-expected before connection (some config) =
    let key = config.iam_role_arn in
    let own = temporary_credentials connection key in
    let cache = cache_after before [] in
    ap (λ c. record { region = some config.region; credentials = some c })
      (remember-own cache key own (lookup key cache)
        ∙ ap (λ found. own_credentials found own) (lookup-cache_after before [] key))

-- The client that a connection gets, after clients were made for any connections, has the region of
-- its configuration and the credentials of its role with the external id of the first of those
-- connections that has the same role: its own only if there is none. A connection with no
-- configuration gets a client with neither.
pub create_client-expected :
    (before : List BedrockConnection) (connection : BedrockConnection)
    → (create_client (cache_after before []) connection).0
      ≡ expected_client before connection connection.config
unfolding create_client
create_client-expected before connection = client_for-expected before connection connection.config
