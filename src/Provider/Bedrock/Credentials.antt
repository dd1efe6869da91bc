-- ===== src/Provider/Bedrock/Credentials.antt =====
-- Clients of packages/api/src/ai-provider/providers/aws-bedrock.provider.ts: `createClient` and
-- `getAwsSdkCredentials`, with the map `cachedProviders` as the state.
pub mod First
use Prim.Native.String.{◌++◌}
use open_vm_x_ai.Common.{Option, none, some, String, List, [], ◌∷◌, lookup, insert}

-- `performance` is the configuration of the performance, whose latency may be missing.
pub record BedrockConfig : Type 0 where
  pub region : String
  pub iam_role_arn : String
  pub performance : Option (Option String)

pub record BedrockConnection : Type 0 where
  pub workspace_id : String
  pub environment_id : String
  pub config : Option BedrockConfig

-- `params` of `fromTemporaryCredentials`: the role and the external id; the session name is constant.
pub record Credentials : Type 0 where
  pub role_arn : String
  pub external_id : String

-- The region and the credentials that the client has; the client of no configuration has none.
pub record Client : Type 0 where
  pub region : Option String
  pub credentials : Option Credentials

abbrev pub CachedProviders : Type 0
CachedProviders = List (String × Credentials)

-- What `fromTemporaryCredentials` is given for a connection.
abbrev pub temporary_credentials : BedrockConnection → String → Credentials
temporary_credentials connection role = record {
  role_arn = role;
  external_id = connection.workspace_id ++ ":" ++ connection.environment_id;
}

abbrev pub remember :
    CachedProviders → String → Credentials → Option Credentials → Credentials × CachedProviders
remember cache key created (some cached) = (cached, cache)
remember cache key created none = (created, insert key created cache)

-- `getAwsSdkCredentials`: `has` and `get` are one look-up, since the map holds no undefined.
unfoldable pub get_aws_sdk_credentials :
    CachedProviders → BedrockConnection → BedrockConfig → Credentials × CachedProviders
get_aws_sdk_credentials cache connection config =
    let role = config.iam_role_arn in
    remember cache role (temporary_credentials connection role) (lookup role cache)

-- The client of this region.
abbrev pub client_with : String → Credentials × CachedProviders → Client × CachedProviders
client_with region (credentials, cache) =
    (record { region = some region; credentials = some credentials }, cache)

-- The two returns of `createClient`.
unfoldable pub client_for :
    CachedProviders → BedrockConnection → Option BedrockConfig → Client × CachedProviders
unfolding get_aws_sdk_credentials
client_for cache connection none = (record { region = none; credentials = none }, cache)
client_for cache connection (some config) =
    client_with config.region (get_aws_sdk_credentials cache connection config)

-- `createClient`.
unfoldable pub create_client : CachedProviders → BedrockConnection → Client × CachedProviders
unfolding client_for
create_client cache connection = client_for cache connection connection.config

-- The map after a client for each of the connections.
unfoldable pub cache_after : List BedrockConnection → CachedProviders → CachedProviders
unfolding create_client
cache_after [] cache = cache
cache_after (c ∷ connections) cache = cache_after connections (create_client cache c).1
