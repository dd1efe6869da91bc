-- ===== src/Provider/OpenAi.antt =====
-- packages/api/src/ai-provider/providers: the adapters openai, groq, gemini and anthropic, which use
-- the client of OpenAI.
pub mod Durations
mod Tests
use Prim.Native.Char.{code}
use open_vm_x_ai.Common.{
  ℕ, max, Bool, true, false, ◌&&◌, ◌||◌, Option, none, some, get_or, String, List, [], ◌∷◌, Result,
  ok, err, ◌>>=◌, lookup, insert, str_eq, ◌==◌, if◌then◌else◌,
}
use open_vm_x_ai.Errors.{CompletionErrorData, CompletionHeaders, text, reason}
use open_vm_x_ai.Provider.OpenAi.Durations.{codes, parse_duration}

-- The adapters, which differ in the address of the API and in the headers that they pass on.
pub data Adapter : Type 0 where
  openai groq gemini anthropic : Adapter

-- `Headers`: names in lower case, each once.
abbrev pub Headers : Type 0
Headers = List (String × String)

-- `key.startsWith('x-')`.
abbrev pub is_extension : String → Bool
is_extension (String.◌∷◌ x (String.◌∷◌ dash s)) = code x == b'x' && code dash == b'-'
is_extension _ = false

-- `headersMap` of the adapter to Anthropic.
abbrev pub renamed : Adapter → String → String
renamed anthropic key =
    if str_eq key "x-ratelimit-tokens"
    then "x-ratelimit-limit-tokens"
    else if str_eq key "x-ratelimit-requests"
    then "x-ratelimit-limit-requests"
    else key
renamed _ key = key

abbrev pub keep_headers : Adapter → Headers → CompletionHeaders → CompletionHeaders
keep_headers adapter [] kept = kept
keep_headers adapter ((key, value) ∷ headers) kept =
    if is_extension key
    then keep_headers adapter headers (insert (renamed adapter key) value kept)
    else keep_headers adapter headers kept

-- `filterRelevantHeaders`.
unfoldable pub filter_relevant_headers : Adapter → Option Headers → CompletionHeaders
filter_relevant_headers adapter none = []
filter_relevant_headers adapter (some headers) = keep_headers adapter headers []

abbrev pub duration_or_zero : Option String → ℕ
unfolding parse_duration
duration_or_zero none = 0
duration_or_zero (some s) = if str_eq s "" then 0 else parse_duration (codes s)

-- `extractRateLimitResetTime`: until the requests and until the tokens are reset.
unfoldable pub extract_rate_limit_reset_time : Option Headers → ℕ × ℕ
extract_rate_limit_reset_time none = (0, 0)
extract_rate_limit_reset_time (some headers) = (
  duration_or_zero (lookup "x-ratelimit-reset-requests" headers),
  duration_or_zero (lookup "x-ratelimit-reset-tokens" headers),
)

-- What the client throws: a RateLimitError, another APIError (whose status may be missing), or
-- another error.
pub data OpenAiError : Type 0 where
  rate_limit_error :
      (headers : Option Headers) (message : String) (status : ℕ) (code : Option String)
      → OpenAiError
  api_error :
      (headers : Option Headers) (message : String) (status : Option ℕ) (code : Option String)
      → OpenAiError
  other_error : String → OpenAiError

-- `retryableStatus.includes(statusCode)`.
abbrev pub is_retryable : ℕ → Bool
is_retryable status = status == 500 || status == 502 || status == 503 || status == 504

-- `catch` of `completion`.
unfoldable pub convert_error : Adapter → OpenAiError → CompletionErrorData
unfolding filter_relevant_headers extract_rate_limit_reset_time
convert_error adapter (rate_limit_error headers message status code) =
    let (requests, tokens) = extract_rate_limit_reset_time headers in
    record {
      code = code;
      headers = some (filter_relevant_headers adapter headers);
      message = text message;
      rate = true;
      status_code = status;
      retryable = true;
      retry_delay = some (max requests tokens);
      failure_reason = some (reason "Rate limit exceeded");
    }
convert_error adapter (api_error headers message status code) = record {
  code = code;
  headers = some (filter_relevant_headers adapter headers);
  message = text message;
  rate = false;
  status_code = get_or status 500;
  retryable = is_retryable (get_or status 500);
  retry_delay = none;
  failure_reason = some (reason "External API error");
}
convert_error adapter (other_error message) = record {
  code = some "unknown_error";
  headers = none;
  message = text message;
  rate = false;
  status_code = 500;
  retryable = false;
  retry_delay = none;
  failure_reason = some (reason "External API error");
}

pub record OpenAiConnection : Type 0 where
  pub connection_id : String
  pub api_key : Option String

-- The client, with the address of the API if it is not OpenAI's own.
pub record OpenAiClient : Type 0 where
  pub api_key : String
  pub base_url : Option String

abbrev pub base_url_of : Adapter → Option String
base_url_of openai = none
base_url_of groq = some "https://api.groq.com/openai/v1"
base_url_of gemini = some "https://generativelanguage.googleapis.com/v1beta/openai/"
base_url_of anthropic = some "https://api.anthropic.com/v1/"

-- What an adapter throws: AI_CONNECTION_CONFIG_INVALID for a connection, or the error of a completion.
pub data AdapterError : Type 0 where
  config_invalid : (connection_id : String) → AdapterError
  completion_failed : CompletionErrorData → AdapterError

abbrev pub client_of_key : Adapter → String → Option String → Result AdapterError OpenAiClient
client_of_key adapter connection_id none = err (config_invalid connection_id)
client_of_key adapter connection_id (some key) =
    if str_eq key ""
    then err (config_invalid connection_id)
    else ok (record { api_key = key; base_url = base_url_of adapter })

-- `createClient`.
unfoldable pub open_client : Adapter → OpenAiConnection → Result AdapterError OpenAiClient
open_client adapter connection = client_of_key adapter connection.connection_id connection.api_key

-- `requestBody`: the request with the options of its stream, `include_usage`, and the model.
pub record OpenAiBody (Request : Type 0) : Type 0 where
  pub request : Request
  pub include_usage : Option Bool
  pub model : String

-- The client's `chat.completions.create(…).withResponse()`, which gives the data and the headers.
pub record OpenAiApi : Type 1 where
  pub Request : Type 0
  pub Data : Type 0
  pub is_stream : Request → Bool
  pub create : OpenAiClient → OpenAiBody Request → Result OpenAiError (Data × Headers)

module _ (api : OpenAiApi) where
  open api use {Request, Data, is_stream, create}

  abbrev pub body_of : Request → String → OpenAiBody Request
  body_of request model = record {
    request = request;
    include_usage = if is_stream request then some true else none;
    model = model;
  }

  abbrev pub answer_or_error :
      Adapter → Result OpenAiError (Data × Headers) → Result AdapterError (Data × CompletionHeaders)
  unfolding filter_relevant_headers convert_error
  answer_or_error adapter (ok (answer, headers)) =
      ok (answer, filter_relevant_headers adapter (some headers))
  answer_or_error adapter (err e) = err (completion_failed (convert_error adapter e))

  -- `completion`: a connection with no key is refused outside of the `try`.
  unfoldable pub complete :
      Adapter → Request → OpenAiConnection → String → Result AdapterError (Data × CompletionHeaders)
  unfolding open_client
  complete adapter request connection model = do
    client ← open_client adapter connection
    answer_or_error adapter (create client (body_of request model))
