-- ===== src/Provider/OpenAi/Tests.antt =====
-- Durations and errors of the adapters that use the client of OpenAI.
use open_vm_x_ai.Common.{◌≡◌, refl, none, some, [], ◌∷◌, lookup, insert}
use open_vm_x_ai.Provider.OpenAi.{
  rate_limit_error, anthropic, convert_error, OpenAiError, filter_relevant_headers,
}
use open_vm_x_ai.Provider.OpenAi.Durations.{codes, minutes, seconds, millis, parse_duration}
use open_vm_x_ai.Provider.OpenAi.Durations.Last.{DurationPart, printed_all, parse_duration-last}

-- The texts "2m59.56s" and "6m0s".
abbrev two_minutes : DurationPart
two_minutes = record { first_digit = b'2'; more_digits = []; fraction = []; unit = minutes }

abbrev many_seconds : DurationPart
many_seconds = record {
  first_digit = b'5';
  more_digits = b'9' ∷ [];
  fraction = b'5' ∷ b'6' ∷ [];
  unit = seconds;
}

printed_text : printed_all (two_minutes ∷ []) many_seconds ≡ codes "2m59.56s"
printed_text = refl

parse_duration-last_example :
    parse_duration (printed_all (two_minutes ∷ []) many_seconds)
    ≡ millis seconds (b'5' ∷ b'9' ∷ [], b'5' ∷ b'6' ∷ [])
parse_duration-last_example =
    parse_duration-last (two_minutes ∷ []) many_seconds
      (record { first_IsDigit = refl; more_AreDigits = tt; fraction_AreDigits = tt }, tt)
      (record {
        first_IsDigit = refl;
        more_AreDigits = (refl, tt);
        fraction_AreDigits = (refl, (refl, tt));
      })

minutes_and_seconds : parse_duration (codes "6m0s") ≡ 0
unfolding parse_duration
minutes_and_seconds = refl

only_seconds : parse_duration (codes "7.66s") ≡ 7660
unfolding parse_duration
only_seconds = refl

abbrev limited : OpenAiError
limited =
    rate_limit_error
      (some (
        ("date", "now")
        ∷ ("x-ratelimit-requests", "60")
        ∷ ("x-ratelimit-reset-requests", "1s")
        ∷ ("x-ratelimit-reset-tokens", "20ms")
        ∷ []))
      "slow down" 429 none

limited_waits : (convert_error anthropic limited).retry_delay ≡ some 1000
unfolding convert_error parse_duration lookup
limited_waits = refl

limited_headers :
    (convert_error anthropic limited).headers
    ≡ some (
        ("x-ratelimit-limit-requests", "60")
        ∷ ("x-ratelimit-reset-requests", "1s")
        ∷ ("x-ratelimit-reset-tokens", "20ms")
        ∷ [])
unfolding convert_error filter_relevant_headers insert
limited_headers = refl
