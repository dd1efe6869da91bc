-- ===== src/Provider/OpenAi/Durations.antt =====
-- `parseDuration` of packages/api/src/ai-provider/providers/openai.provider.ts, on the code points of
-- the text. A number of milliseconds is rounded down.
pub mod Last
use Prim.Native.Char.{code}
use open_vm_x_ai.Common.{
  ℕ, zero, suc, ◌+◌, ◌-◌, ◌*◌, ◌/◌, ◌≡◌, refl, Bool, true, false, not, ◌&&◌, ◌||◌, Option, none,
  some, String, List, [], ◌∷◌, leb, length, ◌==◌, if◌then◌else◌,
}

abbrev pub codes : String → List ℕ
codes String.[] = []
codes (String.◌∷◌ c s) = code c ∷ codes s

-- `\d` and `\w`.
abbrev pub is_digit : ℕ → Bool
is_digit c = leb b'0' c && leb c b'9'

abbrev pub is_word : ℕ → Bool
is_word c = is_digit c || (leb b'a' c && leb c b'z') || (leb b'A' c && leb c b'Z') || c == b'_'

pub data DurationUnit : Type 0 where
  hours minutes milliseconds seconds : DurationUnit

abbrev pub letters : DurationUnit → List ℕ
letters hours = b'h' ∷ []
letters minutes = b'm' ∷ []
letters milliseconds = b'm' ∷ b's' ∷ []
letters seconds = b's' ∷ []

-- `timeUnits`.
abbrev pub factor : DurationUnit → ℕ
factor hours = 3600000
factor minutes = 60000
factor milliseconds = 1
factor seconds = 1000

-- `\d*`, with what follows.
unfoldable pub span_digits : List ℕ → List ℕ × List ℕ
span_digits [] = ([], [])
span_digits (c ∷ cs) =
    let (digits, rest) = span_digits cs in if is_digit c then (c ∷ digits, rest) else ([], c ∷ cs)

abbrev pub dot_or : List ℕ → List ℕ × List ℕ → List ℕ × List ℕ
dot_or cs ([], rest) = ([], cs)
dot_or cs (d ∷ digits, rest) = (d ∷ digits, rest)

-- `(?:\.\d+)?`: the digits after the dot.
unfoldable pub fraction_of : List ℕ → List ℕ × List ℕ
unfolding span_digits
fraction_of [] = ([], [])
fraction_of (c ∷ cs) = if c == b'.' then dot_or (c ∷ cs) (span_digits cs) else ([], c ∷ cs)

-- `(?!\w)`.
abbrev pub no_word : List ℕ → Bool
no_word [] = true
no_word (c ∷ cs) = not (is_word c)

-- The unit and what must not follow it.
unfoldable pub fits : List ℕ → List ℕ → Bool
fits [] cs = no_word cs
fits (u ∷ us) [] = false
fits (u ∷ us) (c ∷ cs) = if u == c then fits us cs else false

abbrev pub number_or_none : List ℕ → List ℕ → Bool → Option (List ℕ × List ℕ)
number_or_none [] fraction fit = none
number_or_none (d ∷ digits) fraction fit = if fit then some (d ∷ digits, fraction) else none

-- A match at the first place: the digits before and after the dot. With fewer digits, or without the
-- fraction that is there, a digit or a dot would stand where a unit, which is made of letters, begins;
-- so no other choice of the expression matches.
unfoldable pub match_here : DurationUnit → List ℕ → Option (List ℕ × List ℕ)
unfolding span_digits fraction_of fits
match_here unit cs =
    let (digits, rest) = span_digits cs in
    let (fraction, after) = fraction_of rest in
    number_or_none digits fraction (fits (letters unit) after)

abbrev pub or_later : Option (List ℕ × List ℕ) → Option (List ℕ × List ℕ) → Option (List ℕ × List ℕ)
or_later none later = later
or_later (some found) later = some found

-- `exec`: the first match.
unfoldable pub exec : DurationUnit → List ℕ → Option (List ℕ × List ℕ)
unfolding match_here
exec unit [] = none
exec unit (c ∷ cs) = or_later (match_here unit (c ∷ cs)) (exec unit cs)

-- The number that the digits are, behind the digits before them.
unfoldable pub number_from : ℕ → List ℕ → ℕ
number_from n [] = n
number_from n (d ∷ digits) = number_from (n * 10 + (d - b'0')) digits

abbrev pub power_of_ten : ℕ → ℕ
power_of_ten zero = 1
power_of_ten (suc n) = 10 * power_of_ten n

-- `parseFloat(match[1]) * timeUnits[unit]`.
unfoldable pub millis : DurationUnit → List ℕ × List ℕ → ℕ
unfolding number_from
millis unit (digits, fraction) =
    number_from 0 digits * factor unit
    + number_from 0 fraction * factor unit / power_of_ten (length fraction)

abbrev pub millis_or_zero : DurationUnit → Option (List ℕ × List ℕ) → ℕ
millis_or_zero unit none = 0
millis_or_zero unit (some found) = millis unit found

-- `orderedUnits`.
abbrev pub ordered_units : List DurationUnit
ordered_units = hours ∷ minutes ∷ milliseconds ∷ seconds ∷ []

-- The loop over the units.
unfoldable pub total_millis : List DurationUnit → List ℕ → ℕ
unfolding exec millis
total_millis [] cs = 0
total_millis (unit ∷ units) cs = millis_or_zero unit (exec unit cs) + total_millis units cs

-- `parseDuration`.
unfoldable pub parse_duration : List ℕ → ℕ
unfolding total_millis
parse_duration cs = total_millis ordered_units cs
