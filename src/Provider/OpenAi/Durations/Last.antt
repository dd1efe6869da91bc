-- ===== src/Provider/OpenAi/Durations/Last.antt =====
-- What packages/api/src/ai-provider/providers/openai.provider.ts reads of a duration of several parts.
use open_vm_x_ai.Common.{
  ℕ, ◌+◌, ◌≡◌, refl, ◌∙◌, Bool, true, false, Option, none, some, List, [], ◌∷◌, ◌++◌, All,
  if◌then◌else◌, arith,
}
use open_vm_x_ai.Provider.OpenAi.Durations.{
  is_digit, DurationUnit, hours, minutes, milliseconds, seconds, letters, span_digits, fraction_of,
  fits, match_here, exec, millis, total_millis, parse_duration, millis_or_zero,
}

-- A part of a duration: a number with one digit at least, and its unit.
pub record DurationPart : Type 0 where
  pub first_digit : ℕ
  pub more_digits : List ℕ
  pub fraction : List ℕ
  pub unit : DurationUnit

abbrev AreDigits : List ℕ → Type 0
AreDigits = All (λ c. is_digit c ≡ true)

pub record IsDurationPart (p : DurationPart) : Type 0 where
  pub first_IsDigit : is_digit p.first_digit ≡ true
  pub more_AreDigits : AreDigits p.more_digits
  pub fraction_AreDigits : AreDigits p.fraction

abbrev dotted : List ℕ → List ℕ
dotted [] = []
dotted (d ∷ digits) = b'.' ∷ d ∷ digits

-- The text of a part, before another text.
abbrev pub printed : DurationPart → List ℕ → List ℕ
printed p rest = p.first_digit ∷ (p.more_digits ++ (dotted p.fraction ++ (letters p.unit ++ rest)))

abbrev pub printed_all : List DurationPart → DurationPart → List ℕ
printed_all [] last = printed last []
printed_all (p ∷ ps) last = printed p (printed_all ps last)

-- A text at which a run of digits ends.
abbrev EndsDigits : List ℕ → Type 0
EndsDigits cs = span_digits cs ≡ ([], cs)

span_digits-run :
    (digits tail : List ℕ)
    → AreDigits digits
    → EndsDigits tail
    → span_digits (digits ++ tail) ≡ (digits, tail)
unfolding span_digits
span_digits-run [] tail h e = e
span_digits-run (d ∷ ds) tail (h, hs) e = rw (span_digits-run ds tail hs e, h) refl

EndsDigits-letters : (unit : DurationUnit) (rest : List ℕ) → EndsDigits (letters unit ++ rest)
unfolding span_digits
EndsDigits-letters hours rest = refl
EndsDigits-letters minutes rest = refl
EndsDigits-letters milliseconds rest = refl
EndsDigits-letters seconds rest = refl

EndsDigits-dotted :
    (fraction : List ℕ) (unit : DurationUnit) (rest : List ℕ)
    → EndsDigits (dotted fraction ++ (letters unit ++ rest))
unfolding span_digits
EndsDigits-dotted [] unit rest = EndsDigits-letters unit rest
EndsDigits-dotted (d ∷ ds) unit rest = refl

fraction_of-letters :
    (unit : DurationUnit) (rest : List ℕ)
    → fraction_of (letters unit ++ rest) ≡ ([], letters unit ++ rest)
unfolding fraction_of span_digits
fraction_of-letters hours rest = refl
fraction_of-letters minutes rest = refl
fraction_of-letters milliseconds rest = refl
fraction_of-letters seconds rest = refl

fraction_of-dotted :
    (fraction : List ℕ) (unit : DurationUnit) (rest : List ℕ)
    → AreDigits fraction
    → fraction_of (dotted fraction ++ (letters unit ++ rest)) ≡ (fraction, letters unit ++ rest)
unfolding fraction_of
fraction_of-dotted [] unit rest h = fraction_of-letters unit rest
fraction_of-dotted (d ∷ ds) unit rest h =
    rw (span_digits-run (d ∷ ds) (letters unit ++ rest) h (EndsDigits-letters unit rest)) refl

-- What is matched where a run of digits begins.
match_here-run :
    (wanted : DurationUnit) (d : ℕ) (ds fraction : List ℕ) (unit : DurationUnit) (rest : List ℕ)
    → AreDigits (d ∷ ds)
    → AreDigits fraction
    → match_here wanted (d ∷ (ds ++ (dotted fraction ++ (letters unit ++ rest))))
      ≡ (if fits (letters wanted) (letters unit ++ rest) then some (d ∷ ds, fraction) else none)
unfolding match_here
match_here-run wanted d ds fraction unit rest h k =
    rw
      (
        span_digits-run (d ∷ ds) (dotted fraction ++ (letters unit ++ rest)) h
            (EndsDigits-dotted fraction unit rest),
        fraction_of-dotted fraction unit rest k,
      )
      refl

-- No unit fits at letters behind which a number begins.
fits-digit :
    (wanted unit : DurationUnit) (d : ℕ) (rest : List ℕ)
    → is_digit d ≡ true
    → fits (letters wanted) (letters unit ++ d ∷ rest) ≡ false
unfolding fits
fits-digit hours hours d rest h = rw h refl
fits-digit hours minutes d rest h = refl
fits-digit hours milliseconds d rest h = refl
fits-digit hours seconds d rest h = refl
fits-digit minutes hours d rest h = refl
fits-digit minutes minutes d rest h = rw h refl
fits-digit minutes milliseconds d rest h = refl
fits-digit minutes seconds d rest h = refl
fits-digit milliseconds hours d rest h = refl
fits-digit milliseconds minutes d rest h = ground arith
fits-digit milliseconds milliseconds d rest h = rw h refl
fits-digit milliseconds seconds d rest h = refl
fits-digit seconds hours d rest h = refl
fits-digit seconds minutes d rest h = refl
fits-digit seconds milliseconds d rest h = refl
fits-digit seconds seconds d rest h = rw h refl

-- Where the unit does not fit, the search goes on behind the letters, the digits and the part.
skip-letters :
    (wanted unit : DurationUnit) (rest : List ℕ)
    → exec wanted (letters unit ++ rest) ≡ exec wanted rest
unfolding exec match_here span_digits
skip-letters wanted hours rest = refl
skip-letters wanted minutes rest = refl
skip-letters wanted milliseconds rest = refl
skip-letters wanted seconds rest = refl

skip-run :
    (wanted : DurationUnit) (ds fraction : List ℕ) (unit : DurationUnit) (rest : List ℕ)
    → AreDigits ds
    → AreDigits fraction
    → fits (letters wanted) (letters unit ++ rest) ≡ false
    → exec wanted (ds ++ (dotted fraction ++ (letters unit ++ rest)))
      ≡ exec wanted (dotted fraction ++ (letters unit ++ rest))
unfolding exec
skip-run wanted [] fraction unit rest h k no_fit = refl
skip-run wanted (d ∷ ds) fraction unit rest h k no_fit =
    rw (match_here-run wanted d ds fraction unit rest h k, no_fit)
      (skip-run wanted ds fraction unit rest h.1 k no_fit)

skip-dotted :
    (wanted : DurationUnit) (fraction : List ℕ) (unit : DurationUnit) (rest : List ℕ)
    → AreDigits fraction
    → fits (letters wanted) (letters unit ++ rest) ≡ false
    → exec wanted (dotted fraction ++ (letters unit ++ rest)) ≡ exec wanted rest
unfolding exec match_here span_digits
skip-dotted wanted [] unit rest k no_fit = skip-letters wanted unit rest
skip-dotted wanted (d ∷ ds) unit rest k no_fit =
    skip-run wanted (d ∷ ds) [] unit rest k tt no_fit ∙ skip-letters wanted unit rest

skip-part :
    (wanted : DurationUnit) (p : DurationPart) (rest : List ℕ)
    → IsDurationPart p
    → fits (letters wanted) (letters p.unit ++ rest) ≡ false
    → exec wanted (printed p rest) ≡ exec wanted rest
skip-part wanted p rest v no_fit =
    skip-run wanted (p.first_digit ∷ p.more_digits) p.fraction p.unit rest
      (v.first_IsDigit, v.more_AreDigits) v.fraction_AreDigits no_fit
    ∙ skip-dotted wanted p.fraction p.unit rest v.fraction_AreDigits no_fit

skip-parts :
    (wanted : DurationUnit) (ps : List DurationPart) (last : DurationPart)
    → All IsDurationPart ps
    → IsDurationPart last
    → exec wanted (printed_all ps last) ≡ exec wanted (printed last [])
skip-parts wanted [] last vs v = refl
skip-parts wanted (p ∷ []) last (w, vs) v =
    skip-part wanted p (printed last []) w
      (fits-digit wanted p.unit last.first_digit _ v.first_IsDigit)
skip-parts wanted (p ∷ q ∷ ps) last (w, (x, vs)) v =
    skip-part wanted p (printed_all (q ∷ ps) last) w
      (fits-digit wanted p.unit q.first_digit _ x.first_IsDigit)
    ∙ skip-parts wanted (q ∷ ps) last (x, vs) v

abbrev digits_of : DurationPart → List ℕ × List ℕ
digits_of p = (p.first_digit ∷ p.more_digits, p.fraction)

-- The last part is found by its own unit.
last-found :
    (wanted : DurationUnit) (p : DurationPart) (fit : Bool)
    → IsDurationPart p
    → fits (letters wanted) (letters p.unit ++ []) ≡ fit
    → exec wanted (printed p []) ≡ (if fit then some (digits_of p) else none)
unfolding exec
last-found wanted p false v e = skip-part wanted p [] v e
last-found wanted p true v e =
    rw
      (
        match_here-run wanted p.first_digit p.more_digits p.fraction p.unit []
            (v.first_IsDigit, v.more_AreDigits) v.fraction_AreDigits,
        e,
      )
      refl

sum-units :
    (unit : DurationUnit) (found : List ℕ × List ℕ)
    (search : DurationUnit → Option (List ℕ × List ℕ))
    → ((wanted : DurationUnit)
        → search wanted ≡ (if fits (letters wanted) (letters unit ++ []) then some found else none))
    → millis_or_zero hours (search hours)
        + (millis_or_zero minutes (search minutes)
            + (millis_or_zero milliseconds (search milliseconds)
                + (millis_or_zero seconds (search seconds) + 0)))
      ≡ millis unit found
unfolding fits
sum-units hours found search h = rw (h hours, h minutes, h milliseconds, h seconds) (omega arith)
sum-units minutes found search h = rw (h hours, h minutes, h milliseconds, h seconds) (omega arith)
sum-units milliseconds found search h =
    rw (h hours, h minutes, h milliseconds, h seconds) (omega arith)
sum-units seconds found search h = rw (h hours, h minutes, h milliseconds, h seconds) (omega arith)

-- A duration of any number of parts, each with a whole number or one with a dot and a unit, is read as
-- its last part alone: the parts before it are not counted, since a word character follows their unit.
pub parse_duration-last :
    (parts : List DurationPart) (last : DurationPart)
    → All IsDurationPart parts
    → IsDurationPart last
    → parse_duration (printed_all parts last)
      ≡ millis last.unit (last.first_digit ∷ last.more_digits, last.fraction)
unfolding parse_duration total_millis
parse_duration-last parts last vs v =
    sum-units last.unit (digits_of last) (λ wanted. exec wanted (printed_all parts last))
      (λ wanted.
        skip-parts wanted parts last vs v
        ∙ last-found wanted last (fits (letters wanted) (letters last.unit ++ [])) v refl)
