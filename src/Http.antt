-- ===== src/Http.antt =====
-- packages/api/src/utils/http.ts: the address that a request comes from.
use Prim.Native.Char.{code}
use Prim.Native.String.{String, [], ◌∷◌}
use open_vm_x_ai.Common.{
  ℕ, ◌≡◌, refl, Bool, true, false, ◌&&◌, ◌||◌, Option, none, some, get_or, leb, ◌==◌, if◌then◌else◌,
}
use open_vm_x_ai.Common

-- A header is absent, a text, or (given more than once) a list of texts.
pub data HeaderValue : Type 0 where
  one : String → HeaderValue
  many : Common.List String → HeaderValue

pub record FastifyRequest : Type 0 where
  pub ip : String
  pub forwarded_for : Option HeaderValue

-- `s.split(',')[0]`.
unfoldable pub before_comma : String → String
before_comma [] = []
before_comma (c ∷ s) = if code c == b',' then [] else c ∷ before_comma s

-- The white space and line ends of ECMAScript.
is_space : ℕ → Bool
is_space c =
    (leb 9 c && leb c 13)
    || c == 32
    || c == 160
    || c == 5760
    || (leb 8192 c && leb c 8202)
    || c == 8232
    || c == 8233
    || c == 8239
    || c == 8287
    || c == 12288
    || c == 65279

trim_start : String → String
trim_start [] = []
trim_start (c ∷ s) = let rest = trim_start s in if is_space (code c) then rest else c ∷ s

is_empty : String → Bool
is_empty [] = true
is_empty (_ ∷ _) = false

trim_end : String → String
trim_end [] = []
trim_end (c ∷ s) =
    let rest = trim_end s in if is_space (code c) && is_empty rest then [] else c ∷ rest

-- `s.trim()`.
unfoldable pub trim : String → String
unfolding trim_start trim_end is_space is_empty
trim s = trim_end (trim_start s)

-- `forwardedForValue`: an empty header is no header.
unfoldable pub forwarded_for_value : Option HeaderValue → Option String
unfolding trim before_comma is_empty
forwarded_for_value none = none
forwarded_for_value (some (one s)) = if is_empty s then none else some (trim (before_comma s))
forwarded_for_value (some (many Common.[])) = none
forwarded_for_value (some (many (Common.◌∷◌ s ss))) = some (trim (before_comma s))

unfoldable pub get_source_ip_from_request : FastifyRequest → String
unfolding forwarded_for_value
get_source_ip_from_request r = get_or (forwarded_for_value r.forwarded_for) r.ip

forwarded :
    get_source_ip_from_request
      (record { ip = "10.0.0.1"; forwarded_for = some (one " 1.2.3.4 , 5.6.7.8") })
    ≡ "1.2.3.4"
unfolding get_source_ip_from_request
forwarded = refl
