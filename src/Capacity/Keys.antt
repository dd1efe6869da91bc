-- ===== src/Capacity/Keys.antt =====
-- The Redis keys of the capacity counters: packages/api/src/capacity/capacity.service.ts.
use Prim.Native.Char.{Char, code}
use Prim.Native.String.{String, [], ◌∷◌, ◌++◌}
use text.Mathlib.TextLemmas.{nil-append, cons-append}
use open_vm_x_ai.Common.{
  ◌≡◌, refl, Bool, true, false, Option, none, some, Result, ok, err, ◌==◌, if◌then◌else◌, arith,
}
use open_vm_x_ai.Capacity.{CapacityEntity, CapacityDimension, source_ip}
use open_vm_x_ai.Http.{FastifyRequest, get_source_ip_from_request}

unfoldable pub get_resource_key_prefix : String → String → String → String → String
get_resource_key_prefix workspace_id environment_id resource_id ai_connection_id =
    "capacity:{"
    ++ (workspace_id
        ++ (":"
            ++ (environment_id ++ (":" ++ (resource_id ++ (":" ++ (ai_connection_id ++ "}")))))))

-- `resourceKeyPrefix + ':resource-usage:'`, the base of every counter that limits a request.
unfoldable pub usage_prefix : String → String
usage_prefix resource_key_prefix = resource_key_prefix ++ ":resource-usage:"

-- `s.endsWith(':')`.
unfoldable pub ends_with_colon : String → Bool
ends_with_colon [] = false
ends_with_colon (c ∷ []) = code c == b':'
ends_with_colon (c ∷ d ∷ s) = ends_with_colon (d ∷ s)

pub data CapacityError : Type 0 where
  base_key_prefix : CapacityError

pub record KeyPrefix : Type 0 where
  pub key_prefix : String
  pub dimension_value : Option String

abbrev pub source_ip_prefix : String → String → KeyPrefix
source_ip_prefix base ip = record {
  key_prefix = base ++ ("source-ip:" ++ (ip ++ ":"));
  dimension_value = some ip;
}

-- The key of a capacity once the base is checked.
unfoldable pub key_prefix_for :
    Option CapacityDimension → String → Option FastifyRequest → KeyPrefix
key_prefix_for _ base none = record { key_prefix = base; dimension_value = none }
key_prefix_for (some source_ip) base (some request) =
    source_ip_prefix base (get_source_ip_from_request request)
key_prefix_for none base (some request) = record { key_prefix = base; dimension_value = none }

-- `resolveCapacityKeyPrefix`.
unfoldable pub resolve_capacity_key_prefix :
    CapacityEntity → String → Option FastifyRequest → Result CapacityError KeyPrefix
resolve_capacity_key_prefix capacity base request =
    if ends_with_colon base
    then ok (key_prefix_for capacity.dimension base request)
    else err base_key_prefix

ends_with_colon-cons :
    (c : Char) (s : String) → ends_with_colon s ≡ true → ends_with_colon (c ∷ s) ≡ true
unfolding ends_with_colon
ends_with_colon-cons c [] h = ground arith
ends_with_colon-cons c (d ∷ s) h = h

ends_with_colon-append : (s t : String) → ends_with_colon t ≡ true → ends_with_colon (s ++ t) ≡ true
ends_with_colon-append [] t h = rw nil-append h
ends_with_colon-append (c ∷ s) t h =
    rw cons-append (ends_with_colon-cons c (s ++ t) (ends_with_colon-append s t h))

usage_suffix : ends_with_colon ":resource-usage:" ≡ true
unfolding ends_with_colon
usage_suffix = refl

-- The check of the base never fails for the counters that the service uses.
pub resolve_capacity_key_prefix-ok :
    (capacity : CapacityEntity) (prefix : String) (request : Option FastifyRequest)
    → resolve_capacity_key_prefix capacity (usage_prefix prefix) request
      ≡ ok (key_prefix_for capacity.dimension (usage_prefix prefix) request)
unfolding resolve_capacity_key_prefix usage_prefix
resolve_capacity_key_prefix-ok capacity prefix request =
    rw (ends_with_colon-append prefix ":resource-usage:" usage_suffix) refl
