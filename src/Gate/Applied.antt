-- ===== src/Gate/Applied.antt =====
-- Which limits `requestGate` of packages/api/src/completion/gate.service.ts applies to a request, told
-- apart from how packages/api/src/capacity/capacity.service.ts finds them.
use open_vm_x_ai.Common.{
  ◌≡◌, refl, ap, ◌∙◌, Bool, true, false, Option, Option-cases, none, some, get_or, String, List, [],
  ◌∷◌, ◌++◌, map, filter, Bool-cases, inl, inr, if◌then◌else◌,
}
use open_vm_x_ai.Capacity.{CapacityEntity, is_enabled}
use open_vm_x_ai.Capacity.Resolve.{
  CapacitySource, ai_connection, ai_resource, api_key, ResolvedCapacity, keyed,
  connection_capacities_of, enforced, api_key_capacities,
}
use open_vm_x_ai.Entities.{AiConnectionEntity, AiResourceEntity, ApiKeyEntity}
use open_vm_x_ai.Http.{FastifyRequest}

-- A limit that is switched on.
abbrev pub is_on : Option Bool → Bool
is_on (some b) = b
is_on none = false

abbrev pub switched_on : List CapacityEntity → List CapacityEntity
switched_on [] = []
switched_on (c ∷ cs) = if is_on c.enabled then c ∷ switched_on cs else switched_on cs

-- The capacities of a resource or of an API key count only where it enforces them.
abbrev pub if_enforced : Bool → Option (List CapacityEntity) → List CapacityEntity
if_enforced true (some cs) = cs
if_enforced _ _ = []

abbrev pub of_key : Option ApiKeyEntity → List CapacityEntity
of_key none = []
of_key (some k) = if_enforced k.enforce_capacity k.capacity

-- The limits of a request.
abbrev pub limits :
    AiConnectionEntity → AiResourceEntity → Option ApiKeyEntity → List CapacityEntity
limits connection resource k =
    switched_on (get_or connection.capacity [])
    ++ (switched_on (if_enforced resource.enforce_capacity resource.capacity)
        ++ switched_on (of_key k))

unfoldable pub capacities_of : List ResolvedCapacity → List CapacityEntity
capacities_of rs = map (λ r. r.capacity) rs

abbrev pub on_only : List ResolvedCapacity → List ResolvedCapacity
on_only rs = filter (λ r. is_enabled r.capacity) rs

is_on-is_enabled : (c : CapacityEntity) → is_enabled c ≡ is_on c.enabled
is_on-is_enabled c = elim (Option-cases c.enabled) [
  | inl unset ↦ rw unset refl
  | inr (b, set) ↦ rw set refl
]

capacities_of-keyed :
    (source : CapacitySource) (base : String) (request : Option FastifyRequest)
    (cs : List CapacityEntity) (rs : List ResolvedCapacity)
    → capacities_of (on_only (keyed source base request cs ++ rs))
      ≡ switched_on cs ++ capacities_of (on_only rs)
unfolding capacities_of
capacities_of-keyed source base request [] rs = refl
capacities_of-keyed source base request (c ∷ cs) rs =
    let later = capacities_of-keyed source base request cs rs in
    elim (Bool-cases (is_on c.enabled)) [
      | inl on ↦ rw (is_on-is_enabled c ∙ on, on) (ap (λ zs. c ∷ zs) later)
      | inr off ↦ rw (is_on-is_enabled c ∙ off, off) later
    ]

switched_on-filter :
    (cs : List CapacityEntity) → switched_on (filter is_enabled cs) ≡ switched_on cs
switched_on-filter [] = refl
switched_on-filter (c ∷ cs) = elim (Bool-cases (is_on c.enabled)) [
  | inl on ↦ rw (is_on-is_enabled c ∙ on, on) (ap (λ zs. c ∷ zs) (switched_on-filter cs))
  | inr off ↦ rw (is_on-is_enabled c ∙ off, off) (switched_on-filter cs)
]

enforced-if_enforced :
    (b : Bool) (o : Option (List CapacityEntity)) → enforced b o ≡ if_enforced b o
unfolding enforced
enforced-if_enforced true none = refl
enforced-if_enforced true (some cs) = refl
enforced-if_enforced false o = refl

key-of_key : (k : Option ApiKeyEntity) → api_key_capacities k ≡ of_key k
key-of_key none = refl
key-of_key (some k) = enforced-if_enforced k.enforce_capacity k.capacity

nothing_behind :
    (source : CapacitySource) (base : String) (request : Option FastifyRequest)
    (cs : List CapacityEntity)
    → capacities_of (on_only (keyed source base request cs)) ≡ switched_on cs
unfolding capacities_of
nothing_behind source base request [] = refl
nothing_behind source base request (c ∷ cs) =
    let later = nothing_behind source base request cs in
    elim (Bool-cases (is_on c.enabled)) [
      | inl on ↦ rw (is_on-is_enabled c ∙ on, on) (ap (λ zs. c ∷ zs) later)
      | inr off ↦ rw (is_on-is_enabled c ∙ off, off) later
    ]

-- What the code resolves are the limits.
pub capacities_of-resolved :
    (base : String) (request : Option FastifyRequest) (connection : AiConnectionEntity)
    (resource : AiResourceEntity) (k : Option ApiKeyEntity)
    → capacities_of (
        on_only (
          keyed ai_connection base request (connection_capacities_of connection)
          ++ (keyed ai_resource base request (enforced resource.enforce_capacity resource.capacity)
              ++ keyed api_key base request (api_key_capacities k))))
      ≡ limits connection resource k
unfolding connection_capacities_of
capacities_of-resolved base request connection resource k =
    rw
      (
        capacities_of-keyed ai_connection base request (connection_capacities_of connection) (
            keyed ai_resource base request (enforced resource.enforce_capacity resource.capacity)
            ++ keyed api_key base request (api_key_capacities k)),
        capacities_of-keyed ai_resource base request
            (enforced resource.enforce_capacity resource.capacity)
            (keyed api_key base request (api_key_capacities k)),
        nothing_behind api_key base request (api_key_capacities k),
        switched_on-filter (get_or connection.capacity []),
        enforced-if_enforced resource.enforce_capacity resource.capacity,
        key-of_key k,
      )
      refl
