-- ===== src/Batch/Keys.antt =====
-- The keys and members under which packages/api/src/completion/batch/batch-queue.service.ts keeps
-- the items in Redis, and how members are taken apart again.
use Prim.Native.Char.{Char, code}
use Prim.Native.String.{String, ◌++◌}
use open_vm_x_ai.Common.{
  ℕ, ◌≡◌, Bool, true, false, not, ◌||◌, Option, none, some, List, [], ◌∷◌, ◌==◌, if◌then◌else◌,
  filter, get_elem?,
}
use open_vm_x_ai.Batch.{CompletionBatchItemEntity}

-- `s.includes('|')`.
unfoldable pub has_bar : String → Bool
has_bar String.[] = false
has_bar (String.◌∷◌ c s) = code c == b'|' || has_bar s

abbrev pub is_empty : String → Bool
is_empty String.[] = true
is_empty (String.◌∷◌ _ _) = false

-- How a number is written in JavaScript and read in Lua.
pub record Numerals : Type 0 where
  pub print : ℕ → String
  pub read : String → Option ℕ
  pub read-print : (n : ℕ) → read (print n) ≡ some n
  pub has_bar-print : (n : ℕ) → has_bar (print n) ≡ false
  pub is_empty-print : (n : ℕ) → is_empty (print n) ≡ false

unfoldable pub base_key : String → String → String
base_key workspace_id environment_id =
    "completion-batch:{" ++ (workspace_id ++ (":" ++ environment_id))

unfoldable pub queue_key : String → String → String
queue_key base_key resource_id = base_key ++ (":" ++ (resource_id ++ "}:queue"))

unfoldable pub processing_queue_key : String → String → String
processing_queue_key base_key resource_id =
    base_key ++ (":" ++ (resource_id ++ "}:processing-queue"))

unfoldable pub batch_key : String → String → String
batch_key base_key batch_id = base_key ++ (":" ++ (batch_id ++ "}:batch"))

unfoldable pub global_processing_queue_key : String
global_processing_queue_key = "{completion-batch}:global-processing-queue"

unfoldable pub standby_resources_batch_key : String
standby_resources_batch_key = "{completion-batch}:standby-resources-batch"

unfoldable pub global_active_resources_key : String
global_active_resources_key = "{completion-batch}:active-resources-batch"

-- `queueItemPayloadKey`.
unfoldable pub queue_item_payload_key : String → String → String → String → String → String
queue_item_payload_key workspace_id environment_id batch_id item_id resource_id =
    base_key workspace_id environment_id
    ++ (":" ++ (resource_id ++ ("}:item-payload:" ++ (batch_id ++ (":" ++ item_id)))))

-- A template that puts `|` between its parts.
unfoldable pub join_bar : List String → String
join_bar [] = ""
join_bar (x ∷ []) = x
join_bar (x ∷ y ∷ ys) = x ++ ("|" ++ join_bar (y ∷ ys))

unfoldable pub active_resources_member : String → String → String → String → String
active_resources_member workspace_id environment_id batch_id resource_id =
    join_bar (workspace_id ∷ environment_id ∷ batch_id ∷ resource_id ∷ [])

abbrev prepend : Char → List String → List String
prepend c [] = String.◌∷◌ c "" ∷ []
prepend c (x ∷ xs) = String.◌∷◌ c x ∷ xs

-- `s.split('|')`.
unfoldable pub split_bar : String → List String
split_bar String.[] = "" ∷ []
split_bar (String.◌∷◌ c s) =
    let rest = split_bar s in if code c == b'|' then "" ∷ rest else prepend c rest

-- `string.gmatch(s, "([^|]+)")`: the parts that are not empty.
unfoldable pub lua_parts : String → List String
lua_parts s = filter (λ p. not (is_empty p)) (split_bar s)

module _ (numerals : Numerals) where
  open numerals use {print, read, read-print, has_bar-print, is_empty-print}

  -- `getItemMemberId`.
  abbrev pub item_parts : CompletionBatchItemEntity → List String
  item_parts item =
      item.workspace_id
      ∷ item.environment_id
      ∷ item.batch_id
      ∷ item.item_id
      ∷ item.resource_id
      ∷ print item.created_at
      ∷ print item.estimated_prompt_tokens
      ∷ []

  unfoldable pub item_member_id : CompletionBatchItemEntity → String
  unfolding join_bar
  item_member_id item = join_bar (item_parts item)

  abbrev pub read_part : Option String → Option ℕ
  read_part none = none
  read_part (some part) = read part

  -- `tonumber(parts[7])` of the script.
  unfoldable pub request_tokens : String → Option ℕ
  unfolding lua_parts
  request_tokens member = read_part (get_elem? (lua_parts member) 6)
