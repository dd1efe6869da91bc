-- ===== src/Batch/Retrieve.antt =====
-- How items are retrieved in packages/api/src/completion/batch/batch-queue.service.ts: the script of
-- `retrieveItems`, which moves items from the queue of a resource to its processing queue.
pub mod Script
pub mod Moved
use open_vm_x_ai.Common.{
  ℕ, zero, suc, ◌+◌, ◌-◌, Bool, true, false, Option, none, some, String, List, [], ◌∷◌, Result, ok,
  err, ltb, if◌then◌else◌, take,
}
use open_vm_x_ai.Redis.Sets.{SortedSets}
use open_vm_x_ai.Batch.Keys.{Numerals, request_tokens}

-- Arithmetic on a `nil`.
pub data LuaError : Type 0 where
  nil_arithmetic : LuaError

-- `redis.call('ZRANGE', mainQueue, 0, maxToRetrieve - 1)`, where -1 is the last member.
unfoldable pub zrange_up_to : List String → ℕ → List String
zrange_up_to members zero = members
zrange_up_to members (suc n) = take (suc n) members

-- `totalTokens > maxTokens`; `none` is Infinity.
abbrev pub is_over_tokens : Option ℕ → ℕ → Bool
is_over_tokens none total = false
is_over_tokens (some most) total = ltb most total

module _ (numerals : Numerals) (sets : SortedSets) (main processing : String) where
  open sets use {Sets, zrange, zadd, zrem}

  -- `now + visibilityTimeout` is `due`.
  abbrev pub move_item : ℕ → String → Sets → Sets
  move_item due item_id s = zadd (zrem s main item_id) processing due item_id

  abbrev pub prepend_item :
      String → Result LuaError (List String) × Sets → Result LuaError (List String) × Sets
  prepend_item item_id (ok items, s) = (ok (item_id ∷ items), s)
  prepend_item item_id (err e, s) = (err e, s)

  -- The body of the loop, for an item that shows its tokens or does not.
  abbrev pub retrieve_next :
      Option ℕ
      → ℕ
      → String
      → ℕ
      → Sets
      → (ℕ → Sets → Result LuaError (List String) × Sets)
      → Option ℕ
      → Result LuaError (List String) × Sets
  retrieve_next max_tokens due item_id total s rest none = (err nil_arithmetic, s)
  retrieve_next max_tokens due item_id total s rest (some tokens) =
      if is_over_tokens max_tokens (total + tokens)
      then (ok [], s)
      else prepend_item item_id (rest (total + tokens) (move_item due item_id s))

  -- The loop of the script. What it wrote before an error stays.
  unfoldable pub retrieve_loop :
      Option ℕ → ℕ → List String → ℕ → Sets → Result LuaError (List String) × Sets
  retrieve_loop max_tokens due [] total s = (ok [], s)
  retrieve_loop max_tokens due (item_id ∷ items) total s =
      retrieve_next max_tokens due item_id total s (retrieve_loop max_tokens due items)
        (request_tokens numerals item_id)

  -- The script: the items retrieved, and those looked at.
  unfoldable pub retrieve_script : ℕ → Option ℕ → ℕ → Sets → Result LuaError (List String) × Sets
  unfolding zrange_up_to
  retrieve_script max_to_retrieve max_tokens due s =
      retrieve_loop max_tokens due (zrange_up_to (zrange s main) max_to_retrieve) 0 s
