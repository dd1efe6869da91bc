-- ===== src/Batch/Tests.antt =====
-- The queues of a batch on small inputs, with Redis in memory and numbers written in unary.
use Prim.Native.String.{String}
use open_vm_x_ai.Common.{
  ℕ, zero, suc, ◌≡◌, refl, sym, ap, ◌∙◌, false, Option, none, some, List, [], ◌∷◌, ok, lookup,
  str_eq, if◌then◌else◌, length, ◌≤◌, Result,
}
use open_vm_x_ai.Common.Int.{pos}
use open_vm_x_ai.Redis.Sets.{memory_sets, MemorySets, memory_zadd, memory_zrem, place, remove}
use open_vm_x_ai.Batch.{CompletionBatchItemEntity, pending}
use open_vm_x_ai.Batch.Keys.{
  has_bar, is_empty, Numerals, base_key, queue_key, processing_queue_key,
  global_processing_queue_key, join_bar, split_bar, lua_parts, item_parts, item_member_id,
  request_tokens,
}
use open_vm_x_ai.Batch.Members.{IsPart, HasParts, item_member_id-split_bar}
use open_vm_x_ai.Batch.Retrieve.{LuaError, zrange_up_to, retrieve_loop, retrieve_script}
use open_vm_x_ai.Batch.Retrieve.Script.{
  ShowTokens, Retrieved, retrieve_script-Retrieved, retrieve_script-count,
}
use open_vm_x_ai.Batch.Queue.{send_item}
use open_vm_x_ai.Batch.Machine.{
  Machine, IsItem, Reach, here, next, send, retrieve, crash, IsKept, HasTimestamps, AreDistinct,
}
use open_vm_x_ai.Batch.Machine.Keep.{Inv, Reach-IsKept}
use open_vm_x_ai.Batch.Machine.Handled.{is_handled}
use open_vm_x_ai.Batch.Machine.Strand.{IsHandled, Reach-IsHandled, Reach-lost}

unfoldable pub print : ℕ → String
print zero = "0"
print (suc n) = String.◌∷◌ "1" (print n)

unfoldable pub size : String → ℕ
size String.[] = 0
size (String.◌∷◌ c s) = suc (size s)

abbrev pub less_one : ℕ → ℕ
less_one zero = zero
less_one (suc n) = n

pub size-print : (n : ℕ) → size (print n) ≡ suc n
unfolding print size
size-print zero = refl
size-print (suc n) = ap suc (size-print n)

pub has_bar-print : (n : ℕ) → has_bar (print n) ≡ false
unfolding print has_bar
has_bar-print zero = refl
has_bar-print (suc n) = has_bar-print n

pub is_empty-print : (n : ℕ) → is_empty (print n) ≡ false
unfolding print
is_empty-print zero = refl
is_empty-print (suc n) = refl

abbrev pub unary : Numerals
unary = record {
  print = print;
  read = λ s. some (less_one (size s));
  read-print = λ n. ap (λ k. some (less_one k)) (size-print n);
  has_bar-print = has_bar-print;
  is_empty-print = is_empty-print;
}

abbrev pub first_item : CompletionBatchItemEntity
first_item = record {
  workspace_id = "w";
  environment_id = "e";
  batch_id = "b";
  item_id = "i";
  resource_id = "r";
  status = pending;
  created_at = 2;
  estimated_prompt_tokens = 3;
}

one_letter-IsPart : (s : String) → has_bar s ≡ false → is_empty s ≡ false → IsPart s
one_letter-IsPart s a b = record { no_bar = a; not_empty = b }

first_item-HasParts : HasParts unary first_item
unfolding has_bar
first_item-HasParts = record {
  workspace_part = one_letter-IsPart "w" refl refl;
  environment_part = one_letter-IsPart "e" refl refl;
  batch_part = one_letter-IsPart "b" refl refl;
  item_part = one_letter-IsPart "i" refl refl;
  resource_part = one_letter-IsPart "r" refl refl;
}

item_member_id-split_bar_example :
    (split_bar (item_member_id unary first_item) ≡ item_parts unary first_item)
    × (request_tokens unary (item_member_id unary first_item) ≡ some 3)
item_member_id-split_bar_example = item_member_id-split_bar unary first_item first_item-HasParts

abbrev two_queued : MemorySets
two_queued k =
    if str_eq k "q" then ("w|e|b|i|r|110|1110", 2) ∷ ("w|e|b|j|r|110|1110", 2) ∷ [] else []

abbrev three : String → ℕ
three m = 3

two_queued-tokens : ShowTokens unary three ("w|e|b|i|r|110|1110" ∷ "w|e|b|j|r|110|1110" ∷ [])
unfolding request_tokens lua_parts split_bar size
two_queued-tokens = (refl, (refl, tt))

-- Of two items, of three tokens each, one is retrieved within five tokens.
retrieve_script-Retrieved_example :
    Retrieved unary memory_sets "q" "p" three
      (some 5)
      9
      (zrange_up_to ("w|e|b|i|r|110|1110" ∷ "w|e|b|j|r|110|1110" ∷ []) 2)
      0
      two_queued
      (retrieve_script unary memory_sets "q" "p" 2 (some 5) 9 two_queued)
retrieve_script-Retrieved_example =
    retrieve_script-Retrieved unary memory_sets "q" "p" three 2 (some 5) 9 two_queued
      two_queued-tokens

retrieve_script-count_example :
    ((n : ℕ) (max_tokens : Option ℕ)
      → (taken : List String) × ((retrieve_script unary memory_sets "q" "p"
            (suc n)
            max_tokens
            9
            two_queued).0
          ≡ ok taken)
        × (length taken ≤ suc n))
    × ((retrieve_script unary memory_sets "q" "p" 0 none 9 two_queued).0
        ≡ ok ("w|e|b|i|r|110|1110" ∷ "w|e|b|j|r|110|1110" ∷ []))
retrieve_script-count_example =
    retrieve_script-count unary memory_sets "q" "p" three 9 two_queued two_queued-tokens

abbrev one_moved : MemorySets
one_moved = (retrieve_script unary memory_sets "q" "p" 2 (some 5) 9 two_queued).1

retrieve_two :
    retrieve_script unary memory_sets "q" "p" 2 (some 5) 9 two_queued
    ≡ (ok ("w|e|b|i|r|110|1110" ∷ []), one_moved)
unfolding retrieve_script retrieve_loop zrange_up_to request_tokens lua_parts split_bar size
retrieve_two = refl

-- A machine for one item, which is sent and retrieved before a crash.
abbrev Known : CompletionBatchItemEntity → Type 0
Known item = item ≡ first_item

abbrev nothing : Machine unary memory_sets
nothing = record {
  queue = record {
    stored = λ k. [];
    payloads = λ k. none;
    pending = pos 1;
    completed = pos 0;
    failed = pos 0;
  };
  live = [];
  held = [];
  taken = [];
  active = [];
  drained = [];
}

first_item-IsItem : IsItem unary memory_sets "w" "e" "r" Known first_item
first_item-IsItem = record {
  of_workspace = refl;
  of_environment = refl;
  of_resource = refl;
  parts = first_item-HasParts;
  is_known = refl;
}

Known-AreDistinct : AreDistinct unary memory_sets "w" "e" "r" Known
Known-AreDistinct a b ia ib e = ap (item_member_id unary) (ia.is_known ∙ sym ib.is_known)

abbrev sent : Machine unary memory_sets
sent = record nothing {
  queue = send_item unary memory_sets first_item nothing.queue;
  live = item_member_id unary first_item ∷ [];
}

abbrev main : String
main = queue_key (base_key "w" "e") "r"

abbrev processing : String
processing = processing_queue_key (base_key "w" "e") "r"

abbrev outcome : Result LuaError (List String) × MemorySets
outcome = retrieve_script unary memory_sets main processing 1 none 9 sent.queue.stored

retrieved_first : outcome ≡ (ok (item_member_id unary first_item ∷ []), outcome.1)
unfolding retrieve_script retrieve_loop zrange_up_to request_tokens lua_parts split_bar size
    item_member_id join_bar send_item memory_zadd memory_zrem place remove queue_key
    processing_queue_key base_key print
retrieved_first = refl

abbrev retrieved : Machine unary memory_sets
retrieved = record sent {
  queue = record (sent.queue) { stored = outcome.1 };
  held = item_member_id unary first_item ∷ [];
}

abbrev crashed : Machine unary memory_sets
crashed = record retrieved { held = []; taken = []; drained = [] }

abbrev sent_and_retrieved : Reach unary memory_sets "w" "e" "r" Known nothing retrieved
sent_and_retrieved =
    next (next here (send first_item nothing first_item-IsItem)) (
      retrieve 1 none 9 (item_member_id unary first_item ∷ []) (outcome.1) "r" sent retrieved_first)

Reach-IsKept_example :
    IsKept unary memory_sets "w" "e" "r" Known crashed
    × HasTimestamps unary memory_sets "w" "e" "r" Known crashed
Reach-IsKept_example =
    Reach-IsKept unary memory_sets "w" "e" "r" Known nothing crashed Known-AreDistinct
      (next sent_and_retrieved (crash retrieved)) (λ m h. cc h) (λ item i h. cc h)

nothing-Inv : Inv unary memory_sets "w" "e" "r" Known nothing
nothing-Inv = (λ m h. cc h, λ item i h. cc h)

Reach-IsHandled_example :
    Inv unary memory_sets "w" "e" "r" Known retrieved
    × IsHandled unary memory_sets "w" "e" "r" Known retrieved
Reach-IsHandled_example =
    Reach-IsHandled unary memory_sets "w" "e" "r" Known nothing retrieved Known-AreDistinct
      sent_and_retrieved refl nothing-Inv (λ m h. cc h)

abbrev crashed_sets : MemorySets
crashed_sets = (retrieve_script unary memory_sets main processing 1 none 9 crashed.queue.stored).1

retrieved_none :
    retrieve_script unary memory_sets main processing 1 none 9 crashed.queue.stored
    ≡ (ok [], crashed_sets)
unfolding retrieve_script retrieve_loop zrange_up_to request_tokens lua_parts split_bar size
    item_member_id join_bar send_item memory_zadd memory_zrem place remove queue_key
    processing_queue_key base_key print
retrieved_none = refl

-- After the crash the item is in neither queue that is read.
first_item_lost :
    is_handled unary memory_sets "w" "e" "r" Known (item_member_id unary first_item) crashed ≡ false
unfolding retrieve_script retrieve_loop zrange_up_to request_tokens lua_parts split_bar size
    item_member_id join_bar send_item memory_zadd memory_zrem place remove queue_key
    processing_queue_key base_key print global_processing_queue_key lookup
first_item_lost = refl

Reach-lost_example :
    is_handled unary memory_sets "w" "e" "r" Known
      (item_member_id unary first_item)
      (record crashed {
        queue = record (crashed.queue) { stored = crashed_sets };
        held = [];
        drained = "r" ∷ [];
      })
    ≡ false
Reach-lost_example =
    Reach-lost unary memory_sets "w" "e" "r" Known (item_member_id unary first_item) crashed
      (record crashed {
        queue = record (crashed.queue) { stored = crashed_sets };
        held = [];
        drained = "r" ∷ [];
      })
      (next here (retrieve 1 none 9 [] crashed_sets "r" crashed retrieved_none)) refl
      first_item_lost
