-- ===== src/Batch/Consumer/Slots.antt =====
-- How packages/api/src/completion/batch/batch-queue.base-consumer.ts shares the free slots of a
-- consumer among the resources.
use Prim.Native.Nat.mul
use open_vm_x_ai.Common.{ℕ, ◌+◌, List, [], ◌∷◌}

abbrev pub sum : List ℕ → ℕ
sum [] = 0
sum (n ∷ ns) = n + sum ns
