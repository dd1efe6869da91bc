-- ===== src/Prioritization/Storage/Tests.antt =====
-- The minutes of a window of the prioritization, and metrics in memory.
use open_vm_x_ai.Common.{ℕ, ◌/◌, ◌≡◌, refl, sym, ap, ◌∙◌, some, [], ◌∷◌, eq_iff, arith}
use open_vm_x_ai.Batch.Tests.{unary}
use open_vm_x_ai.Prioritization.Storage.{Clock, window_times, split_hash}
use open_vm_x_ai.Prioritization.Storage.Window.{covered, window_times-covered}

-- The text of a minute is its number.
print-injective : (a b : ℕ) → unary.print a ≡ unary.print b → a ≡ b
print-injective a b h =
    let same : some a ≡ some b = sym (unary.read-print a) ∙ ap unary.read h ∙ unary.read-print b in
    cc

abbrev a_clock : Clock
a_clock = record {
  format = λ t. unary.print (t / 60000);
  format-same =
      λ a b h. (eq_iff (unary.print (a / 60000)) (unary.print (b / 60000))).1 (ap unary.print h);
  format-other = λ a b h.
      print-injective (a / 60000) (b / 60000)
        ((eq_iff (unary.print (a / 60000)) (unary.print (b / 60000))).0 h);
}

-- A window of 30 seconds that begins in the minute before.
window_times-covered_example :
    window_times a_clock 2 130000 30000 ≡ some (covered a_clock 130000 30000)
window_times-covered_example = window_times-covered a_clock 0 130000 30000 (omega arith)

covered_run : covered a_clock 130000 30000 ≡ 100000 ∷ 130000 ∷ []
covered_run = refl

-- The member of a pool with the sign in its name is read wrongly.
hash_in_name : split_hash "a#b#17#50" ≡ "a" ∷ "b" ∷ "17" ∷ "50" ∷ []
unfolding split_hash
hash_in_name = refl
