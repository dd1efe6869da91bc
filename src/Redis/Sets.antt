-- ===== src/Redis/Sets.antt =====
-- The commands of Redis on sorted sets and on numbers in hashes, as the queues use them.
-- Redis is a parameter here too: the laws say what its documentation says of each command.
use open_vm_x_ai.Common.{
  ℕ, ◌≡◌, refl, ◌∙◌, ◌&&◌, Option, none, some, is_some, String, List, [], ◌∷◌, map, includes,
  str_eq, leb, if◌then◌else◌, lookup, eq_iff, eq_refl, Bool-cases, inl, inr, arith,
}

pub record SortedSets : Type 1 where
  pub Sets : Type 0
  -- ZSCORE key member.
  pub zscore : Sets → String → String → Option ℕ
  -- ZRANGE key 0 -1: the members in the order of their scores.
  pub zrange : Sets → String → List String
  -- ZADD key score member.
  pub zadd : Sets → String → ℕ → String → Sets
  -- ZREM key member.
  pub zrem : Sets → String → String → Sets
  pub zscore-zadd :
      (s : Sets) (k : String) (n : ℕ) (m j x : String)
      → zscore (zadd s k n m) j x ≡ (if str_eq k j && str_eq m x then some n else zscore s j x)
  pub zscore-zrem :
      (s : Sets) (k m j x : String)
      → zscore (zrem s k m) j x ≡ (if str_eq k j && str_eq m x then none else zscore s j x)
  pub includes-zrange : (s : Sets) (k m : String) → includes (zrange s k) m ≡ is_some (zscore s k m)

-- A set in memory: its members with their scores, in the order of the scores.
abbrev pub MemorySets : Type 0
MemorySets = String → List (String × ℕ)

unfoldable pub remove : String → List (String × ℕ) → List (String × ℕ)
remove m [] = []
remove m ((x, n) ∷ xs) = let rest = remove m xs in if str_eq x m then rest else (x, n) ∷ rest

unfoldable pub place : String → ℕ → List (String × ℕ) → List (String × ℕ)
place m n [] = (m, n) ∷ []
place m n ((x, k) ∷ xs) = if leb k n then (x, k) ∷ place m n xs else (m, n) ∷ (x, k) ∷ xs

lookup-remove :
    (m x : String) (xs : List (String × ℕ))
    → lookup x (remove m xs) ≡ (if str_eq m x then none else lookup x xs)
unfolding remove lookup
lookup-remove m x [] = ground arith
lookup-remove m x ((y, n) ∷ xs) =
    ground (arith, lookup-remove m x xs, eq_iff m x, eq_iff y m, eq_iff y x)

some_is_not_none {ℓ κ} : {A : Type ℓ} {B : Type κ} {a : A} → some a ≡ none → B
some_is_not_none e = cc

lookup-place :
    (m x : String) (n : ℕ) (xs : List (String × ℕ))
    → lookup m xs ≡ none
    → lookup x (place m n xs) ≡ (if str_eq m x then some n else lookup x xs)
unfolding place lookup
lookup-place m x n [] h = refl
lookup-place m x n ((y, k) ∷ xs) h = elim (Bool-cases (str_eq y m)) [
  | inl same ↦ some_is_not_none (rw same at h)
  | inr other ↦
      let later = lookup-place m x n xs (rw other at h) in
      ground (arith, later, eq_iff m x, eq_iff y m, eq_iff y x)
]

pub includes-map :
    (m : String) (xs : List (String × ℕ)) → includes (map (λ p. p.0) xs) m ≡ is_some (lookup m xs)
unfolding lookup
includes-map m [] = refl
includes-map m ((x, n) ∷ xs) = ground (arith, includes-map m xs)

unfoldable pub memory_zadd : MemorySets → String → ℕ → String → MemorySets
unfolding place remove
memory_zadd s k n m j = let xs = s j in if str_eq k j then place m n (remove m xs) else xs

unfoldable pub memory_zrem : MemorySets → String → String → MemorySets
unfolding remove
memory_zrem s k m j = let xs = s j in if str_eq k j then remove m xs else xs

pub memory-zscore-zadd :
    (s : MemorySets) (k : String) (n : ℕ) (m j x : String)
    → lookup x (memory_zadd s k n m j)
      ≡ (if str_eq k j && str_eq m x then some n else lookup x (s j))
unfolding memory_zadd
memory-zscore-zadd s k n m j x = elim (Bool-cases (str_eq k j)) [
  | inr other ↦ rw other refl
  | inl same ↦
      let gone : lookup m (remove m (s j)) ≡ none = lookup-remove m m (s j) ∙ rw (eq_refl m) refl in
      let kept = lookup-remove m x (s j) in
      rw (same, lookup-place m x n (remove m (s j)) gone, kept) (ground arith)
]

pub memory-zscore-zrem :
    (s : MemorySets) (k m j x : String)
    → lookup x (memory_zrem s k m j) ≡ (if str_eq k j && str_eq m x then none else lookup x (s j))
unfolding memory_zrem
memory-zscore-zrem s k m j x = ground (arith, lookup-remove m x (s j))

abbrev pub memory_sets : SortedSets
memory_sets = record {
  Sets = MemorySets;
  zscore = λ s k m. lookup m (s k);
  zrange = λ s k. map (λ p. p.0) (s k);
  zadd = memory_zadd;
  zrem = memory_zrem;
  zscore-zadd = memory-zscore-zadd;
  zscore-zrem = memory-zscore-zrem;
  includes-zrange = λ s k m. includes-map m (s k);
}
