-- ===== src/Redis.antt =====
-- The commands of Redis on counters, which packages/api/src/cache/redis-client.ts gives access to.
-- Redis is not part of the repository: its keyspace and commands are a parameter, with what its
-- documentation says of them. Time does not pass here: a key with a positive time to live is there
-- when it is read.
pub mod Sets
use open_vm_x_ai.Common.{
  ℕ, zero, suc, ◌+◌, ◌≡◌, ◌≢◌, refl, Option, none, some, String, get_or, str_eq, if◌then◌else◌,
  str_eq-false, eq_refl,
}

pub record RedisClient : Type 1 where
  pub Keys : Type 0
  -- GET of a counter, as the number that its text shows.
  pub get : Keys → String → Option ℕ
  -- INCRBY, and INCR as INCRBY 1.
  pub incrby : Keys → String → ℕ → Keys
  -- EXPIRE, in seconds.
  pub expire : Keys → String → ℕ → Keys
  pub get-incrby_self :
      (s : Keys) (k : String) (n : ℕ) → get (incrby s k n) k ≡ some (get_or (get s k) 0 + n)
  pub get-incrby_ne : (s : Keys) (k j : String) (n : ℕ) → k ≢ j → get (incrby s k n) j ≡ get s j
  pub get-expire_suc : (s : Keys) (k j : String) (n : ℕ) → get (expire s k (suc n)) j ≡ get s j
  -- A time to live of 0 deletes the key.
  pub get-expire_zero : (s : Keys) (k : String) → get (expire s k zero) k ≡ none
  pub get-expire_ne : (s : Keys) (k j : String) (n : ℕ) → k ≢ j → get (expire s k n) j ≡ get s j

-- A keyspace as a function, which meets all of it.
abbrev pub MemoryKeys : Type 0
MemoryKeys = String → Option ℕ

unfoldable pub memory_incrby : MemoryKeys → String → ℕ → MemoryKeys
memory_incrby s k n j = if str_eq k j then some (get_or (s j) 0 + n) else s j

unfoldable pub memory_expire : MemoryKeys → String → ℕ → MemoryKeys
memory_expire s k zero j = if str_eq k j then none else s j
memory_expire s k (suc n) j = s j

pub memory-incrby_self :
    (s : MemoryKeys) (k : String) (n : ℕ) → memory_incrby s k n k ≡ some (get_or (s k) 0 + n)
unfolding memory_incrby
memory-incrby_self s k n = rw (eq_refl k) refl

pub memory-incrby_ne : (s : MemoryKeys) (k j : String) (n : ℕ) → k ≢ j → memory_incrby s k n j ≡ s j
unfolding memory_incrby
memory-incrby_ne s k j n h = rw (str_eq-false k j h) refl

pub memory-expire_suc : (s : MemoryKeys) (k j : String) (n : ℕ) → memory_expire s k (suc n) j ≡ s j
unfolding memory_expire
memory-expire_suc s k j n = refl

pub memory-expire_zero : (s : MemoryKeys) (k : String) → memory_expire s k zero k ≡ none
unfolding memory_expire
memory-expire_zero s k = rw (eq_refl k) refl

pub memory-expire_ne : (s : MemoryKeys) (k j : String) (n : ℕ) → k ≢ j → memory_expire s k n j ≡ s j
unfolding memory_expire
memory-expire_ne s k j zero h = rw (str_eq-false k j h) refl
memory-expire_ne s k j (suc n) h = refl

abbrev pub memory_redis : RedisClient
memory_redis = record {
  Keys = MemoryKeys;
  get = λ s k. s k;
  incrby = memory_incrby;
  expire = memory_expire;
  get-incrby_self = memory-incrby_self;
  get-incrby_ne = memory-incrby_ne;
  get-expire_suc = memory-expire_suc;
  get-expire_zero = memory-expire_zero;
  get-expire_ne = memory-expire_ne;
}
