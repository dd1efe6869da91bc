-- ===== src/Batch/Machine/Placed.antt =====
-- Which members the two queues of a resource have after each command.
use Prim.Native.String.{String}
use open_vm_x_ai.Common.{
  ℕ, ◌≡◌, ◌≢◌, refl, sym, ◌∙◌, subst, Bool, true, false, not, ◌&&◌, ◌||◌, is_some, List, [], ◌∷◌,
  ◌++◌, includes, str_eq, str_eq-false, eq_refl, eq_iff, Bool-cases, inl, inr, arith,
}
use open_vm_x_ai.Redis.Sets.{SortedSets}
use open_vm_x_ai.Batch.Keys.{Numerals, global_processing_queue_key}
use open_vm_x_ai.Batch.Retrieve.Moved.{IsMoved}
use open_vm_x_ai.Batch.Queue.{remove_all, zadd_xx}
use open_vm_x_ai.Batch.Machine.{without, main, processing}

pub includes-without :
    (m x : String) (ms : List String)
    → includes (without m ms) x ≡ (includes ms x && not (str_eq m x))
includes-without m x [] = refl
includes-without m x (y ∷ ms) =
    ground (arith, includes-without m x ms, eq_iff m x, eq_iff y m, eq_iff y x)

pub includes-append :
    (xs ys : List String) (m : String) → includes (xs ++ ys) m ≡ (includes xs m || includes ys m)
includes-append [] ys m = refl
includes-append (x ∷ xs) ys m = ground (arith, includes-append xs ys m)

-- The keys of one resource, told apart.
pub record AreApart (main processing global : String) : Type 0 where
  pub main_main : str_eq main main ≡ true
  pub processing_processing : str_eq processing processing ≡ true
  pub main_processing : str_eq main processing ≡ false
  pub processing_main : str_eq processing main ≡ false
  pub global_main : str_eq global main ≡ false
  pub global_processing : str_eq global processing ≡ false
  pub main_global : str_eq main global ≡ false
  pub processing_global : str_eq processing global ≡ false

pub apart : (m p g : String) → m ≢ p → m ≢ g → p ≢ g → AreApart m p g
apart m p g mp mg pg = record {
  main_main = eq_refl m;
  processing_processing = eq_refl p;
  main_processing = str_eq-false m p mp;
  processing_main = str_eq-false p m (λ e. mp (sym e));
  global_main = str_eq-false g m (λ e. mg (sym e));
  global_processing = str_eq-false g p (λ e. pg (sym e));
  main_global = str_eq-false m g mg;
  processing_global = str_eq-false p g pg;
}

module _ (numerals : Numerals) (sets : SortedSets) where
  open sets use {Sets, zscore, zadd, zrem, zscore-zadd, zscore-zrem}

  abbrev pub is_placed : String → String → Sets → String → Bool
  is_placed main processing s m = is_some (zscore s main m) || is_some (zscore s processing m)

  module _ (main processing : String)
      (a : AreApart main processing global_processing_queue_key) where
    open a use {
      main_main, processing_processing, main_processing, processing_main, global_main,
      global_processing,
    }

    pub zadd-is_placed :
        (s : Sets) (n : ℕ) (m x : String)
        → is_placed main processing (zadd s main n m) x
          ≡ (str_eq m x || is_placed main processing s x)
    zadd-is_placed s n m x =
        rw
          (
            zscore-zadd s main n m main x,
            zscore-zadd s main n m processing x,
            main_main,
            main_processing,
          )
          (ground arith)

    pub zadd_global-is_placed :
        (s : Sets) (n : ℕ) (m x : String)
        → is_placed main processing (zadd s global_processing_queue_key n m) x
          ≡ is_placed main processing s x
    zadd_global-is_placed s n m x =
        rw
          (
            zscore-zadd s global_processing_queue_key n m main x,
            zscore-zadd s global_processing_queue_key n m processing x,
            global_main,
            global_processing,
          )
          refl

    pub zrem_global-is_placed :
        (s : Sets) (m x : String)
        → is_placed main processing (zrem s global_processing_queue_key m) x
          ≡ is_placed main processing s x
    zrem_global-is_placed s m x =
        rw
          (
            zscore-zrem s global_processing_queue_key m main x,
            zscore-zrem s global_processing_queue_key m processing x,
            global_main,
            global_processing,
          )
          refl

    pub remove_all-is_placed :
        (ms : List String) (s : Sets) (x : String)
        → is_placed main processing (remove_all numerals sets global_processing_queue_key ms s) x
          ≡ is_placed main processing s x
    unfolding remove_all
    remove_all-is_placed [] s x = refl
    remove_all-is_placed (m ∷ ms) s x =
        remove_all-is_placed ms (zrem s global_processing_queue_key m) x
        ∙ zrem_global-is_placed s m x

    -- Taking a member out of the processing queue leaves the others where they are.
    pub zrem_processing-is_placed :
        (s : Sets) (m x : String)
        → str_eq m x ≡ false
        → is_placed main processing (zrem s processing m) x ≡ is_placed main processing s x
    zrem_processing-is_placed s m x other =
        rw
          (
            zscore-zrem s processing m main x,
            zscore-zrem s processing m processing x,
            processing_main,
            processing_processing,
            other,
          )
          refl

    pub moved-is_placed :
        (due : ℕ) (items : List String) (s s' : Sets) (x : String)
        → IsMoved numerals sets main processing due items s s'
        → is_placed main processing s x ≡ true
        → is_placed main processing s' x ≡ true
    moved-is_placed due items s s' x moved was =
        rw (moved main x, moved processing x, processing_main, main_main, processing_processing)
          (ground arith)

    -- A ZADD with XX changes which members there are in no set.
    pub zadd_xx-is_some :
        (s : Sets) (key : String) (n : ℕ) (m j x : String)
        → is_some (zscore (zadd_xx numerals sets s key n m) j x) ≡ is_some (zscore s j x)
    zadd_xx-is_some s key n m j x = elim (Bool-cases (is_some (zscore s key m))) [
      | inr missing ↦ rw missing refl
      | inl there ↦ elim (Bool-cases (str_eq key j && str_eq m x)) [
        | inr other ↦ rw (there, zscore-zadd s key n m j x, other) refl
        | inl same ↦
            let key_same : key ≡ j = (eq_iff key j).0 (ground arith) in
            let member_same : m ≡ x = (eq_iff m x).0 (ground arith) in
            let old : is_some (zscore s j x) ≡ true =
              subst (λ k. is_some (zscore s k x) ≡ true) key_same
                (subst (λ y. is_some (zscore s key y) ≡ true) member_same there) in
            rw (there, zscore-zadd s key n m j x, same, old) refl
      ]
    ]
