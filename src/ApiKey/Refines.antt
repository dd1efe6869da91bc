-- ===== src/ApiKey/Refines.antt =====
-- The answers of packages/api/src/api-key/api-key.service.ts with its caches, compared with those of
-- the service without.
use open_vm_x_ai.Common.{
  ℕ, ◌≡◌, refl, sym, ap, ◌∙◌, Bool, true, false, Option, none, String, List, [], ◌∷◌, any, Result,
  ok, err, Bool-cases, inl, inr, arith,
}
use open_vm_x_ai.ApiKey.Service.{
  ApiKeyError, Done, done, authorized, verify, create_key, update_key, append_resource, delete_key,
  delete_resource, mentions, is_refused, get_key_by_id, set_cache, found_or_throw,
}
use open_vm_x_ai.ApiKey.{
  FullApiKeyEntity, ApiKeyHost, ApiKeyStore, NewApiKey, ApiKeyUpdate, is_of_environment, has_id,
  select_enabled, set_values, commit,
}
use open_vm_x_ai.ApiKey.{CachedKeys, select_by_id, hash_key, id_key}
use open_vm_x_ai.ApiKey.Fresh.{all_shown, enabled_shown, select-by_id, added-FreshKeys, FreshKeys}
use open_vm_x_ai.ApiKey.Fresh.{AreFresh, changed-AreFresh, removed-AreFresh, wrap-answer}

module _ (host : ApiKeyHost) where
  open host use {sha256, distinct}

  -- The operations, with what they are given.
  pub data KeyOperation : Type 0 where
    do_verify : (key : List ℕ) (w e resource : String) → KeyOperation
    do_get : (w e id : String) (includes_users throws : Bool) → KeyOperation
    do_create : (key : List ℕ) (w e : String) → NewApiKey → KeyOperation
    do_update : (w e id : String) → ApiKeyUpdate → KeyOperation
    do_append : (w e : String) (ids : List String) (resource : String) → KeyOperation
    do_delete : (w e id : String) → KeyOperation
    do_delete_resource : (w e resource : String) → KeyOperation

  pub data KeyAnswer : Type 0 where
    no_answer : KeyAnswer
    got : Result ApiKeyError (Option FullApiKeyEntity) → KeyAnswer
    verified : Result ApiKeyError (Option FullApiKeyEntity) → KeyAnswer
    written : Result ApiKeyError Done → KeyAnswer

  abbrev pub done_of : Result ApiKeyError (List FullApiKeyEntity) → Result ApiKeyError Done
  done_of (ok _) = ok done
  done_of (err e) = err e

  abbrev pub commit_if : Result ApiKeyError (List FullApiKeyEntity) → ApiKeyStore → ApiKeyStore
  commit_if (ok rows) s = commit rows s
  commit_if (err _) s = s

  -- One operation. The two that run in the transaction of a caller are followed by its commit.
  abbrev pub run_one : KeyOperation → ApiKeyStore → KeyAnswer × ApiKeyStore
  run_one (do_verify key w e resource) s =
      let out = verify host key w e resource s in (verified out.0, out.1)
  run_one (do_get w e id users throws) s =
      let out = get_key_by_id w e id users throws s in (got out.0, out.1)
  run_one (do_create key w e new) s = (no_answer, create_key host key w e new s)
  run_one (do_update w e id u) s = let out = update_key host w e id u s in (written out.0, out.1)
  run_one (do_append w e ids resource) s =
      let out = append_resource host w e ids resource s in (no_answer, commit out.0 out.1)
  run_one (do_delete w e id) s = let out = delete_key host w e id s in (written out.0, out.1)
  run_one (do_delete_resource w e resource) s =
      let out = delete_resource host w e resource s in
      (written (done_of out.0), commit_if out.0 out.1)

  abbrev pub run_all : List KeyOperation → ApiKeyStore → List KeyAnswer
  run_all [] s = []
  run_all (o ∷ os) s = let out = run_one o s in out.0 ∷ run_all os out.1

  -- The service without the caches: each operation starts with empty ones.
  abbrev pub no_cache : List FullApiKeyEntity → ApiKeyStore
  no_cache rows = record { rows = rows; cached = λ w e h. none; cached_by_id = λ b w e id. none }

  abbrev pub run_uncached : List KeyOperation → List FullApiKeyEntity → List KeyAnswer
  run_uncached [] rows = []
  run_uncached (o ∷ os) rows =
      let out = run_one o (no_cache rows) in out.0 ∷ run_uncached os out.1.rows

  -- One operation gives the same answer and the same table with the caches and without them.
  record Agrees (o : KeyOperation) (s : ApiKeyStore) : Type 0 where
    pub answer : (run_one o s).0 ≡ (run_one o (no_cache s.rows)).0
    pub table : (run_one o s).1.rows ≡ (run_one o (no_cache s.rows)).1.rows
    pub fresh : AreFresh (run_one o s).1

  none-FreshKeys :
      (key : FullApiKeyEntity → String) (shown : FullApiKeyEntity → Bool)
      (rows : List FullApiKeyEntity)
      → FreshKeys key shown rows (λ w e k. none)
  none-FreshKeys key shown rows w e k row found = cc

  set_cache-FreshKeys :
      (rows : List FullApiKeyEntity) (users : Bool) (kept : CachedKeys) (caches : Bool → CachedKeys)
      → FreshKeys id_key all_shown rows kept
      → ((b : Bool) → FreshKeys id_key all_shown rows (caches b))
      → (b : Bool) → FreshKeys id_key all_shown rows (set_cache users kept caches b)
  set_cache-FreshKeys rows true kept caches fresh others true = fresh
  set_cache-FreshKeys rows true kept caches fresh others false = others false
  set_cache-FreshKeys rows false kept caches fresh others true = others true
  set_cache-FreshKeys rows false kept caches fresh others false = fresh

  environment_of_id :
      (w e id : String) (r : FullApiKeyEntity)
      → has_id w e id r ≡ true
      → is_of_environment w e r ≡ true
  environment_of_id w e id r h = ground arith

  run_one-Agrees : (o : KeyOperation) (s : ApiKeyStore) → AreFresh s → Agrees o s
  unfolding get_key_by_id verify create_key update_key append_resource delete_key delete_resource
      commit
  run_one-Agrees (do_verify key w e resource) s (fresh, fresh_ids) =
      let h = sha256 key in
      let read = select_enabled w e h s.rows in
      let (hit, after) =
        wrap-answer hash_key enabled_shown s.rows s.cached w e h (s.cached w e h) read refl refl
          fresh in
      let (plain, _) =
        wrap-answer hash_key enabled_shown s.rows (λ w e k. none) w e h none read refl refl
          (none-FreshKeys hash_key enabled_shown s.rows) in
      record {
        answer = ap (λ row. verified (authorized resource row)) (hit ∙ sym plain);
        table = refl;
        fresh = (after, fresh_ids);
      }
  run_one-Agrees (do_get w e id users throws) s (fresh, fresh_ids) =
      let read = select_by_id w e id s.rows in
      let cached = s.cached_by_id users in
      let (hit, after) =
        wrap-answer id_key all_shown s.rows cached w e id (cached w e id) read refl
          (select-by_id w e id s.rows) (fresh_ids users) in
      let (plain, _) =
        wrap-answer id_key all_shown s.rows (λ w e k. none) w e id none read refl
          (select-by_id w e id s.rows) (none-FreshKeys id_key all_shown s.rows) in
      record {
        answer = ap (λ row. got (found_or_throw throws row)) (hit ∙ sym plain);
        table = refl;
        fresh = (fresh, set_cache-FreshKeys s.rows users _ s.cached_by_id after fresh_ids);
      }
  run_one-Agrees (do_create key w e new) s fresh = record {
    answer = refl;
    table = refl;
    fresh = (
      added-FreshKeys hash_key enabled_shown _ s.rows s.cached fresh.0,
      λ users. added-FreshKeys id_key all_shown _ s.rows (s.cached_by_id users) (fresh.1 users),
    );
  }
  run_one-Agrees (do_update w e id u) s fresh = elim (Bool-cases (any (has_id w e id) s.rows)) [
    | inr missing ↦ record {
      answer = rw missing refl;
      table = rw missing refl;
      fresh = rw missing fresh;
    }
    | inl there ↦ record {
      answer = rw there refl;
      table = rw there refl;
      fresh = rw there (
          changed-AreFresh w e (has_id w e id) (set_values u) s (environment_of_id w e id)
            (λ w' e' h r. refl) (λ w' e' id' r. refl) fresh);
    }
  ]
  run_one-Agrees (do_append w e ids resource) s fresh = record {
    answer = refl;
    table = refl;
    fresh =
        changed-AreFresh w e _ _ s (λ r h. ground arith) (λ w' e' h r. refl) (λ w' e' id' r. refl)
          fresh;
  }
  run_one-Agrees (do_delete w e id) s fresh = elim (Bool-cases (any (has_id w e id) s.rows)) [
    | inr missing ↦ record {
      answer = rw missing refl;
      table = rw missing refl;
      fresh = rw missing fresh;
    }
    | inl there ↦ record {
      answer = rw there refl;
      table = rw there refl;
      fresh = rw there (removed-AreFresh w e (has_id w e id) s (environment_of_id w e id) fresh);
    }
  ]
  run_one-Agrees (do_delete_resource w e resource) s fresh =
      elim (Bool-cases (is_refused host w e resource s.rows)) [
        | inl refused ↦ record {
          answer = rw refused refl;
          table = rw refused refl;
          fresh = rw refused fresh;
        }
        | inr accepted ↦ record {
          answer = rw accepted refl;
          table = rw accepted refl;
          fresh = rw accepted (
              changed-AreFresh w e (mentions host w e resource) _ s (λ r h. ground arith)
                (λ w' e' h r. refl) (λ w' e' id' r. refl) fresh);
        }
      ]

  -- In any sequence of operations, one after the other, the service with its caches gives the answers
  -- that it gives when each operation finds them empty, if the caches have only rows of the table at
  -- the start, if the transaction in which resources are appended or deleted is committed before the
  -- next operation, and if reads find what was written before (a replica that lags is not covered).
  pub run_all-eq-run_uncached :
      (os : List KeyOperation) (s : ApiKeyStore)
      → AreFresh s
      → run_all os s ≡ run_uncached os s.rows
  run_all-eq-run_uncached [] s fresh = refl
  run_all-eq-run_uncached (o ∷ os) s fresh =
      let one = run_one-Agrees o s fresh in
      let later = run_all-eq-run_uncached os (run_one o s).1 one.fresh in
      rw (one.answer, later, one.table) refl
