-- ===== src/ApiKey/Withdrawn.antt =====
-- What deleting a resource in packages/api/src/api-key/api-key.service.ts does to the keys that had it.
use open_vm_x_ai.Common.{
  ℕ, ◌≡◌, refl, sym, ap, subst, ◌∙◌, Bool, true, false, ◌&&◌, Option, some, none, String, List, [],
  ◌∷◌, map, includes, Result, ok, Bool-cases, inl, inr, if◌then◌else◌, arith,
}
use open_vm_x_ai.ApiKey.Service.{
  authorized, verify, delete_resource, mentions, others, is_refused, ApiKeyError,
}
use open_vm_x_ai.ApiKey.{
  FullApiKeyEntity, ApiKeyHost, ApiKeyStore, is_plain, commit, forgotten, change_rows,
  is_of_environment, has_hash, select_enabled, with_resources, wrap, changed,
}
use open_vm_x_ai.ApiKey.{hash_key}
use open_vm_x_ai.ApiKey.Fresh.{enabled_shown}
use open_vm_x_ai.ApiKey.Fresh.{AreFresh, changed-AreFresh, wrap-answer}

includes-others :
    (resource : String) (xs : List String) → includes (others resource xs) resource ≡ false
includes-others resource [] = refl
includes-others resource (x ∷ xs) = ground (arith, includes-others resource xs)

-- A read that finds a row without the resource, or none, does not authorize it.
abbrev Lacks : String → Option FullApiKeyEntity → Type 0
Lacks resource found =
    (row : FullApiKeyEntity) → found ≡ some row → includes row.resources resource ≡ false

-- The answer of `verify` lets the call pass.
abbrev pub is_authorized : Result ApiKeyError (Option FullApiKeyEntity) → Bool
is_authorized (ok (some row)) = true
is_authorized _ = false

not-authorized :
    (resource : String) (found : Option FullApiKeyEntity)
    → Lacks resource found
    → is_authorized (authorized resource found) ≡ false
not-authorized resource none lacks = refl
not-authorized resource (some r) lacks = rw (lacks r refl) refl

module _ (host : ApiKeyHost) where
  open host use {sha256, distinct, has_text, includes-distinct, has_text-includes}

  abbrev new_row : String → String → String → FullApiKeyEntity → FullApiKeyEntity
  new_row w e resource r =
      if mentions host w e resource r
      then with_resources (distinct (others resource r.resources)) r
      else r

  row-lacks :
      (w e resource : String) (r : FullApiKeyEntity)
      → is_plain resource ≡ true
      → is_of_environment w e r ≡ true
      → includes (new_row w e resource r).resources resource ≡ false
  row-lacks w e resource r plain here = elim (Bool-cases (has_text r.resources resource)) [
    | inl text ↦
        let mentioned : mentions host w e resource r ≡ true = ground arith in
        rw mentioned (
          includes-distinct (others resource r.resources) resource
          ∙ includes-others resource r.resources)
    | inr no_text ↦
        let unmentioned : mentions host w e resource r ≡ false = ground arith in
        rw unmentioned (elim (Bool-cases (includes r.resources resource)) [
          | inl has ↦ cc (has_text-includes r.resources resource plain has)
          | inr lacks ↦ lacks
        ])
  ]

  new_row-environment :
      (w e resource : String) (r : FullApiKeyEntity)
      → is_of_environment w e (new_row w e resource r) ≡ is_of_environment w e r
  new_row-environment w e resource r = elim (Bool-cases (mentions host w e resource r)) [
    | inl here ↦ rw here refl
    | inr other ↦ rw other refl
  ]

  rows-lack :
      (w e resource h : String) (rows : List FullApiKeyEntity)
      → is_plain resource ≡ true
      → Lacks resource (select_enabled w e h (map (new_row w e resource) rows))
  rows-lack w e resource h [] plain row found = cc
  rows-lack w e resource h (r ∷ rows) plain row found =
      elim (Bool-cases
        (has_hash w e h (new_row w e resource r) && (new_row w e resource r).enabled)) [
          | inr other ↦ rows-lack w e resource h rows plain row (rw other at found)
          | inl here ↦
              let same : some (new_row w e resource r) ≡ some row = rw here at found in
              let in_new : is_of_environment w e (new_row w e resource r) ≡ true = ground arith in
              let lacks =
                row-lacks w e resource r plain
                  (sym (new_row-environment w e resource r) ∙ in_new) in
              cc
        ]

  committed :
      (written rows : List FullApiKeyEntity) (s after : ApiKeyStore)
      → ◌≡◌ {A = Result ApiKeyError (List FullApiKeyEntity) × ApiKeyStore}
          (ok written, s)
          (ok rows, after)
      → commit written s ≡ commit rows after
  unfolding commit
  committed written rows s after e =
      let same : written ≡ rows = cc in
      let store : s ≡ after = ap (λ out. out.1) e in rw (same, store) refl

  -- After a resource, whose id has only letters, digits and hyphens, is deleted from the keys of an
  -- environment and the transaction is committed, no key is authorized for it there, if the caches
  -- had only rows of the table before, no read comes between the deletion and the commit, and reads
  -- find what was written.
  pub delete_resource-unauthorized :
      (w e resource : String) (s after : ApiKeyStore) (rows : List FullApiKeyEntity) (key : List ℕ)
      → is_plain resource ≡ true
      → AreFresh s
      → delete_resource host w e resource s ≡ (ok rows, after)
      → is_authorized (verify host key w e resource (commit rows after)).0 ≡ false
  unfolding delete_resource verify commit
  delete_resource-unauthorized w e resource s after rows key plain fresh deleted =
      elim (Bool-cases (is_refused host w e resource s.rows)) [
        | inl refused ↦ cc (rw refused at deleted)
        | inr accepted ↦
            let p = mentions host w e resource in
            let f =
              λ (r : FullApiKeyEntity). with_resources (distinct (others resource r.resources)) r in
            let same : changed w e p f s ≡ commit rows after =
              committed (change_rows p f s.rows) rows (forgotten w e p s) after
                (rw accepted at deleted) in
            let later : AreFresh (changed w e p f s) =
              changed-AreFresh w e p f s (λ r h. ground arith) (λ w' e' h r. refl)
                (λ w' e' id r. refl) fresh in
            let h = sha256 key in
            let now = changed w e p f s in
            let (answer, _) =
              wrap-answer hash_key enabled_shown now.rows now.cached w e h (now.cached w e h)
                (select_enabled w e h now.rows) refl refl later.0 in
            subst (λ a. is_authorized (verify host key w e resource a).0 ≡ false) same
              (not-authorized resource
                (wrap now.cached w e h (now.cached w e h) (select_enabled w e h now.rows)).0
                (λ r found. rows-lack w e resource h s.rows plain r (sym answer ∙ found)))
      ]
