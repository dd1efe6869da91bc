-- ===== src/Batch/Items/Within.antt =====
-- What `retrieveItems` of packages/api/src/completion/batch/batch-queue.service.ts retrieves, against
-- what the capacities have left.
use open_vm_x_ai.Common.{
  ℕ, ◌≤◌, ◌<◌, ◌≡◌, refl, sym, ap, ◌∙◌, subst, false, Option, none, some, String, List, [], ◌∷◌,
  Result, ok, err, length, All, inl, inr, arith,
}
use open_vm_x_ai.Common.Int.{ℤ}
use open_vm_x_ai.Capacity.{CapacityEntity}
use open_vm_x_ai.Capacity.Period.{Calendar}
use open_vm_x_ai.Capacity.Resolve.{Resolution, resolve}
use open_vm_x_ai.Capacity.Usage.{PrefixedCapacity, UsageMetric, get_usage}
use open_vm_x_ai.Capacity.Usage.Covers.{CoversAll, get_usage-CoversAll}
use open_vm_x_ai.Entities.{AiConnectionEntity, AiResourceEntity}
use open_vm_x_ai.Redis.{RedisClient}
use open_vm_x_ai.Redis.Sets.{SortedSets}
use open_vm_x_ai.Batch.Keys.{
  Numerals, base_key, queue_key, processing_queue_key, active_resources_member,
}
use open_vm_x_ai.Batch.Retrieve.{LuaError, is_over_tokens, retrieve_script}
use open_vm_x_ai.Batch.Retrieve.Script.{
  total_cost, ShowTokens, retrieve_script-Retrieved, retrieve_script-count,
}
use open_vm_x_ai.Batch.Available.{
  available_loop, batch_capacities, availability, available_loop-Fits,
}
use open_vm_x_ai.Batch.Items.{
  Retrieval, on_standby, drained, retrieved, max_to_retrieve, after_script, retrieve_available,
  retrieve_items,
}
use open_vm_x_ai.Batch.Items.Left.{
  InTokens, InRequests, HasLeft, OfRetrieved, available_loop-is_left, Fits-InTokens,
  Fits-InRequests, nothing_fits, at_least_one,
}

module _ (numerals : Numerals) (sets : SortedSets) where
  open sets use {Sets, zrange}

  -- What the script took is what is retrieved, if anything.
  after_script-returns :
      (member : String) (now due : ℕ) (seconds : Option ℤ) (looked_at : List String)
      (out : Result LuaError (List String) × Sets) (taken : List String) (P : List String → Type 0)
      → out.0 ≡ ok taken
      → P taken
      → (o : Retrieval) × ((after_script numerals sets member now due seconds looked_at out).0
          ≡ ok o)
        × OfRetrieved P o
  after_script-returns member now due seconds looked_at (err e, s) taken P r p = cc r
  after_script-returns member now due seconds [] (ok [], s) taken P r p = (drained, refl, tt)
  after_script-returns member now due seconds (_ ∷ _) (ok [], s) taken P r p =
      (on_standby seconds, refl, tt)
  after_script-returns member now due seconds looked_at (ok (m ∷ ms), s) taken P r p =
      let same : taken ≡ m ∷ ms = cc r in (retrieved (m ∷ ms), refl, subst P same p)

  module _ (main processing : String) where
    -- What the script takes fits into the tokens, and is not too much if something may be taken.
    taken-fits :
        (cost : String → ℕ) (most : ℕ) (tokens : Option ℕ) (due : ℕ) (s : Sets)
        → ShowTokens numerals cost (zrange s main)
        → (taken : List String) × ((retrieve_script numerals sets main processing most tokens due
              s).0
            ≡ ok taken)
          × (is_over_tokens tokens (total_cost cost taken) ≡ false)
    taken-fits cost most tokens due s h =
        let r = retrieve_script-Retrieved numerals sets main processing cost most tokens due s h in
        (
          r.taken,
          r.returns,
          elim r.within [
            | inl nothing ↦
                subst (λ ms. is_over_tokens tokens (total_cost cost ms) ≡ false) (sym nothing)
                  (nothing_fits tokens)
            | inr fits ↦ ap (is_over_tokens tokens) (omega arith) ∙ fits
          ],
        )

    available-tokens :
        (usage : List (String × UsageMetric)) (cs : List PrefixedCapacity) (cost : String → ℕ)
        (now due count : ℕ) (member : String) (s : Sets)
        → CoversAll usage cs
        → ShowTokens numerals cost (zrange s main)
        → (o : Retrieval) × ((retrieve_available numerals sets main processing member now due count
              (available_loop usage cs none none none)
              s).0
            ≡ ok o)
          × OfRetrieved (λ items. All (InTokens usage cost items) cs) o
    unfolding retrieve_available
    available-tokens usage cs cost now due count member s covers h =
        elim (available_loop-Fits usage cs none none none covers) [
          | inl (seconds, stopped) ↦ rw stopped (on_standby (some seconds), refl, tt)
          | inr (r, t, seconds, done, _, _, fits) ↦
              let (taken, returns, cheap) = taken-fits cost (max_to_retrieve count r) t due s h in
              rw done (
                after_script-returns member now due seconds _ _ taken
                  (λ items. All (InTokens usage cost items) cs) returns
                  (Fits-InTokens usage cost taken r t cs cheap fits))
        ]

    available-requests :
        (usage : List (String × UsageMetric)) (cs : List PrefixedCapacity) (cost : String → ℕ)
        (now due count : ℕ) (member : String) (s : Sets)
        → CoversAll usage cs
        → All (HasLeft usage) cs
        → 0 < count
        → ShowTokens numerals cost (zrange s main)
        → (o : Retrieval) × ((retrieve_available numerals sets main processing member now due count
              (available_loop usage cs none none none)
              s).0
            ≡ ok o)
          × OfRetrieved (λ items. All (InRequests usage items) cs) o
    unfolding retrieve_available
    available-requests usage cs cost now due count member s covers has_left some_wanted h =
        elim (available_loop-Fits usage cs none none none covers) [
          | inl (seconds, stopped) ↦ rw stopped (on_standby (some seconds), refl, tt)
          | inr (r, t, seconds, done, _, _, fits) ↦
              let positive =
                available_loop-is_left usage cs none none none r t seconds has_left refl done in
              let (n, most) = at_least_one count r some_wanted positive in
              let (taken, returns, few) =
                (retrieve_script-count numerals sets main processing cost due s h).0 n t in
              rw (done, most)
                (after_script-returns member now due seconds _ _ taken
                  (λ items. All (InRequests usage items) cs) returns
                  (Fits-InRequests usage taken count r t cs
                    (subst (λ k. length taken ≤ k) (sym most) few) fits))
        ]

  module _ (redis : RedisClient) (cal : Calendar) (keys : redis.Keys) (now week_ago due : ℕ)
      (workspace_id environment_id batch_id : String) (connection : AiConnectionEntity)
      (resource : AiResourceEntity) (batch_capacity : Option (List CapacityEntity)) where
    abbrev capacities : Resolution → List PrefixedCapacity
    capacities resolution =
        batch_capacities workspace_id environment_id connection resource batch_capacity week_ago
          resolution.enabled_capacities

    abbrev main_queue : String
    main_queue = queue_key (base_key workspace_id environment_id) resource.resource_id

    abbrev processing_queue : String
    processing_queue =
        processing_queue_key (base_key workspace_id environment_id) resource.resource_id

    abbrev member : String
    member = active_resources_member workspace_id environment_id batch_id resource.resource_id

    availability-eq :
        (resolution : Resolution) (usage : List (String × UsageMetric))
        → resolve workspace_id environment_id connection resource none none ≡ ok resolution
        → get_usage redis cal keys now (capacities resolution) ≡ ok usage
        → availability redis cal now week_ago workspace_id environment_id connection resource
            batch_capacity keys
          ≡ available_loop usage (capacities resolution) none none none
    unfolding availability
    availability-eq resolution usage e f = rw (e, f) refl

    covers :
        (resolution : Resolution) (usage : List (String × UsageMetric))
        → get_usage redis cal keys now (capacities resolution) ≡ ok usage
        → CoversAll usage (capacities resolution)
    covers resolution usage f =
        let (m, read, all) = get_usage-CoversAll redis cal keys now (capacities resolution) in
        let same : m ≡ usage = cc (sym read ∙ f) in
        subst (λ u. CoversAll u (capacities resolution)) same all

    -- Retrieving items never fails where every member of the queue shows its tokens, and what it
    -- retrieves fits into the tokens that each capacity of the connection, the resource and the batch
    -- has left, the recently discovered ones included.
    pub retrieve_items-tokens :
        (resolution : Resolution) (usage : List (String × UsageMetric)) (cost : String → ℕ)
        (count : ℕ) (s : Sets)
        → resolve workspace_id environment_id connection resource none none ≡ ok resolution
        → get_usage redis cal keys now (capacities resolution) ≡ ok usage
        → ShowTokens numerals cost (zrange s main_queue)
        → (o : Retrieval) × ((retrieve_items numerals sets redis cal keys now week_ago due
              workspace_id environment_id batch_id connection resource batch_capacity count s).0
            ≡ ok o)
          × OfRetrieved (λ items. All (InTokens usage cost items) (capacities resolution)) o
    unfolding retrieve_items
    retrieve_items-tokens resolution usage cost count s e f h =
        rw (availability-eq resolution usage e f) (
          available-tokens main_queue processing_queue usage (capacities resolution) cost now due
            count member s (covers resolution usage f) h)

    -- If some items are wanted and each capacity that limits the requests has a request left, then
    -- no more items are retrieved than each of them has left. (Every member shows its tokens.)
    pub retrieve_items-requests :
        (resolution : Resolution) (usage : List (String × UsageMetric)) (cost : String → ℕ)
        (count : ℕ) (s : Sets)
        → resolve workspace_id environment_id connection resource none none ≡ ok resolution
        → get_usage redis cal keys now (capacities resolution) ≡ ok usage
        → All (HasLeft usage) (capacities resolution)
        → 0 < count
        → ShowTokens numerals cost (zrange s main_queue)
        → (o : Retrieval) × ((retrieve_items numerals sets redis cal keys now week_ago due
              workspace_id environment_id batch_id connection resource batch_capacity count s).0
            ≡ ok o)
          × OfRetrieved (λ items. All (InRequests usage items) (capacities resolution)) o
    unfolding retrieve_items
    retrieve_items-requests resolution usage cost count s e f has_left wanted h =
        rw (availability-eq resolution usage e f) (
          available-requests main_queue processing_queue usage (capacities resolution) cost now due
            count member s (covers resolution usage f) has_left wanted h)
