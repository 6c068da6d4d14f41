-- ===== src/Filters/PipelineLaws.antt =====
-- Order and guarantees of the filter pipelines (src/filters.rs).
use my_sqweel.Prelude.{
  Text, List, [], ◌∷◌, ◌++◌, none, some, ◌≡◌, ◌≢◌, refl, arith, ◌⊎◌, inl, inr, Result, ok, err,
}
use my_sqweel.Filters.Pipeline.{
  QueryRequest, go_on, ResultFilterAction, pass_on, replace, refuse, QueryFilter, ResultFilter,
  QueryFilters, ResultFilters, push, apply_query_filters, apply_result_filters,
}

module _ {QueryResult : Type 0} where
  ResultFilterAction-cases :
      (o : Result Text (ResultFilterAction QueryResult))
      → (o ≡ ok pass_on)
        ⊎ (((replacement : List QueryResult) × (o ≡ ok (replace replacement)))
            ⊎ ((e : Text) × ((o ≡ err e) ⊎ (o ≡ ok (refuse e)))))
  ResultFilterAction-cases (err e) = inr (inr (e, inl refl))
  ResultFilterAction-cases (ok pass_on) = inl refl
  ResultFilterAction-cases (ok (replace replacement)) = inr (inl (replacement, refl))
  ResultFilterAction-cases (ok (refuse e)) = inr (inr (e, inr refl))

module _ {Ident Value QueryResult : Type 0} where
  -- Filters registered after others see the request as those left it, and only if all of those
  -- continued; else the pipeline ends with the earlier decision.
  pub apply_query_filters-append :
      (first later : QueryFilters Ident Value QueryResult) (request : QueryRequest Ident Value)
      → let r = apply_query_filters first request in
        apply_query_filters (first ++ later) request
        ≡ elim r.1 [ err e ↦ r | ok none ↦ apply_query_filters later r.0 | ok (some results) ↦ r ]
  unfolding apply_query_filters
  apply_query_filters-append [] later request = refl
  apply_query_filters-append (filter ∷ first) later request =
      ground (arith, apply_query_filters-append first later (filter request).0)

  -- A filter that never continues keeps every request from being executed, wherever it stands in
  -- the pipeline.
  pub apply_query_filters-guard :
      (first later : QueryFilters Ident Value QueryResult)
      (filter : QueryFilter Ident Value QueryResult) (request : QueryRequest Ident Value)
      → ((r : QueryRequest Ident Value) → (filter r).1 ≢ ok go_on)
      → (apply_query_filters (first ++ (filter ∷ later)) request).1 ≢ ok none
  unfolding apply_query_filters
  apply_query_filters-guard [] later filter request guards = ground (arith, guards request)
  apply_query_filters-guard (f ∷ first) later filter request guards =
      ground (arith, apply_query_filters-guard first later filter (f request).0 guards)

  -- What the last filter ensures of the results, whatever it is given, and of its replacements, holds
  -- of all results that a pipeline returns.
  pub apply_result_filters-push :
      (P : List QueryResult → Type 0) (filters : ResultFilters Ident Value QueryResult)
      (filter : ResultFilter Ident Value QueryResult) (request : QueryRequest Ident Value)
      (results : List QueryResult)
      → ((given : List QueryResult)
          → (filter request given).1 ≡ ok pass_on
          → P (filter request given).0)
      → ((given replacement : List QueryResult)
          → (filter request given).1 ≡ ok (replace replacement)
          → P replacement)
      → (apply_result_filters (push filters filter) request results).1 ≡ ok tt
      → P (apply_result_filters (push filters filter) request results).0
  unfolding apply_result_filters push
  apply_result_filters-push P [] filter request results passes replaces done =
      elim (ResultFilterAction-cases (filter request results).1) [
        | inl passed ↦ rw passed (passes results passed)
        | inr (inl (replacement, replaced)) ↦ rw replaced (replaces results replacement replaced)
        | inr (inr (e, failed)) ↦ absurd (ground (arith, failed, done))
      ]
  apply_result_filters-push P (f ∷ filters) filter request results passes replaces done =
      elim (ResultFilterAction-cases (f request results).1) [
        | inl passed ↦ rw passed (
            apply_result_filters-push P filters filter request (f request results).0 passes replaces
              (ground (arith, passed, done)))
        | inr (inl (replacement, replaced)) ↦ rw replaced (
            apply_result_filters-push P filters filter request replacement passes replaces
              (ground (arith, replaced, done)))
        | inr (inr (e, failed)) ↦ absurd (ground (arith, failed, done))
      ]
