-- ===== src/Filters/Tests.antt =====
-- The theorems on filters at concrete pipelines: a result is a number.
use my_sqweel.Prelude.{ℕ, [], ◌∷◌, ◌++◌, none, Bool, false, ◌≡◌, ◌≢◌, refl, ok, err, ltb, retain}
use my_sqweel.Filters.Pipeline.{
  QueryRequest, go_on, reject, pass_on, replace, QueryFilter, ResultFilter, push,
  apply_query_filters, apply_result_filters,
}
use my_sqweel.Filters.PipelineLaws.{apply_query_filters-guard}

abbrev request : QueryRequest ℕ ℕ
request = record {
  sql = b's' ∷ [];
  parameters = [];
  prepared = false;
  query_id = 1;
  context = record { session_id = 1; database = []; username = []; endpoint_id = none };
}

-- Appends `;` to the statement.
abbrev closes : QueryFilter ℕ ℕ ℕ
closes r = (record r { sql = r.sql ++ (b';' ∷ []) }, ok go_on)

abbrev denies : QueryFilter ℕ ℕ ℕ
denies r = (r, ok (reject (b'n' ∷ [])))

denied :
    apply_query_filters (closes ∷ denies ∷ closes ∷ []) request
    ≡ ((closes request).0, err (b'n' ∷ []))
unfolding apply_query_filters
denied = refl

apply_query_filters-guard_example :
    (apply_query_filters ((closes ∷ []) ++ (denies ∷ (closes ∷ []))) request).1 ≢ ok none
apply_query_filters-guard_example =
    apply_query_filters-guard (closes ∷ []) (closes ∷ []) denies request (λ r same. cc)

abbrev small : ℕ → Bool
small n = ltb n 10

-- Replaces the results by those below ten.
abbrev hides : ResultFilter ℕ ℕ ℕ
hides r results = (results, ok (replace (retain small results)))

abbrev doubles : ResultFilter ℕ ℕ ℕ
doubles r results = (results ++ results, ok pass_on)

shows_small : (apply_result_filters (push (doubles ∷ []) hides) request (3 ∷ 30 ∷ [])).1 ≡ ok tt
unfolding apply_result_filters push
shows_small = refl
