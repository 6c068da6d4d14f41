-- ===== src/Filters/Pipeline.antt =====
-- `QueryFilters` and `ResultFilters` of src/filters.rs. A filter of the application is a function that may
-- change the request or the results and then decides; its own error is a text.
use my_sqweel.Prelude.{Text, List, [], ◌∷◌, ◌++◌, Option, none, some, Bool, Result, ok, err}

pub record QueryContext (Ident : Type 0) : Type 0 where
  pub session_id : Ident
  pub database : Text
  pub username : Text
  pub endpoint_id : Option Ident

pub record QueryRequest (Ident Value : Type 0) : Type 0 where
  pub sql : Text
  pub parameters : List Value
  pub prepared : Bool
  pub query_id : Ident
  pub context : QueryContext Ident

pub data QueryFilterAction (QueryResult : Type 0) : Type 0 where
  go_on : QueryFilterAction QueryResult
  reject : Text → QueryFilterAction QueryResult
  give_back : List QueryResult → QueryFilterAction QueryResult

pub data ResultFilterAction (QueryResult : Type 0) : Type 0 where
  pass_on : ResultFilterAction QueryResult
  replace : List QueryResult → ResultFilterAction QueryResult
  refuse : Text → ResultFilterAction QueryResult

module _ (Ident Value QueryResult : Type 0) where
  abbrev pub QueryFilter : Type 0
  QueryFilter =
      QueryRequest Ident Value
      → QueryRequest Ident Value × Result Text (QueryFilterAction QueryResult)

  abbrev pub ResultFilter : Type 0
  ResultFilter =
      QueryRequest Ident Value
      → List QueryResult
      → List QueryResult × Result Text (ResultFilterAction QueryResult)

  abbrev pub QueryFilters : Type 0
  QueryFilters = List QueryFilter

  abbrev pub ResultFilters : Type 0
  ResultFilters = List ResultFilter

module _ {Filter : Type 0} where
  unfoldable pub push : List Filter → Filter → List Filter
  push filters filter = filters ++ (filter ∷ [])

  unfoldable pub clear : List Filter → List Filter
  clear filters = []

module _ {Ident Value QueryResult : Type 0} where
  -- The request after the filters, and the decision: results in place of an execution, or none.
  unfoldable pub apply_query_filters :
      QueryFilters Ident Value QueryResult
      → QueryRequest Ident Value
      → QueryRequest Ident Value × Result Text (Option (List QueryResult))
  apply_query_filters [] request = (request, ok none)
  apply_query_filters (filter ∷ filters) request =
      let r = filter request in
      elim r.1 [
        | err e ↦ (r.0, err e)
        | ok go_on ↦ apply_query_filters filters r.0
        | ok (reject reason) ↦ (r.0, err reason)
        | ok (give_back results) ↦ (r.0, ok (some results))
      ]

  unfoldable pub apply_result_filters :
      ResultFilters Ident Value QueryResult
      → QueryRequest Ident Value
      → List QueryResult
      → List QueryResult × Result Text (Unit {0})
  apply_result_filters [] request results = (results, ok tt)
  apply_result_filters (filter ∷ filters) request results =
      let r = filter request results in
      elim r.1 [
        | err e ↦ (r.0, err e)
        | ok pass_on ↦ apply_result_filters filters request r.0
        | ok (replace replacement) ↦ apply_result_filters filters request replacement
        | ok (refuse reason) ↦ (r.0, err reason)
      ]
