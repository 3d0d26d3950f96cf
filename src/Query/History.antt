-- ===== src/Query/History.antt =====
-- The handlers of app/routes/query.py that list a user's queries and show one of them. ORDER BY is a
-- parameter of each request, the order of the rows that the database gives: `created_at` is not
-- unique, so that two requests can see two orders.
pub mod Pages
use urban_octo_tribble.Base.{
  ℕ, ◌+◌, ◌-◌, ◌*◌, ◌/◌, ◌&&◌, List, map, Option, Text, length, take, drop, ◌==◌,
}
use urban_octo_tribble.Base.Exec.{Result, ok, err}
use urban_octo_tribble.Database.{Lookup, absent, one, several, Table, matching}
use urban_octo_tribble.Pagination.{PaginationParams, PaginatedResponse}
use urban_octo_tribble.Query.{QueryRow, same_query, QueryError, query_not_found, multiple_results}

-- `QueryHistoryResponse`
pub record QueryHistory : Type 0 where
  pub id : ℕ
  pub query : Text
  pub answer : Text
  pub document_id : Option ℕ
  pub chunks_used : List ℕ
  pub llm_provider : Text
  pub llm_model : Text
  pub tokens_used : Option ℕ
  pub response_time_ms : ℕ
  pub created_at : ℕ

abbrev pub validated : QueryRow → QueryHistory
validated r = record {
  id = r.id;
  query = r.query;
  answer = r.answer;
  document_id = r.document_id;
  chunks_used = r.chunks_used;
  llm_provider = r.llm_provider;
  llm_model = r.llm_model;
  tokens_used = r.tokens_used;
  response_time_ms = r.response_time_ms;
  created_at = r.created_at;
}

module _ (T : Table QueryRow same_query) (newest_first : List QueryRow → List QueryRow) where
  abbrev pub own : ℕ → T.Store → List QueryRow
  own user_id t = matching (λ r. r.user_id == user_id) (T.rows t)

  unfoldable pub get_query_history : ℕ → PaginationParams → T.Store → PaginatedResponse QueryHistory
  get_query_history user_id pagination t =
      let total = length (own user_id t) in
      let offset = (pagination.page - 1) * pagination.page_size in
      let queries = take pagination.page_size (drop offset (newest_first (own user_id t))) in
      record {
        items = map validated queries;
        total = total;
        page = pagination.page;
        page_size = pagination.page_size;
        pages = (total + pagination.page_size - 1) / pagination.page_size;
      }

  abbrev pub found_query : Lookup QueryRow → Result QueryError QueryHistory
  found_query absent = err query_not_found
  found_query (one r) = ok (validated r)
  found_query several = err multiple_results

  unfoldable pub get_query : ℕ → ℕ → T.Store → Result QueryError QueryHistory
  get_query query_id user_id t =
      found_query (T.select (λ r. (r.id == query_id) && (r.user_id == user_id)) t)
