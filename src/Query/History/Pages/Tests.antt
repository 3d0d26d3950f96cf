-- ===== src/Query/History/Pages/Tests.antt =====
-- The history of a user with two queries, beside another user's, on two pages.
use urban_octo_tribble.Base.{ℕ, ◌≡◌, refl, true, List, [], ◌∷◌, map, All, none, codes, ◌==◌, arith}
use mathlib.Core.List.Permᴰ
use urban_octo_tribble.Database.{Table, list_table}
use urban_octo_tribble.Pagination.{PaginationParams}
use urban_octo_tribble.Query.{QueryRow, same_query}
use urban_octo_tribble.Query.History.{validated, get_query_history}
use urban_octo_tribble.Query.History.Pages.{IsNewestFirst, shown, history_pages_show_own}

abbrev mine : QueryRow
mine = record {
  id = 4;
  created_at = 1;
  user_id = 2;
  document_id = none;
  query = codes "fee?";
  answer = codes "A fee.";
  chunks_used = [];
  llm_provider = codes "ollama";
  llm_model = codes "llama3.2";
  tokens_used = none;
  response_time_ms = 3;
}

abbrev later : QueryRow
later = record mine { id = 5; created_at = 2 }

abbrev rows : List QueryRow
rows = record mine { id = 3; user_id = 1 } ∷ mine ∷ later ∷ []

abbrev queries : Table QueryRow same_query
queries = list_table same_query

abbrev first_page : PaginationParams
first_page = record { page = 1; page_size = 1 }

-- The database sorts by the time, whatever it is asked before.
abbrev orders : ℕ → List QueryRow → List QueryRow
orders n l = later ∷ mine ∷ []

sorted : (n : ℕ) → IsNewestFirst (mine ∷ later ∷ []) (later ∷ mine ∷ [])
sorted n = record { permutes = Permᴰ.swap refl refl; descends = ((omega arith, tt), (tt, tt)) }

history_pages_show_own_example :
    (shown queries orders 2 1 0 (get_query_history queries (orders 1) 2 first_page rows).pages rows
      ≡ map validated (later ∷ mine ∷ []))
    × IsNewestFirst (mine ∷ later ∷ []) (later ∷ mine ∷ [])
    × All (λ r. (r.user_id == 2) ≡ true) (mine ∷ later ∷ [])
history_pages_show_own_example =
    history_pages_show_own queries orders 2 first_page rows sorted
      (record { page_ge = omega arith; page_size_ge = omega arith; page_size_le = omega arith })
