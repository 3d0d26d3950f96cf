-- ===== src/ShortUrl/Tests.antt =====
-- Short URLs in a table that is a list, and the theorems there.
use urban_octo_tribble.Base.{◌≡◌, refl, List, [], ◌∷◌, codes, text_eq, arith}
use urban_octo_tribble.Base.Int.{pos, ◌-ℤ◌}
use urban_octo_tribble.Base.Exec.{ok, err}
use urban_octo_tribble.Database.{Table, list_table}
use urban_octo_tribble.Snowflake.{new_generator, build_id, generate}
use urban_octo_tribble.Snowflake.Order.{new_generator-IsValid}
use urban_octo_tribble.Base62.{encode}
use urban_octo_tribble.ShortUrl.{
  ShortUrl, same_key, not_found, document, State, StatsResponse, shorten_response, create_short_url,
  redirect_short_url, get_short_url_stats, next_id, encode_id,
}
use urban_octo_tribble.ShortUrl.Share.{
  IsIssued, IsShared, create_short_url-After, After, create_short_url-IsShared,
}
use urban_octo_tribble.ShortUrl.Follow.{create_short_url_again, redirect_short_url_counts}

abbrev table : Table ShortUrl same_key
table = list_table same_key

abbrev start : State (List ShortUrl)
start = record {
  generator = new_generator 1 1;
  clock = 1700000000000 ∷ 1700000000000 ∷ 1700000000001 ∷ [];
  store = [];
}

abbrev row : ShortUrl
row = record {
  id = pos 1724551110456381441;
  short_code = codes "23osFoACcmI";
  document_id = 7;
  clicks = 0;
}

abbrev shared : State (List ShortUrl)
shared = record {
  generator = record (new_generator 1 1) { sequence = 1; last_timestamp = pos 1700000000000 };
  clock = 1700000000001 ∷ [];
  store = row ∷ [];
}

create_short_url_runs : create_short_url table 7 start ≡ (ok (shorten_response row), shared)
unfolding create_short_url next_id generate new_generator build_id encode_id encode ◌-ℤ◌
create_short_url_runs = refl

redirect_unknown : redirect_short_url table (codes "zz") shared ≡ (err not_found, shared)
unfolding redirect_short_url text_eq
redirect_unknown = refl

start-IsIssued : IsIssued table start
start-IsIssued = record {
  generator = new_generator-IsValid 1 1 (omega arith) (omega arith);
  clock = omega arith;
  rows = tt;
}

-- The clock goes on between the two ids.
abbrev moving : State (List ShortUrl)
moving = record start { clock = 1700000000000 ∷ 1700000000001 ∷ [] }

create_short_url-IsShared_example : IsShared table 7 moving (create_short_url table 7 moving)
unfolding new_generator
create_short_url-IsShared_example =
    create_short_url-IsShared table 7 1700000000000 1700000000001 [] moving
      (record {
        generator = new_generator-IsValid 1 1 (omega arith) (omega arith);
        clock = omega arith;
        rows = tt;
      })
      refl refl (omega arith) (omega arith) (omega arith)

create_short_url-After_example : After table 7 start (create_short_url table 7 start)
create_short_url-After_example = create_short_url-After table 7 start start-IsIssued

create_short_url_again_example :
    create_short_url table 7 shared ≡ (ok (shorten_response row), shared)
create_short_url_again_example =
    create_short_url_again table 7 start shared (shorten_response row) create_short_url_runs

abbrev stats : StatsResponse
stats = record { short_code = codes "23osFoACcmI"; document_id = 7; clicks = 0 }

stats_run : get_short_url_stats table (codes "23osFoACcmI") shared ≡ (ok stats, shared)
unfolding get_short_url_stats text_eq
stats_run = refl

redirect_short_url_counts_example :
    let (r, t) = redirect_short_url table (codes "23osFoACcmI") shared in
    (r ≡ ok (document 7))
    × (get_short_url_stats table (codes "23osFoACcmI") t ≡ (ok (record stats { clicks = 1 }), t))
redirect_short_url_counts_example =
    redirect_short_url_counts table (codes "23osFoACcmI") shared shared stats stats_run
