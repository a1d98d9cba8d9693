-- ===== src/Tests/Pagination.antt =====
-- A site of pages.
use respondent_community.Common.{
  ℕ, zero, suc, ◌≡◌, refl, String, true, false, Option, none, some, List, [], ◌∷◌, if◌then◌else◌,
  ◌==◌, string_eq,
}
use respondent_community.Ingest.Pagination.{
  PaginationSpec, build_paginated_url, World, Reader, fetch_all_pages, published, fetch_paginated,
  fetch_failed,
}
use respondent_community.Common.Decimal.{decimal}
use respondent_community.Ingest.Pagination.Gathers.{Gathered}
use respondent_community.Ingest.Pagination.Pages.{fetch_all_pages-Gathered}
use respondent_community.Ingest.Pagination.Refresh.{Decided, fetch_paginated-Decided}
use respondent_community.Ingest.Pagination.Cursor.{OnePage, fetch_all_pages_twice}

abbrev spec : String → PaginationSpec
spec kind = record {
  kind = kind;
  page_param = "page";
  size_param = "";
  size = 2;
  max_pages = 3;
  cursor_path = "next";
}

-- A body is the list of its records; the second page of the first mirror fails.
abbrev answer_at : ℕ → ℕ → Option (List ℕ)
answer_at zero (suc page) = none
answer_at mirror page = some (mirror ∷ page ∷ [])

abbrev mirror : ℕ → World (List ℕ)
mirror k = record { canceled = λ page. false; fetch = λ page url. answer_at k page }

abbrev reader : Reader (List ℕ) ℕ
reader = record { parse = some; stop_when = none; extract_cursor = λ body. "" }

second_url :
    build_paginated_url "http://site/list" (spec "page_number") 1 "" ≡ "http://site/list?page=2"
unfolding build_paginated_url decimal
second_url = refl

second_mirror :
    fetch_paginated "http://site/list" (spec "page_number") reader true mirror (λ k. false)
    ≡ published (1 ∷ 0 ∷ 1 ∷ 1 ∷ 1 ∷ 2 ∷ [])
unfolding fetch_paginated
second_mirror = refl

-- Each page names the next one, and the third page fails.
abbrev linked_at : String → Option String
linked_at url =
    if url == "http://site/list"
    then some "c1"
    else if url == "http://site/list?page=c1"
    then some "c2"
    else none

abbrev linked : World String
linked = record { canceled = λ page. false; fetch = λ page url. linked_at url }

abbrev linked_reader : Reader String String
linked_reader = record {
  parse = λ body. some (body ∷ []);
  stop_when = none;
  extract_cursor = λ body. body;
}

two_pages : fetch_all_pages "http://site/list" (spec "cursor") linked_reader linked ≡ record {
  records = "c1" ∷ "c2" ∷ [];
  error = some (fetch_failed 3);
  stopped = false;
  urls = "http://site/list" ∷ "http://site/list?page=c1" ∷ "http://site/list?page=c2" ∷ [];
}
unfolding fetch_all_pages build_paginated_url
two_pages = refl

fetch_all_pages-Gathered_example :
    Gathered "http://site/list"
      (spec "cursor")
      linked_reader
      linked
      3
      0
      ""
      (fetch_all_pages "http://site/list" (spec "cursor") linked_reader linked)
fetch_all_pages-Gathered_example =
    fetch_all_pages-Gathered "http://site/list" (spec "cursor") linked_reader linked

fetch_paginated-Decided_example :
    Decided
      (λ k. fetch_all_pages "http://site/list" (spec "page_number") reader (mirror k))
      (λ k. false)
      true
      0
      3
      (fetch_paginated "http://site/list" (spec "page_number") reader true mirror (λ k. false))
fetch_paginated-Decided_example =
    fetch_paginated-Decided "http://site/list" (spec "page_number") reader true mirror (λ k. false)

abbrev single : World (List ℕ)
single = record { canceled = λ page. false; fetch = λ page url. some (7 ∷ []) }

single_page : OnePage "http://site/list" (spec "cursor") reader single (7 ∷ []) (7 ∷ [])
single_page = record {
  live = λ page. refl;
  answer = λ page. refl;
  read = refl;
  goes_on = refl;
  no_cursor = refl;
}

fetch_all_pages_twice_example :
    ((fetch_all_pages "http://site/list" (spec "cursor") reader single).records ≡ 7 ∷ 7 ∷ [])
    × ((fetch_all_pages "http://site/list" (spec "cursor") reader single).urls
        ≡ build_paginated_url "http://site/list" (spec "cursor") 0 ""
          ∷ build_paginated_url "http://site/list" (spec "cursor") 0 ""
          ∷ [])
fetch_all_pages_twice_example =
    fetch_all_pages_twice "http://site/list" (spec "cursor") reader single (7 ∷ []) (7 ∷ []) 1 refl
      refl single_page
