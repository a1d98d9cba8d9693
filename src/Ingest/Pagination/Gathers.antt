-- ===== src/Ingest/Pagination/Gathers.antt =====
-- What a walk over the pages of a source is to gather, and why it ends.
use respondent_community.Common.{
  ℕ, suc, ◌<◌, ◌≡◌, ◌≢◌, ◌⊎◌, String, Bool, true, false, Option, none, some, List, [], ◌∷◌, ◌++◌,
  string_eq,
}
use respondent_community.Ingest.Pagination.{
  PaginationSpec, build_paginated_url, World, Reader, WalkError, walk_canceled, fetch_failed,
  parse_failed, stop_failed, Walk,
}

abbrev pub concat {ℓ} : {A : Type ℓ} → List (List A) → List A
concat [] = []
concat (xs ∷ xss) = xs ++ concat xss

module _ {B R : Type 0} (base : String) (spec : PaginationSpec) (reader : Reader B R) where
  -- The cursor after a page: the one that the page names with cursor pagination and a path, else the
  -- one before.
  pub data NextCursor (body : B) (cursor : String) : String → Type 0 where
    named :
        spec.kind ≡ "cursor"
        → spec.cursor_path ≢ ""
        → NextCursor body cursor (reader.extract_cursor body)
    unchanged : (spec.kind ≢ "cursor") ⊎ (spec.cursor_path ≡ "") → NextCursor body cursor cursor

  -- What the stop expression says of a page; without one no page stops the walk.
  pub data Says (records : List R) : Option Bool → Type 0 where
    no_expression : reader.stop_when ≡ none → Says records (some false)
    expression : {f : List R → Option Bool} → reader.stop_when ≡ some f → Says records (f records)

  -- The page after which a walk with cursor pagination ends.
  abbrev pub EndsAt : ℕ → String → Type 0
  EndsAt page next = (spec.kind ≡ "cursor") × (next ≡ "") × (0 < page)

  -- The page was fetched at the URL of its number and cursor.
  pub record IsFetched (world : World B) (page : ℕ) (cursor : String) (body : B) : Type 0 where
    pub live : world.canceled page ≡ false
    pub answer : world.fetch page (build_paginated_url base spec page cursor) ≡ some body

  -- The walk over at most so many pages, from a page and a cursor: the pages that it keeps, its error,
  -- whether a stop signal ended it, and the URLs.
  pub data Gathers (world : World B)
      : ℕ → ℕ → String → List (List R) → Option WalkError → Bool → List String → Type 0 where
    spent : {page : ℕ} {cursor : String} → Gathers world 0 page cursor [] none false []
    interrupted :
        {left page : ℕ} {cursor : String}
        → world.canceled page ≡ true
        → Gathers world (suc left) page cursor [] (some walk_canceled) false []
    unfetched :
        {left page : ℕ} {cursor : String}
        → world.canceled page ≡ false
        → world.fetch page (build_paginated_url base spec page cursor) ≡ none
        → Gathers world
            (suc left)
            page
            cursor
            []
            (some (fetch_failed (suc page)))
            false
            (build_paginated_url base spec page cursor ∷ [])
    unparsed :
        {left page : ℕ} {cursor : String} {body : B}
        → IsFetched world page cursor body
        → reader.parse body ≡ none
        → Gathers world
            (suc left)
            page
            cursor
            []
            (some (parse_failed (suc page)))
            false
            (build_paginated_url base spec page cursor ∷ [])
    unjudged :
        {left page : ℕ} {cursor : String} {body : B} {records : List R}
        → IsFetched world page cursor body
        → reader.parse body ≡ some records
        → Says records none
        → Gathers world
            (suc left)
            page
            cursor
            []
            (some (stop_failed (suc page)))
            false
            (build_paginated_url base spec page cursor ∷ [])
    stopped :
        {left page : ℕ} {cursor : String} {body : B} {records : List R}
        → IsFetched world page cursor body
        → reader.parse body ≡ some records
        → Says records (some true)
        → Gathers world
            (suc left)
            page
            cursor
            []
            none
            true
            (build_paginated_url base spec page cursor ∷ [])
    last_page :
        {left page : ℕ} {cursor next : String} {body : B} {records : List R}
        → IsFetched world page cursor body
        → reader.parse body ≡ some records
        → Says records (some false)
        → NextCursor body cursor next
        → EndsAt page next
        → Gathers world
            (suc left)
            page
            cursor
            (records ∷ [])
            none
            true
            (build_paginated_url base spec page cursor ∷ [])
    next_page :
        {left page : ℕ} {cursor next : String} {body : B} {records : List R} {pages : List (List R)}
        {error : Option WalkError} {signal : Bool} {urls : List String}
        → IsFetched world page cursor body
        → reader.parse body ≡ some records
        → Says records (some false)
        → NextCursor body cursor next
        → ¬ EndsAt page next
        → Gathers world left (suc page) next pages error signal urls
        → Gathers world
            (suc left)
            page
            cursor
            (records ∷ pages)
            error
            signal
            (build_paginated_url base spec page cursor ∷ urls)

  -- A walk that gathers the records of its pages in order.
  pub record Gathered (world : World B) (left page : ℕ) (cursor : String) (w : Walk R)
      : Type 0 where
    pub pages : List (List R)
    pub gathers : Gathers world left page cursor pages w.error w.stopped w.urls
    pub whole : w.records ≡ concat pages
