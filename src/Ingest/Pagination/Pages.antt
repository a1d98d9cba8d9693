-- ===== src/Ingest/Pagination/Pages.antt =====
-- Which pages a walk gathers, and why it ends.
use respondent_community.Common.{
  ℕ, zero, suc, ◌≡◌, ◌↔◌, refl, ap, sym, String, Bool, true, false, Option, none, some, List, [],
  ◌∷◌, ◌++◌, append-nil, arith, Bool-cases, inl, inr, string_eq, ◌==◌, eq_iff,
}
use respondent_community.Ingest.Pagination.{
  PaginationSpec, build_paginated_url, World, Reader, WalkError, walk_canceled, Walk, cursor_after,
  stops, ended, kept, judge, read_page, after_fetch, is_last, walk_pages, fetch_all_pages,
}
use respondent_community.Ingest.Pagination.Gathers.{
  NextCursor, named, unchanged, Says, no_expression, expression, EndsAt, IsFetched, Gathers, spent,
  interrupted, unfetched, unparsed, unjudged, stopped, last_page, next_page, Gathered,
}

module _ {B R : Type 0} (base : String) (spec : PaginationSpec) (reader : Reader B R) where
  without_pages :
      (world : World B) (left page : ℕ) (cursor : String) (error : Option WalkError) (signal : Bool)
      (urls : List String)
      → Gathers base spec reader world left page cursor [] error signal urls
      → Gathered base spec reader world left page cursor (ended base spec reader error signal urls)
  without_pages world left page cursor error signal urls g = record {
    pages = [];
    gathers = g;
    whole = refl;
  }

  cursor_after-NextCursor :
      (body : B) (cursor : String)
      → NextCursor base spec reader body cursor (cursor_after base spec reader body cursor)
  cursor_after-NextCursor body cursor = elim (Bool-cases (spec.kind == "cursor")) [
    | inl on ↦ elim (Bool-cases (spec.cursor_path == "")) [
      | inl bare ↦
          rw (cursor_after, on, bare) (unchanged (inr ((eq_iff spec.cursor_path "").0 bare)))
      | inr path ↦
          rw (cursor_after, on, path)
            (named ((eq_iff spec.kind "cursor").0 on) (λ e.
              let same : (spec.cursor_path == "") ≡ true = (eq_iff spec.cursor_path "").1 e in cc))
    ]
    | inr off ↦
        rw (cursor_after, off)
          (unchanged (
            inl (λ e.
              let same : (spec.kind == "cursor") ≡ true = (eq_iff spec.kind "cursor").1 e in cc)))
  ]

  stops-Says : (records : List R) → Says base spec reader records (stops base spec reader records)
  stops-Says records = go reader.stop_when refl
    where
      go :
          (s : Option (List R → Option Bool))
          → reader.stop_when ≡ s
          → Says base spec reader records (elim s [ none ↦ some false | some f ↦ f records ])
      go none e = no_expression e
      go (some f) e = expression e

  is_last_iff :
      (page : ℕ) (next : String)
      → (is_last base spec reader page next ≡ true) ↔ EndsAt base spec reader page next
  is_last_iff page next = ground (arith, eq_iff spec.kind "cursor", eq_iff next "")

  -- A page that was fetched and parsed and did not signal a stop.
  kept_page :
      (world : World B) (left page : ℕ) (cursor next : String) (body : B) (records : List R)
      (last : Bool) (rest : Walk R)
      → IsFetched base spec reader world page cursor body
      → reader.parse body ≡ some records
      → Says base spec reader records (some false)
      → NextCursor base spec reader body cursor next
      → is_last base spec reader page next ≡ last
      → Gathered base spec reader world left (suc page) next rest
      → Gathered base spec reader world
          (suc left)
          page
          cursor
          (kept base spec reader records (build_paginated_url base spec page cursor) last rest)
  kept_page world left page cursor next body records true rest a b c d e g = record {
    pages = records ∷ [];
    gathers = last_page a b c d ((is_last_iff page next).0 e);
    whole = sym (append-nil records);
  }
  kept_page world left page cursor next body records false rest a b c d e g = record {
    pages = records ∷ g.pages;
    gathers =
        next_page a b c d
          (λ h.
            let last : is_last base spec reader page next ≡ true = (is_last_iff page next).1 h in
            cc)
          g.gathers;
    whole = ap (λ l. records ++ l) g.whole;
  }

  judged_page :
      (world : World B) (left page : ℕ) (cursor next : String) (body : B) (records : List R)
      (stop : Option Bool) (rest : Walk R)
      → IsFetched base spec reader world page cursor body
      → reader.parse body ≡ some records
      → Says base spec reader records stop
      → NextCursor base spec reader body cursor next
      → Gathered base spec reader world left (suc page) next rest
      → Gathered base spec reader world (suc left) page cursor (
          judge base spec reader page
            (build_paginated_url base spec page cursor)
            records
            stop
            (is_last base spec reader page next)
            rest)
  judged_page world left page cursor next body records none rest a b c d g =
      without_pages world (suc left) page cursor _ false _ (unjudged a b c)
  judged_page world left page cursor next body records (some true) rest a b c d g =
      without_pages world (suc left) page cursor none true _ (stopped a b c)
  judged_page world left page cursor next body records (some false) rest a b c d g =
      kept_page world left page cursor next body records _ rest a b c d refl g

  parsed_page :
      (world : World B) (left page : ℕ) (cursor next : String) (body : B) (parsed : Option (List R))
      (rest : Walk R)
      → IsFetched base spec reader world page cursor body
      → reader.parse body ≡ parsed
      → NextCursor base spec reader body cursor next
      → Gathered base spec reader world left (suc page) next rest
      → Gathered base spec reader world (suc left) page cursor (
          read_page base spec reader page
            (build_paginated_url base spec page cursor)
            parsed
            (is_last base spec reader page next)
            rest)
  parsed_page world left page cursor next body none rest a b d g =
      without_pages world (suc left) page cursor _ false _ (unparsed a b)
  parsed_page world left page cursor next body (some records) rest a b d g =
      judged_page world left page cursor next body records (stops base spec reader records) rest a b
        (stops-Says records) d g

  fetched_page :
      (world : World B) (left page : ℕ) (cursor : String) (fetched : Option B)
      (walk : String → Walk R)
      → world.canceled page ≡ false
      → world.fetch page (build_paginated_url base spec page cursor) ≡ fetched
      → ((next : String) → Gathered base spec reader world left (suc page) next (walk next))
      → Gathered base spec reader world (suc left) page cursor (
          after_fetch base spec reader page cursor
            (build_paginated_url base spec page cursor)
            fetched
            walk)
  fetched_page world left page cursor none walk a b g =
      without_pages world (suc left) page cursor _ false _ (unfetched a b)
  fetched_page world left page cursor (some body) walk a b g =
      let next = cursor_after base spec reader body cursor in
      parsed_page world left page cursor next body (reader.parse body) (walk next)
        (record { live = a; answer = b }) refl (cursor_after-NextCursor body cursor) (g next)

  walk_pages-Gathered :
      (world : World B) (left page : ℕ) (cursor : String)
      → Gathered base spec reader world left page cursor
          (walk_pages base spec reader world left page cursor)
  unfolding walk_pages
  walk_pages-Gathered world zero page cursor =
      without_pages world zero page cursor none false [] spent
  walk_pages-Gathered world (suc left) page cursor = elim (Bool-cases (world.canceled page)) [
    | inl off ↦
        rw off (
          without_pages world (suc left) page cursor (some walk_canceled) false []
            (interrupted off))
    | inr live ↦ rw live (
        fetched_page world left page cursor
          (world.fetch page (build_paginated_url base spec page cursor)) _ live refl
          (λ next. walk_pages-Gathered world left (suc page) next))
  ]

  -- Whatever the site answers and whenever the context is cancelled, a walk gathers exactly the records
  -- of its first pages in order, each fetched at the URL of its number and of the cursor that the page
  -- before it named. It goes on to the next page until `MaxPages` are read, the context is cancelled, a
  -- page cannot be fetched, parsed or judged, one signals a stop, or a later page names no next cursor;
  -- the pages before an error are kept, and a walk that ends without an error and a stop signal has
  -- read `MaxPages` pages.
  pub fetch_all_pages-Gathered :
      (world : World B)
      → Gathered base spec reader world spec.max_pages 0 "" (fetch_all_pages base spec reader world)
  unfolding fetch_all_pages
  fetch_all_pages-Gathered world = walk_pages-Gathered world spec.max_pages 0 ""
