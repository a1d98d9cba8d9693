-- ===== src/Ingest/Pagination/Cursor.antt =====
-- Cursor pagination: `extractCursorFromJSON` of adapter_pagination.go, and a site of one page. A
-- decoded body is a `Json`; the number format, the format of the values that are neither texts nor
-- numbers, and the number type are parameters.
use respondent_community.Common.{
  ℕ, suc, ◌≡◌, refl, ap, String, Bool, true, false, not, ◌&&◌, Option, none, some, List, [], ◌∷◌,
  ◌++◌, if◌then◌else◌, string_eq, ◌==◌, eqb, ltb, ◌∙◌, Bool-cases, inl, inr,
}
use respondent_community.Ingest.Pagination.{
  PaginationSpec, build_paginated_url, World, Reader, stops, cursor_after, walk_pages, is_last,
  kept, fetch_all_pages,
}

mutual
  pub data Json (N O : Type 0) : Type 0 where
    object : Fields N O → Json N O
    text : String → Json N O
    number : N → Json N O
    other : O → Json N O

  pub data Fields (N O : Type 0) : Type 0 where
    no_fields : Fields N O
    field : String → Json N O → Fields N O → Fields N O

module _ {N O : Type 0} (print_number : N → String) (print_other : Json N O → String) where
  abbrev pub value_at : String → Fields N O → Option (Json N O)
  value_at key no_fields = none
  value_at key (field k v fs) = if k == key then some v else value_at key fs

  abbrev pub print_cursor : Json N O → String
  print_cursor (text s) = s
  print_cursor (number n) = print_number n
  print_cursor v = print_other v

  -- The segments of the path that are left, and the value that they start from.
  unfoldable pub follow : List String → Option (Json N O) → String
  follow segments none = ""
  follow [] (some v) = print_cursor v
  follow (s ∷ segments) (some (object fs)) = follow segments (value_at s fs)
  follow (s ∷ segments) (some _) = ""

  -- `none` is a body that is not JSON.
  unfoldable pub extract_cursor_from_json : Option (Json N O) → List String → String
  unfolding follow
  extract_cursor_from_json (some (object fs)) segments = follow segments (some (object fs))
  extract_cursor_from_json _ segments = ""

and_false : (b : Bool) → (b && false) ≡ false
and_false true = refl
and_false false = refl

module _ {B R : Type 0} (base : String) (spec : PaginationSpec) (reader : Reader B R) where
  -- A site whose only page names no next cursor.
  pub record OnePage (world : World B) (body : B) (records : List R) : Type 0 where
    pub live : (page : ℕ) → world.canceled page ≡ false
    pub answer : (page : ℕ) → world.fetch page (build_paginated_url base spec 0 "") ≡ some body
    pub read : reader.parse body ≡ some records
    pub goes_on : stops base spec reader records ≡ some false
    pub no_cursor : reader.extract_cursor body ≡ ""

  cursor_kind_url :
      (page : ℕ)
      → spec.kind ≡ "cursor"
      → build_paginated_url base spec page "" ≡ build_paginated_url base spec 0 ""
  unfolding build_paginated_url
  cursor_kind_url page h = rw (h, and_false (not (eqb page 0))) refl

  next_cursor_empty :
      (body : B) → reader.extract_cursor body ≡ "" → cursor_after base spec reader body "" ≡ ""
  next_cursor_empty body h =
      elim (Bool-cases ((spec.kind == "cursor") && not (spec.cursor_path == ""))) [
        | inl on ↦ rw (cursor_after, on) h
        | inr off ↦ rw (cursor_after, off) refl
      ]

  is_last_cursor : (page : ℕ) → spec.kind ≡ "cursor" → is_last base spec reader page "" ≡ ltb 0 page
  is_last_cursor page h = simp h

  -- One page of such a site.
  OnePage-step :
      (world : World B) (body : B) (records : List R) (left page : ℕ)
      → spec.kind ≡ "cursor"
      → OnePage world body records
      → walk_pages base spec reader world (suc left) page ""
        ≡ kept base spec reader records
            (build_paginated_url base spec 0 "")
            (ltb 0 page)
            (walk_pages base spec reader world left (suc page) "")
  unfolding walk_pages
  OnePage-step world body records left page kind site = simp (
    site.live page,
    cursor_kind_url page kind,
    site.answer page,
    site.read,
    site.goes_on,
    next_cursor_empty body site.no_cursor,
    is_last_cursor page kind,
  )

  -- With cursor pagination and room for two pages, a site whose only page gives no next cursor is
  -- fetched twice at the same URL, and the records of its page are gathered twice.
  pub fetch_all_pages_twice :
      (world : World B) (body : B) (records : List R) (more : ℕ)
      → spec.kind ≡ "cursor"
      → spec.max_pages ≡ suc (suc more)
      → OnePage world body records
      → ((fetch_all_pages base spec reader world).records ≡ records ++ records)
        × ((fetch_all_pages base spec reader world).urls
            ≡ build_paginated_url base spec 0 "" ∷ build_paginated_url base spec 0 "" ∷ [])
  unfolding fetch_all_pages
  fetch_all_pages_twice world body records more kind room site =
      let e =
        ap (λ n. walk_pages base spec reader world n 0 "") room
        ∙ (OnePage-step world body records (suc more) 0 kind site
            ∙ ap (kept base spec reader records (build_paginated_url base spec 0 "") false)
                (OnePage-step world body records more 1 kind site)) in
      (ap (λ w. w.records) e, ap (λ w. w.urls) e)
