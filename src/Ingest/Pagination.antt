-- ===== src/Ingest/Pagination.antt =====
-- internal/ingest/declarative/adapter_pagination.go. The transport, the parser, the `stop_when`
-- expression and the cancellation of the context are an environment. `Size` is at most 10,000 and
-- `MaxPages` at most 1,000 by the validation of schema.go, so that their product is an int.
pub mod Gathers
pub mod Pages
pub mod Refresh
pub mod Cursor
use Prim.Native.String.{◌++◌}
use text.Mathlib.Text.{find?}
use respondent_community.Common.{
  ℕ, zero, suc, ◌*◌, ◌≡◌, String, Bool, true, false, not, ◌&&◌, Option, none, some, List, [], ◌∷◌,
  if◌then◌else◌, ltb, eqb, is_some, string_eq, ◌==◌,
}
use mathlib.Core.List.{◌++◌ as append}
use respondent_community.Common.Decimal.{decimal}

pub record PaginationSpec : Type 0 where
  pub kind : String
  pub page_param : String
  pub size_param : String
  pub size : ℕ
  pub max_pages : ℕ
  pub cursor_path : String

abbrev pub with_size : PaginationSpec → String → String
with_size p url =
    if not (p.size_param == "")
    then url ++ ("&" ++ (p.size_param ++ ("=" ++ decimal p.size)))
    else url

abbrev pub separator : String → String
separator base = if is_some (find? base "?") then "&" else "?"

abbrev pub with_page : String → PaginationSpec → String → String
with_page base p value = with_size p (base ++ (separator base ++ (p.page_param ++ ("=" ++ value))))

unfoldable pub build_paginated_url : String → PaginationSpec → ℕ → String → String
build_paginated_url base p page cursor =
    if p.kind == "page_number"
    then with_page base p (decimal (suc page))
    else if p.kind == "offset"
    then with_page base p (decimal (page * p.size))
    else if p.kind == "cursor"
    then (if not (eqb page 0) && not (cursor == "")
        then with_page base p cursor
        else if not (p.size_param == "")
        then base ++ (separator base ++ (p.size_param ++ ("=" ++ decimal p.size)))
        else base)
    else base

-- What one walk meets: the cancellation before a page, and the body of a page.
pub record World (B : Type 0) : Type 0 where
  pub canceled : ℕ → Bool
  pub fetch : ℕ → String → Option B

-- `parseBody`, the compiled `stop_when`, and `extractCursorFromJSON` of the cursor's path.
pub record Reader (B R : Type 0) : Type 0 where
  pub parse : B → Option (List R)
  pub stop_when : Option (List R → Option Bool)
  pub extract_cursor : B → String

pub data WalkError : Type 0 where
  walk_canceled : WalkError
  fetch_failed parse_failed stop_failed : ℕ → WalkError

-- The records gathered, the error that ended the walk, whether a stop signal did, and the URLs that
-- were fetched.
pub record Walk (R : Type 0) : Type 0 where
  pub records : List R
  pub error : Option WalkError
  pub stopped : Bool
  pub urls : List String

module _ {B R : Type 0} (base : String) (spec : PaginationSpec) (reader : Reader B R) where
  abbrev pub cursor_after : B → String → String
  cursor_after body cursor =
      if (spec.kind == "cursor") && not (spec.cursor_path == "")
      then reader.extract_cursor body
      else cursor

  abbrev pub stops : List R → Option Bool
  stops records = elim reader.stop_when [ none ↦ some false | some f ↦ f records ]

  abbrev pub ended : Option WalkError → Bool → List String → Walk R
  ended error stopped urls = record { records = []; error = error; stopped = stopped; urls = urls }

  -- A page whose records are kept.
  abbrev pub kept : List R → String → Bool → Walk R → Walk R
  kept records url last rest =
      if last
      then record { records = records; error = none; stopped = true; urls = url ∷ [] }
      else record {
        records = append records rest.records;
        error = rest.error;
        stopped = rest.stopped;
        urls = url ∷ rest.urls;
      }

  abbrev pub judge : ℕ → String → List R → Option Bool → Bool → Walk R → Walk R
  judge page url records none last rest = ended (some (stop_failed (suc page))) false (url ∷ [])
  judge page url records (some true) last rest = ended none true (url ∷ [])
  judge page url records (some false) last rest = kept records url last rest

  abbrev pub read_page : ℕ → String → Option (List R) → Bool → Walk R → Walk R
  read_page page url none last rest = ended (some (parse_failed (suc page))) false (url ∷ [])
  read_page page url (some records) last rest = judge page url records (stops records) last rest

  abbrev pub is_last : ℕ → String → Bool
  is_last page cursor = (spec.kind == "cursor") && ((cursor == "") && ltb 0 page)

  -- The page after its fetch; `walk` goes on from the next cursor.
  abbrev pub after_fetch : ℕ → String → String → Option B → (String → Walk R) → Walk R
  after_fetch page cursor url none walk = ended (some (fetch_failed (suc page))) false (url ∷ [])
  after_fetch page cursor url (some body) walk =
      let next = cursor_after body cursor in
      read_page page url (reader.parse body) (is_last page next) (walk next)

  -- The pages that are left, the number of the next one, and the cursor.
  unfoldable pub walk_pages : World B → ℕ → ℕ → String → Walk R
  unfolding build_paginated_url
  walk_pages world zero page cursor = ended none false []
  walk_pages world (suc left) page cursor =
      let url = build_paginated_url base spec page cursor in
      let walk : String → Walk R = λ next. walk_pages world left (suc page) next in
      if world.canceled page
      then ended (some walk_canceled) false []
      else after_fetch page cursor url (world.fetch page url) walk

  unfoldable pub fetch_all_pages : World B → Walk R
  unfolding walk_pages
  fetch_all_pages world = walk_pages world spec.max_pages 0 ""

pub data Publication (R : Type 0) : Type 0 where
  context_done : Publication R
  refresh_failed : WalkError → Publication R
  published : List R → Publication R

abbrev pub max_discovered_refresh_attempts : ℕ
max_discovered_refresh_attempts = 3

abbrev pub refresh_attempts : Bool → ℕ
refresh_attempts discovered = if discovered then max_discovered_refresh_attempts else 1

-- The walks and the state of the context after each are given.
module _ {R : Type 0} (walks : ℕ → Walk R) (done : ℕ → Bool) where
  -- A round whose walk ended with this error, or with none.
  abbrev pub after_walk : Bool → ℕ → Option WalkError → Publication R → Publication R
  after_walk discovered attempt none rest = published (walks attempt).records
  after_walk discovered attempt (some e) rest =
      if done attempt
      then context_done
      else if not discovered
      then published (walks attempt).records
      else rest

  -- The rounds that are left, the number of the next walk, and `lastErr`.
  unfoldable pub refresh_loop : Bool → ℕ → ℕ → Option WalkError → Publication R
  refresh_loop discovered zero attempt none = published []
  refresh_loop discovered zero attempt (some e) = refresh_failed e
  refresh_loop discovered (suc left) attempt last =
      let error = (walks attempt).error in
      let rest = refresh_loop discovered left (suc attempt) error in
      after_walk discovered attempt error rest

-- The records that are processed and set, if any.
unfoldable pub fetch_paginated :
    {B R : Type 0}
    → String
    → PaginationSpec
    → Reader B R
    → Bool
    → (ℕ → World B)
    → (ℕ → Bool)
    → Publication R
unfolding fetch_all_pages refresh_loop
fetch_paginated base spec reader discovered worlds done =
    refresh_loop (λ k. fetch_all_pages base spec reader (worlds k)) done discovered
      (refresh_attempts discovered) 0 none
