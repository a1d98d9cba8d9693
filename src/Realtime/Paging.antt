-- ===== src/Realtime/Paging.antt =====
-- internal/realtime/subscribe.go: snapshots in chunks (`SendSnapshotToClient`,
-- `SendPaginatedSnapshot`) and the pages of a global layer (`handlePage`). The store of the latest
-- entities is an interface: the pages of one ordered list of rows, and their number. A cursor is
-- its offset: its encoding as base64 JSON is not modelled. The messages of a snapshot are those of its
-- chunks up to the first that `json.Marshal` refuses, where the loop returns.
pub mod Chunks
pub mod Crawl
use respondent_community.Common.{
  ℕ, zero, suc, ◌+◌, ◌≡◌, String, Bool, true, false, ◌&&◌, Option, none, some, List, [], ◌∷◌, ◌++◌,
  map, if◌then◌else◌, ltb, leb, length, take, drop, string_eq, ◌>>=◌,
}
use respondent_community.Common.Dict
use respondent_community.Common.Dict.{Dict}
use respondent_community.Common.Int.{ℤ, pos_part}
use respondent_community.Realtime.Pump.{Pipe, offer, send_buffer}
use respondent_community.Realtime.Subscribe.{max_global_limit}

abbrev pub snapshot_chunk_size : ℕ
snapshot_chunk_size = 500

abbrev pub default_page_size : ℕ
default_page_size = 1000

pub record Entity (E : Type 0) : Type 0 where
  pub id : String
  pub rest : E

pub record Observation (O : Type 0) : Type 0 where
  pub entity_id : String
  pub rest : O

pub record Chunk (E O : Type 0) : Type 0 where
  pub entities : List (Entity E)
  pub observations : List (Observation O)
  pub total : Option ℕ
  pub cursor : Option ℕ

-- `GetLatestForLayerPage` and `CountLatestForLayer` for one layer.
pub record LayerStore (E : Type 0) : Type 0 where
  pub rows : List E
  pub page : ℕ → ℕ → List E
  pub count : ℕ
  pub page_lem : (limit offset : ℕ) → page limit offset ≡ take limit (drop offset rows)
  pub count_lem : count ≡ length rows

-- The cursor of the first page, if the layer holds more, and that of a later page, if it is full.
abbrev pub first_cursor : ℕ → ℕ → Option ℕ
first_cursor sent total = if ltb sent total then some sent else none

abbrev pub next_cursor : ℕ → ℕ → ℕ → Option ℕ
next_cursor limit offset sent = if leb limit sent then some (offset + sent) else none

module _ {A : Type 0} where
  -- The loop `for i := 0; i < len(page); i += snapshotChunkSize`; the fuel is the length.
  unfoldable pub chunk_loop : ℕ → List A → List (List A)
  chunk_loop zero xs = []
  chunk_loop (suc n) [] = []
  chunk_loop (suc n) (x ∷ xs) =
      take snapshot_chunk_size (x ∷ xs) ∷ chunk_loop n (drop snapshot_chunk_size (x ∷ xs))

  unfoldable pub chunks : List A → List (List A)
  unfolding chunk_loop
  chunks xs = chunk_loop (length xs) xs

module _ {O : Type 0} where
  unfoldable pub obs_map :
      List (Observation O) → Dict String (Observation O) → Dict String (Observation O)
  obs_map [] m = m
  obs_map (o ∷ os) m = obs_map os (Dict.put o.entity_id o m)

  abbrev pub append_found : Option (Observation O) → List (Observation O) → List (Observation O)
  append_found none os = os
  append_found (some o) os = o ∷ os

module _ {E O : Type 0} where
  unfoldable pub chunk_observations :
      Dict String (Observation O) → List (Entity E) → List (Observation O)
  chunk_observations m [] = []
  chunk_observations m (e ∷ es) = append_found (Dict.get e.id m) (chunk_observations m es)

  unfoldable pub plain_chunk : Dict String (Observation O) → List (Entity E) → Chunk E O
  unfolding chunk_observations
  plain_chunk m es = record {
    entities = es;
    observations = chunk_observations m es;
    total = none;
    cursor = none;
  }

  -- The messages of `SendSnapshotToClient` for a layer without indicators.
  unfoldable pub snapshot_chunks : List (Entity E) → List (Observation O) → List (Chunk E O)
  unfolding chunks obs_map plain_chunk
  snapshot_chunks es os = map (plain_chunk (obs_map os [])) (chunks es)

  -- Only the first chunk has the total and the cursor.
  abbrev pub mark_first : ℕ → Option ℕ → List (Chunk E O) → List (Chunk E O)
  mark_first total cursor [] = []
  mark_first total cursor (c ∷ cs) = record c { total = some total; cursor = cursor } ∷ cs

  -- The messages of `SendPaginatedSnapshot` for a layer without indicators.
  unfoldable pub paginated_chunks :
      ℕ → List (Entity E) → List (Observation O) → ℕ → List (Chunk E O)
  unfolding snapshot_chunks
  paginated_chunks total es os limit =
      let page = take limit es in
      mark_first total (first_cursor (length page) total) (snapshot_chunks page os)

unfoldable pub page_limit : ℤ → ℕ
page_limit requested =
    if ltb 0 (pos_part requested) && leb (pos_part requested) max_global_limit
    then pos_part requested
    else default_page_size

module _ {M : Type 0} where
  -- One send: a full buffer ends the loop, and a closed channel panics.
  abbrev pub send_chunk : M → Pipe M → (Pipe M → Option (Pipe M)) → Option (Pipe M)
  send_chunk m p rest =
      let next = rest (record p { queue = p.queue ++ m ∷ [] }) in
      if p.closed
      then none
      else if ltb (length p.queue) send_buffer
      then next
      else some (record p { dropped = suc p.dropped })

  -- The sends of the chunks. `others` is what the other goroutines do to the channel before the i-th
  -- send: writePump drains it, the server sends to it, or closes it.
  unfoldable pub send_chunks :
      (ℕ → Pipe M → Option (Pipe M)) → ℕ → List M → Pipe M → Option (Pipe M)
  send_chunks others i [] p = some p
  send_chunks others i (m ∷ ms) p =
      others i p >>= λ q. send_chunk m q (λ r. send_chunks others (suc i) ms r)
