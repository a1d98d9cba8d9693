-- ===== src/Realtime/Flush.antt =====
-- internal/realtime/broadcast.go: the updates that wait for the next tick (`QueueUpdate`) and
-- `flushBatchedUpdates`, which sends each client its batch of each layer; `layerTypeForID` and
-- `isSpatialLayer` of internal/realtime/websocket.go. The reading of an update's JSON, which gives
-- its position and time, and the encoding of a batch are parameters.
pub mod Within
pub mod Batch
use respondent_community.Common.{
  ℕ, suc, ◌+◌, ◌≡◌, String, Bool, true, false, not, ◌&&◌, ◌||◌, Option, none, some, List, [], ◌∷◌,
  ◌++◌, if◌then◌else◌, ltb, leb, length, string_eq, nat_eq, ◌==◌,
}
use respondent_community.Common.Dict
use respondent_community.Common.Dict.{Dict}
use respondent_community.Common.MultiMap
use respondent_community.Domain.Registry.{Registry, lookup_layer_type, lookup_filtering_mode}
use respondent_community.Realtime.Geometry.{Floats, BBox, bbox_contains, viewport_entity_limit}
use respondent_community.Realtime.Client.{
  Client, is_subscribed, is_frozen, is_global_mode, get_viewport, get_time_range,
}
use respondent_community.Realtime.Hub.{Event, deliver}

-- `pendingUpdate`; a missing position or time is `hasSpatial` or `hasTemporal` being false.
pub record Update (F D : Type 0) : Type 0 where
  pub payload : D
  pub position : Option (F × F)
  pub event_time : Option ℕ

unfoldable pub layer_type_for : Option String → String → String
layer_type_for none id = id
layer_type_for (some lt) id = lt

abbrev pub is_viewport_mode : Option String → Bool
is_viewport_mode none = false
is_viewport_mode (some mode) = mode == "viewport"

-- The test of the time range: an update without a time passes, and so does every update without
-- a range.
unfoldable pub in_range : Option (ℕ × ℕ) → Option ℕ → Bool
in_range (some (from, to)) (some t) = if ltb t from || ltb to t then false else true
in_range _ _ = true

module _ {Rest Spec Geo : Type 0} where
  unfoldable pub layer_type_for_id : Registry Rest Spec Geo → String → String
  unfolding layer_type_for
  layer_type_for_id r id = layer_type_for (lookup_layer_type r id) id

  unfoldable pub is_spatial_layer : Registry Rest Spec Geo → String → Bool
  is_spatial_layer r lt = is_viewport_mode (lookup_filtering_mode r lt)

module _ {F D : Type 0} where
  unfoldable pub queue_update :
      String → Update F D → Dict String (List (Update F D)) → Dict String (List (Update F D))
  queue_update layer u pending = Dict.put layer (MultiMap.values layer pending ++ u ∷ []) pending

  -- The loop over the updates, which stops when the batch has `limit` of them.
  unfoldable pub fill : (Update F D → Bool) → ℕ → ℕ → List (Update F D) → List D
  fill keep limit got [] = []
  fill keep limit got (u ∷ us) =
      let rest = fill keep limit (suc got) us in
      let skip = fill keep limit got us in
      if keep u then u.payload ∷ (if leb limit (suc got) then [] else rest) else skip

module _ (fl : Floats) where
  open fl use {F}

  -- The test of the viewport: an update without a position passes.
  unfoldable pub in_view : Bool → Bool → Option (BBox F) → Option (F × F) → Bool
  in_view spatial global (some b) (some (lat, lon)) =
      if spatial && not global then bbox_contains fl b lat lon else true
  in_view spatial global _ _ = true

  unfoldable pub max_batch : Client F → String → Bool → ℕ → ℕ
  max_batch c layer spatial n =
      if spatial && not (is_global_mode c layer)
      then viewport_entity_limit fl (get_viewport c layer) n
      else n

module _ (fl : Floats) {D : Type 0} where
  open fl use {F}

  unfoldable pub wanted : Client F → String → Bool → Update F D → Bool
  unfolding in_range in_view
  wanted c layer spatial u =
      in_range (get_time_range c layer) u.event_time
      && in_view fl spatial (is_global_mode c layer) (get_viewport c layer) u.position

  -- The batch of one client and layer; an empty one is not sent.
  unfoldable pub client_batch : Client F → String → Bool → List (Update F D) → List D
  unfolding wanted max_batch fill
  client_batch c layer spatial updates =
      if not (is_subscribed c layer)
      then []
      else if is_frozen c layer
      then []
      else fill (wanted c layer spatial) (max_batch fl c layer spatial (length updates)) 0 updates

  module _ {M : Type 0} (encode : String → List D → Option M) where
    abbrev pub sent : ℕ → Option M → List (Event M)
    sent id none = []
    sent id (some m) = deliver id m ∷ []

    unfoldable pub send_batch : ℕ → String → List D → List (Event M)
    send_batch id layer [] = []
    send_batch id layer (d ∷ ds) = sent id (encode layer (d ∷ ds))

    unfoldable pub flush_clients :
        Dict ℕ (Client F) → String → Bool → List (Update F D) → List (Event M)
    unfolding client_batch send_batch
    flush_clients [] layer spatial updates = []
    flush_clients ((id, c) ∷ clients) layer spatial updates =
        send_batch id layer (client_batch c layer spatial updates)
        ++ flush_clients clients layer spatial updates

    -- What one flush sends; the pending updates are swapped for none.
    unfoldable pub flush :
        {Rest Spec Geo : Type 0}
        → Registry Rest Spec Geo
        → Dict ℕ (Client F)
        → Dict String (List (Update F D))
        → List (Event M)
    unfolding flush_clients
    flush r clients [] = []
    flush r clients ((layer, updates) ∷ pending) =
        (if MultiMap.is_nil updates
          then []
          else flush_clients clients layer (is_spatial_layer r (layer_type_for_id r layer)) updates)
        ++ flush r clients pending
