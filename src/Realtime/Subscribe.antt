-- ===== src/Realtime/Subscribe.antt =====
-- internal/realtime/subscribe.go: what the subscribe, unsubscribe and viewport_update messages do to
-- the client's state, and the plan of the snapshot that answers a subscription. The reading of the
-- message's JSON is a parameter: `none` is data that is absent or does not decode.
pub mod Limit
use respondent_community.Common.{
  ℕ, ◌≤◌, ◌≡◌, String, Bool, true, false, not, ◌&&◌, Option, none, some, if◌then◌else◌, ltb, leb,
  length, string_eq, ◌==◌,
}
use respondent_community.Common.Dict
use respondent_community.Common.Int.{ℤ, pos, negsuc, pos_part}
use respondent_community.Realtime.Geometry.{Floats, BBox, invalid_viewport, viewport_entity_limit}
use respondent_community.Realtime.Client.{
  Client, subscribe, unsubscribe, set_viewport, get_viewport, set_global_mode, is_in_time_range,
}

abbrev pub max_subscriptions : ℕ
max_subscriptions = 100

abbrev pub default_global_limit : ℕ
default_global_limit = 5000

abbrev pub max_global_limit : ℕ
max_global_limit = 10000

pub record SubData (F : Type 0) : Type 0 where
  pub viewport : Option (BBox F)
  pub mode : String
  pub limit : ℤ

-- The limit of a global snapshot.
unfoldable pub global_limit : ℤ → ℕ
global_limit requested =
    if ltb 0 (pos_part requested) && leb (pos_part requested) max_global_limit
    then pos_part requested
    else default_global_limit

module _ {F : Type 0} where
  unfoldable pub store_viewport : Client F → String → Option (BBox F) → Client F
  store_viewport c layer none = c
  store_viewport c layer (some b) = set_viewport c layer b

  unfoldable pub accept_subscription : Client F → String → Option (SubData F) → Client F
  unfolding store_viewport
  accept_subscription c layer none = set_global_mode (subscribe c layer) layer false
  accept_subscription c layer (some d) =
      set_global_mode (store_viewport (subscribe c layer) layer d.viewport) layer
        (d.mode == "global")

  unfoldable pub handle_subscribe : Client F → String → Option (SubData F) → Client F
  unfolding accept_subscription
  handle_subscribe c layer d =
      if layer == ""
      then c
      else if leb max_subscriptions (length c.subscriptions)
      then c
      else accept_subscription c layer d

  -- The subscription part of `handleUnsubscribe`; the poll of the layer is stopped with it.
  unfoldable pub handle_unsubscribe : Client F → String → Client F
  handle_unsubscribe c layer =
      if layer == ""
      then c
      else unsubscribe (record c { on_demand_tickers = Dict.remove layer c.on_demand_tickers })
          layer

module _ (fl : Floats) where
  open fl use {F}

  unfoldable pub accept_viewport : Client F → String → Option (BBox F) → Client F
  accept_viewport c layer none = c
  accept_viewport c layer (some b) = if invalid_viewport fl b then c else set_viewport c layer b

  -- The first part of `handleViewportUpdate`, up to the choice of a query.
  unfoldable pub handle_viewport_update : Client F → String → Option (BBox F) → Client F
  unfolding accept_viewport
  handle_viewport_update c layer b = if layer == "" then c else accept_viewport c layer b

  -- How many entities the snapshot of a subscription asks the store for, and in which box.
  unfoldable pub snapshot_limit : Option (BBox F) → Bool → Bool → ℤ → ℕ → ℕ
  snapshot_limit none spatial global requested max_results =
      if global then global_limit requested else 2000
  snapshot_limit (some b) spatial global requested max_results =
      if global
      then global_limit requested
      else if spatial
      then viewport_entity_limit fl (some b) max_results
      else 2000
