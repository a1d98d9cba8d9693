-- ===== src/Tests/Realtime.antt =====
-- One client's requests. The coordinates are natural numbers, degrees from a far corner.
use respondent_community.Common.{
  ℕ, suc, ◌+◌, ◌-◌, ◌*◌, ◌/◌, ◌<◌, ◌≡◌, ◌↔◌, ◌⊎◌, refl, arith, String, true, false, none, some,
  List, [], ◌∷◌, contains, length, string_eq, ltb, leb,
}
use respondent_community.Common.Dict
use respondent_community.Common.Dict.{Dict}
use respondent_community.Realtime.Geometry.{viewport_entity_limit, bbox_contains, Floats, BBox}
use respondent_community.Realtime.Filter.{
  NotificationFilter, NotificationMeta, matches_notification_filter, AtLeast,
  matches_notification_filter_iff,
}
use respondent_community.Realtime.Client.{
  Client, new_client, enable_subscription, is_subscribed, is_frozen, set_viewport, set_time_range,
  get_time_range, get_viewport, is_global_mode,
}
use respondent_community.Realtime.Client.Modes.{
  Change, subscribed, ranged, unsubscribed, apply_all, mode_after, off, Shows, apply_all-Shows,
}
use respondent_community.Realtime.TimeRange.{
  TimeRangeConfig, RangeData, Query, hour, handle_time_range, accept_range, parsed_range, limit_for,
}
use respondent_community.Realtime.TimeRange.Bounds.{parsed_range_inverted}
use respondent_community.Realtime.TimeRange.Effects.{Outcome, handle_time_range-Outcome}
use respondent_community.Realtime.Flush.{Update, client_batch}
use respondent_community.Realtime.Flush.Batch.{Batched, client_batch_lem}
use respondent_community.Realtime.Subscribe.Limit as Limit
use respondent_community.Realtime.Subscribe.Limit.{
  Request, handle_all, IsBounded, handle_all-IsBounded, accept_range_unbounded,
}

abbrev degrees : Floats
degrees = record {
  F = ℕ;
  ltf = ltb;
  lef = leb;
  addf = λ a b. a + b;
  subf = λ a b. a - b;
  mulf = λ a b. a * b;
  divf = λ a b. a / b;
  lit = λ n. n;
  trunc = λ n. n;
}

abbrev world : BBox ℕ
world = record { west = 0; south = 0; east = 360; north = 180 }

abbrev filter : NotificationFilter
filter = record { min_attention = "medium"; insight_types = "anomaly" ∷ [] }

abbrev meta : NotificationMeta
meta = record { attention = "high"; insight_type = "anomaly"; layer_type = "flights" }

matches_notification_filter_iff_example :
    (matches_notification_filter (some filter) meta ≡ true) ↔ (
      ((filter.min_attention ≡ "")
        ⊎ (meta.attention ≡ "")
        ⊎ AtLeast filter.min_attention meta.attention)
      × ((filter.insight_types ≡ []) ⊎ (contains meta.insight_type filter.insight_types ≡ true)))
matches_notification_filter_iff_example = matches_notification_filter_iff filter meta

abbrev no_requests : Dict String ℕ
no_requests = []

abbrev requests : List (String × ℕ)
requests = ("flights", 0) ∷ ("flights", 1) ∷ ("ships", 1) ∷ ("flights", 2) ∷ []

abbrev changes : List (Change ℕ)
changes = subscribed "flights" ∷ ranged "flights" 10 20 true ∷ unsubscribed "ships" ∷ []

apply_all-Shows_example :
    Shows (apply_all new_client changes) "flights" (mode_after "flights" off changes)
apply_all-Shows_example = apply_all-Shows "flights" changes

abbrev limits : TimeRangeConfig
limits = record {
  enabled = true;
  max_lookback = 48 * hour;
  max_range_span = 24 * hour;
  wait = 2_000_000_000;
}

abbrev request : RangeData ℕ
request = record { from = some (50 * hour); to = some (60 * hour); viewport = none; mode = "" }

lookback : limit_for limits.max_lookback (λ hc. hc.max_lookback_hours) none ≡ 48 * hour
unfolding limit_for
lookback = refl

abbrev no_client : Client ℕ
no_client = new_client

parsed_range_inverted_example :
    (q : Query ℕ) × ((parsed_range limits none
        (60 * hour)
        no_client
        "flights"
        request
        false
        (some (4 * hour))
        (some (5 * hour))).1
      ≡ some q)
    × (q.from ≡ 60 * hour - 48 * hour)
    × (q.to ≡ 5 * hour)
    × (q.to < q.from)
parsed_range_inverted_example =
    parsed_range_inverted limits none (60 * hour) no_client "flights" request false (4 * hour)
      (5 * hour) (48 * hour) lookback (omega arith) (omega arith) (omega arith)

handle_time_range-Outcome_example :
    Outcome new_client "flights"
      (handle_time_range limits none (60 * hour) (60 * hour) new_client "flights" (some request))
handle_time_range-Outcome_example =
    handle_time_range-Outcome limits none (60 * hour) (60 * hour) new_client "flights"
      (some request)

abbrev viewer : Client ℕ
viewer = enable_subscription new_client "flights"

abbrev near : BBox ℕ
near = record { west = 0; south = 0; east = 10; north = 10 }

abbrev updated : String → ℕ → ℕ → Update ℕ String
updated name lat t = record { payload = name; position = some (lat, 5); event_time = some t }

-- One within, one off the viewport, one too early, one without a position or time.
abbrev updates : List (Update ℕ String)
updates =
    updated "a" 5 15
    ∷ updated "b" 50 15
    ∷ updated "c" 5 9
    ∷ record { payload = "d"; position = none; event_time = none }
    ∷ []

abbrev watcher : Client ℕ
watcher = set_viewport (set_time_range viewer "flights" 10 20 false) "flights" near

two_updates : client_batch degrees watcher "flights" true updates ≡ "a" ∷ "d" ∷ []
unfolding client_batch set_viewport set_time_range enable_subscription new_client is_subscribed
    is_frozen get_time_range get_viewport is_global_mode viewport_entity_limit bbox_contains
    Dict.get Dict.put Dict.remove
two_updates = refl

client_batch_lem_example : Batched degrees watcher "flights" true updates
client_batch_lem_example = client_batch_lem degrees watcher "flights" true updates (omega arith)

abbrev asked : List (Request ℕ)
asked =
    Limit.subscribed "flights" none
    ∷ Limit.moved "flights" (some world)
    ∷ Limit.unsubscribed "ships"
    ∷ []

viewer-IsBounded : IsBounded viewer
unfolding enable_subscription new_client Dict.put
viewer-IsBounded = omega arith

handle_all-IsBounded_example : IsBounded (handle_all degrees asked viewer)
handle_all-IsBounded_example = handle_all-IsBounded degrees asked viewer viewer-IsBounded

no_ships : Dict.has "ships" viewer.subscriptions ≡ false
unfolding enable_subscription new_client Dict.get Dict.put
no_ships = refl

live_range :
    (accept_range limits none
      (60 * hour)
      viewer
      "ships"
      request
      false
      (50 * hour)
      (60 * hour)).1.frozen
    ≡ false
unfolding accept_range
live_range = refl

accept_range_unbounded_example :
    length
      (accept_range limits none
        (60 * hour)
        viewer
        "ships"
        request
        false
        (50 * hour)
        (60 * hour)).0.subscriptions
    ≡ suc (length viewer.subscriptions)
accept_range_unbounded_example =
    accept_range_unbounded limits none (60 * hour) viewer "ships" request false (50 * hour)
      (60 * hour) no_ships live_range
