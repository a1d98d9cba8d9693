-- ===== src/Realtime/Client.antt =====
-- internal/realtime/client_state.go: the per-client state, keyed by layer, and the operations that
-- read and write it. Each takes the client's mutex, so each is one step. Times and durations are
-- nanoseconds, times counted from the year 0, the first that RFC 3339 can write.
pub mod Modes
pub mod Cooldown
use respondent_community.Common.{
  ℕ, ◌+◌, ◌≡◌, refl, String, Bool, true, false, Option, none, some, List, [], ◌∷◌, map,
  if◌then◌else◌, ltb, string_eq,
}
use respondent_community.Common.Dict
use respondent_community.Common.Dict.{Dict}
use respondent_community.Realtime.Geometry.{BBox}
use respondent_community.Realtime.Filter.{NotificationFilter}

pub record Client (F : Type 0) : Type 0 where
  pub subscriptions : Dict String Bool
  pub viewports : Dict String (BBox F)
  pub time_from : Dict String ℕ
  pub time_to : Dict String ℕ
  pub time_frozen : Dict String Bool
  pub last_backfill : Dict String ℕ
  pub last_on_demand : Dict String ℕ
  pub last_time_range : Dict String ℕ
  -- the layers with a running poll, each with the number of its cancel function
  pub on_demand_tickers : Dict String ℕ
  pub global_layers : Dict String Bool
  pub notification_filter : Option NotificationFilter

abbrev pub or_false : Option Bool → Bool
or_false none = false
or_false (some b) = b

abbrev pub or_zero : Option ℕ → ℕ
or_zero none = 0
or_zero (some n) = n

-- A cooldown table: the request at `now` passes unless the last one that passed is too recent.
-- `none` is the result with `ok == false`; a missing `to` reads as the zero time.
abbrev pub range_of : Option ℕ → Option ℕ → Option (ℕ × ℕ)
range_of none to = none
range_of (some from) to = some (from, or_zero to)

abbrev pub elapsed : Option ℕ → ℕ → ℕ → Bool
elapsed none wait now = true
elapsed (some t) wait now = if ltb now (t + wait) then false else true

unfoldable pub cooldown_passes : Dict String ℕ → String → ℕ → ℕ → Bool
cooldown_passes last layer wait now = elapsed (Dict.get layer last) wait now

unfoldable pub cooldown : Dict String ℕ → String → ℕ → ℕ → Dict String ℕ × Bool
unfolding cooldown_passes
cooldown last layer wait now =
    if cooldown_passes last layer wait now then (Dict.put layer now last, true) else (last, false)

module _ {F : Type 0} where
  unfoldable pub new_client : Client F
  new_client = record {
    subscriptions = [];
    viewports = [];
    time_from = [];
    time_to = [];
    time_frozen = [];
    last_backfill = [];
    last_on_demand = [];
    last_time_range = [];
    on_demand_tickers = [];
    global_layers = [];
    notification_filter = none;
  }

  unfoldable pub set_viewport : Client F → String → BBox F → Client F
  set_viewport c layer bbox = record c { viewports = Dict.put layer bbox c.viewports }

  unfoldable pub get_viewport : Client F → String → Option (BBox F)
  get_viewport c layer = Dict.get layer c.viewports

  unfoldable pub is_global_mode : Client F → String → Bool
  is_global_mode c layer = or_false (Dict.get layer c.global_layers)

  unfoldable pub set_global_mode : Client F → String → Bool → Client F
  set_global_mode c layer global =
      if global
      then record c { global_layers = Dict.put layer true c.global_layers }
      else record c { global_layers = Dict.remove layer c.global_layers }

  unfoldable pub is_subscribed : Client F → String → Bool
  is_subscribed c layer = or_false (Dict.get layer c.subscriptions)

  unfoldable pub is_frozen : Client F → String → Bool
  is_frozen c layer = or_false (Dict.get layer c.time_frozen)

  unfoldable pub subscribe : Client F → String → Client F
  subscribe c layer = record c {
    subscriptions = Dict.put layer true c.subscriptions;
    time_from = Dict.remove layer c.time_from;
    time_to = Dict.remove layer c.time_to;
    time_frozen = Dict.remove layer c.time_frozen;
  }

  unfoldable pub enable_subscription : Client F → String → Client F
  enable_subscription c layer = record c { subscriptions = Dict.put layer true c.subscriptions }

  unfoldable pub unsubscribe : Client F → String → Client F
  unsubscribe c layer = record c {
    subscriptions = Dict.remove layer c.subscriptions;
    time_from = Dict.remove layer c.time_from;
    time_to = Dict.remove layer c.time_to;
    time_frozen = Dict.remove layer c.time_frozen;
    global_layers = Dict.remove layer c.global_layers;
  }

  unfoldable pub set_time_range : Client F → String → ℕ → ℕ → Bool → Client F
  set_time_range c layer from to frozen = record c {
    time_from = Dict.put layer from c.time_from;
    time_to = Dict.put layer to c.time_to;
    time_frozen = Dict.put layer frozen c.time_frozen;
  }

  unfoldable pub is_in_time_range : Client F → String → Bool
  is_in_time_range c layer = Dict.has layer c.time_from

  unfoldable pub get_time_range : Client F → String → Option (ℕ × ℕ)
  get_time_range c layer = range_of (Dict.get layer c.time_from) (Dict.get layer c.time_to)

  unfoldable pub can_backfill : Client F → String → ℕ → ℕ → Client F × Bool
  can_backfill c layer wait now =
      let (table, ok) = cooldown c.last_backfill layer wait now in
      (record c { last_backfill = table }, ok)

  unfoldable pub can_time_range : Client F → String → ℕ → ℕ → Client F × Bool
  can_time_range c layer wait now =
      let (table, ok) = cooldown c.last_time_range layer wait now in
      (record c { last_time_range = table }, ok)

  unfoldable pub can_on_demand : Client F → String → ℕ → ℕ → Client F × Bool
  can_on_demand c layer wait now =
      let (table, ok) = cooldown c.last_on_demand layer wait now in
      (record c { last_on_demand = table }, ok)

  unfoldable pub get_subscriptions : Client F → List String
  get_subscriptions c = map (λ (p : String × Bool). p.0) c.subscriptions
