-- ===== src/Realtime/TimeRange.antt =====
-- internal/realtime/timerange.go: `handleTimeRange`, from the decoded message to the query that it
-- makes. Times are nanoseconds since the year 0, so a `from` before the year 0, which no message can
-- name, would read as 0; a duration that the code only tests by `> 0` is 0 where it is negative.
pub mod Bounds
pub mod Effects
use respondent_community.Common.{
  ℕ, ◌+◌, ◌-◌, ◌*◌, ◌%◌, ◌^◌, ◌≡◌, refl, String, Bool, true, false, not, ◌&&◌, ◌||◌, Option, none,
  some, List, if◌then◌else◌, ltb, leb, min, string_eq, ◌==◌, is_some,
}
use respondent_community.Common.Int.{ℤ, pos, negsuc, pos_part}
use respondent_community.Domain.Registry.{HistoryConfig}
use respondent_community.Realtime.Geometry.{BBox}
use respondent_community.Realtime.Client.{
  Client, set_global_mode, can_time_range, set_time_range, enable_subscription, set_viewport,
  get_viewport,
}

pub record TimeRangeConfig : Type 0 where
  pub enabled : Bool
  pub max_lookback : ℕ
  pub max_range_span : ℕ
  pub wait : ℕ

-- The decoded `data`; a `none` time is one that `time.Parse` refuses.
pub record RangeData (F : Type 0) : Type 0 where
  pub from : Option ℕ
  pub to : Option ℕ
  pub viewport : Option (BBox F)
  pub mode : String

-- `doTimeRangeQuery`'s arguments.
pub record Query (F : Type 0) : Type 0 where
  pub from : ℕ
  pub to : ℕ
  pub frozen : Bool
  pub viewport : Option (BBox F)

abbrev pub second : ℕ
second = 1_000_000_000

abbrev pub hour : ℕ
hour = 3600 * second

abbrev pub max_duration : ℕ
max_duration = 2 ^ 63 - 1

-- `time.Duration(h) * time.Hour` for a positive `h`: an int64 that wraps, read as 0 if negative.
unfoldable pub hours : ℕ → ℕ
hours h = let w = h * hour % 2 ^ 64 in if ltb w (2 ^ 63) then w else 0

-- A per-layer limit, if the layer has one, in place of the server's.
unfoldable pub limit_for : ℕ → (HistoryConfig → ℤ) → Option HistoryConfig → ℕ
limit_for default field none = default
limit_for default field (some hc) =
    if ltb 0 (pos_part (field hc)) then hours (pos_part (field hc)) else default

-- `a.Sub(b)`, which saturates; a negative difference reads as 0.
abbrev pub sub_time : ℕ → ℕ → ℕ
sub_time a b = min (a - b) max_duration

unfoldable pub clamp_lookback : ℕ → ℕ → ℕ → ℕ
clamp_lookback lookback now from =
    if ltb 0 lookback && ltb from (now - lookback) then now - lookback else from

unfoldable pub clamp_span : ℕ → ℕ → ℕ → ℕ
clamp_span span from to = if ltb 0 span && ltb span (sub_time to from) then to - span else from

unfoldable pub clamp_from : ℕ → ℕ → ℕ → ℕ → ℕ → ℕ
clamp_from lookback span now from to = clamp_span span (clamp_lookback lookback now from) to

unfoldable pub is_past : ℕ → ℕ → Bool
is_past now to = ltb (600 * second) (sub_time now to)

module _ {F : Type 0} where
  -- The message's viewport is stored; without one the stored viewport is used.
  unfoldable pub use_viewport : Client F → String → Option (BBox F) → Client F × Option (BBox F)
  use_viewport c layer none = (c, get_viewport c layer)
  use_viewport c layer (some b) = (set_viewport c layer b, some b)

  unfoldable pub accept_range :
      TimeRangeConfig
      → Option HistoryConfig
      → ℕ
      → Client F
      → String
      → RangeData F
      → Bool
      → ℕ
      → ℕ
      → Client F × Query F
  unfolding is_past clamp_from limit_for use_viewport
  accept_range cfg history now c layer request global from to =
      let lookback = limit_for cfg.max_lookback (λ hc. hc.max_lookback_hours) history in
      let span = limit_for cfg.max_range_span (λ hc. hc.max_range_span_hours) history in
      let from' = clamp_from lookback span now from to in
      let frozen = is_past now to in
      let c₁ = set_time_range c layer from' to frozen in
      let c₂ = if frozen then c₁ else enable_subscription c₁ layer in
      let (c₃, viewport) = use_viewport c₂ layer request.viewport in
      (
        c₃,
        record {
          from = from';
          to = to;
          frozen = frozen;
          viewport = if global then none else viewport;
        },
      )

  -- Only a request that is not global waits for the cooldown, and only if there is one.
  unfoldable pub cooldown_gate : Client F → String → Bool → ℕ → ℕ → Client F × Bool
  cooldown_gate c layer global wait now =
      if not global && ltb 0 wait then can_time_range c layer wait now else (c, true)

  -- The checks of the two times, and what follows them.
  unfoldable pub parsed_range :
      TimeRangeConfig
      → Option HistoryConfig
      → ℕ
      → Client F
      → String
      → RangeData F
      → Bool
      → Option ℕ
      → Option ℕ
      → Client F × Option (Query F)
  unfolding accept_range
  parsed_range cfg history now c layer request global none to = (c, none)
  parsed_range cfg history now c layer request global (some from) none = (c, none)
  parsed_range cfg history now c layer request global (some from) (some to) =
      let (c', query) = accept_range cfg history now c layer request global from to in
      if ltb from to then (c', some query) else (c, none)

  unfoldable pub handle_request :
      TimeRangeConfig
      → Option HistoryConfig
      → ℕ
      → ℕ
      → Client F
      → String
      → RangeData F
      → Client F × Option (Query F)
  unfolding cooldown_gate parsed_range
  handle_request cfg history gate_now now c layer request =
      let global = request.mode == "global" in
      let c₁ = set_global_mode c layer global in
      let (c₂, ok) = cooldown_gate c₁ layer global cfg.wait gate_now in
      if ok
      then parsed_range cfg history now c₂ layer request global request.from request.to
      else (c₂, none)

  -- The client afterwards and the query, if one is made. `data` is `none` where it does not decode;
  -- `gate_now` and `now` are the two readings of the clock.
  unfoldable pub handle_time_range :
      TimeRangeConfig
      → Option HistoryConfig
      → ℕ
      → ℕ
      → Client F
      → String
      → Option (RangeData F)
      → Client F × Option (Query F)
  unfolding handle_request
  handle_time_range cfg history gate_now now c layer none = (c, none)
  handle_time_range cfg history gate_now now c layer (some request) =
      if layer == "" || not cfg.enabled
      then (c, none)
      else handle_request cfg history gate_now now c layer request
