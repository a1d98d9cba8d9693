-- ===== src/Realtime/TimeRange/Bounds.antt =====
-- How `handleTimeRange` narrows the range that it is asked for.
use respondent_community.Common.{
  ℕ, ◌+◌, ◌-◌, ◌≤◌, ◌<◌, ◌≡◌, refl, String, Bool, true, Option, some, ltb, lt→ltb, arith,
}
use respondent_community.Domain.Registry.{HistoryConfig}
use respondent_community.Realtime.Client.{Client}
use respondent_community.Realtime.TimeRange.{
  TimeRangeConfig, RangeData, Query, limit_for, clamp_from, clamp_lookback, clamp_span,
  max_duration, accept_range, parsed_range,
}

-- The start of an accepted range only moves forward, stays within the look-back and the span, and
-- stays at or before the end, provided the end is itself within the look-back and the limits are
-- durations.
pub clamp_from_bounds :
    (lookback span now from to : ℕ)
    → from < to
    → now ≤ to + lookback
    → span < max_duration
    → (from ≤ clamp_from lookback span now from to)
      × (clamp_from lookback span now from to ≤ to)
      × (0 < lookback → now ≤ clamp_from lookback span now from to + lookback)
      × (0 < span → to ≤ clamp_from lookback span now from to + span)
unfolding clamp_from clamp_lookback clamp_span
clamp_from_bounds lookback span now from to order recent fits =
    (ground arith, ground arith, λ h. ground arith, λ h. ground arith)

clamp_from_inverted :
    (lookback span now from to : ℕ)
    → 0 < lookback
    → from < to
    → to + lookback < now
    → clamp_from lookback span now from to ≡ now - lookback
unfolding clamp_from clamp_lookback clamp_span
clamp_from_inverted lookback span now from to limited order old = ground arith

-- A range that ends before the look-back begins is not refused: it is queried from where the look-back
-- begins, which is after its end.
pub parsed_range_inverted :
    {F : Type 0} (cfg : TimeRangeConfig) (history : Option HistoryConfig) (now : ℕ) (c : Client F)
    (layer : String) (request : RangeData F) (global : Bool) (from to lookback : ℕ)
    → limit_for cfg.max_lookback (λ hc. hc.max_lookback_hours) history ≡ lookback
    → 0 < lookback
    → from < to
    → to + lookback < now
    → (q : Query F) × ((parsed_range cfg history now c layer request global (some from) (some to)).1
        ≡ some q)
      × (q.from ≡ now - lookback)
      × (q.to ≡ to)
      × (q.to < q.from)
unfolding parsed_range accept_range
parsed_range_inverted cfg history now c layer request global from to lookback same limited order
      old =
    let span = limit_for cfg.max_range_span (λ hc. hc.max_range_span_hours) history in
    let start = clamp_from_inverted lookback span now from to limited order old in
    let accepted : ltb from to ≡ true = lt→ltb from to order in
    (
      (accept_range cfg history now c layer request global from to).1,
      rw accepted refl,
      rw same start,
      refl,
      rw (same, start) (omega arith),
    )
