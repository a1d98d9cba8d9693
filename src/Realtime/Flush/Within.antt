-- ===== src/Realtime/Flush/Within.antt =====
-- Which updates `flushBatchedUpdates` keeps for a client.
use respondent_community.Common.{
  ℕ, ◌≤◌, ◌≡◌, ◌↔◌, refl, String, Bool, true, false, not, ◌&&◌, ◌||◌, Option, none, some, ltb,
  arith, and_true,
}
use respondent_community.Realtime.Geometry.{Floats, BBox, bbox_contains}
use respondent_community.Realtime.Client.{Client, is_global_mode, get_viewport, get_time_range}
use respondent_community.Realtime.Flush.{Update, in_range, in_view, wanted}

both : {a b : Bool} → a ≡ true → b ≡ true → (a && b) ≡ true
both h k = rw (h, k) refl

module _ (fl : Floats) where
  open fl use {F}

  in_range_iff :
      (range : Option (ℕ × ℕ)) (time : Option ℕ)
      → (in_range range time ≡ true)
        ↔ ((from to t : ℕ) → range ≡ some (from, to) → time ≡ some t → (from ≤ t) × (t ≤ to))
  unfolding in_range
  in_range_iff none time = (λ _ from to t e. cc, λ _. refl)
  in_range_iff (some range) none = (λ _ from to t e k. cc, λ _. refl)
  in_range_iff (some (from, to)) (some t) = (
    λ h f u v e k.
        let left : from ≡ f = cc in
        let right : to ≡ u = cc in
        let now : t ≡ v = cc in
        let early : not (ltb t from || ltb to t) ≡ true = ground (arith, h) in
        (ground (arith, left, now, early), ground (arith, right, now, early)),
    λ w. let (a, b) = w from to t refl refl in ground (arith, a, b),
  )

  in_view_iff :
      (spatial global : Bool) (view : Option (BBox F)) (position : Option (F × F))
      → (in_view fl spatial global view position ≡ true) ↔ (
          (b : BBox F) (lat lon : F)
          → spatial ≡ true
          → global ≡ false
          → view ≡ some b
          → position ≡ some (lat, lon)
          → bbox_contains fl b lat lon ≡ true)
  unfolding in_view
  in_view_iff spatial global none position = (λ _ b lat lon h k e. cc, λ _. refl)
  in_view_iff spatial global (some v) none = (λ _ b lat lon h k e p. cc, λ _. refl)
  in_view_iff true false (some v) (some (x, y)) =
      (λ h b lat lon s g e p. cc, λ w. w v x y refl refl refl refl)
  in_view_iff true true (some v) (some (x, y)) = (λ h b lat lon s g e p. cc, λ w. refl)
  in_view_iff false global (some v) (some (x, y)) = (λ h b lat lon s g e p. cc, λ w. refl)

module _ (fl : Floats) {D : Type 0} where
  open fl use {F}

  -- Within the client's time range and, on a spatial layer that is not in global mode, within its
  -- viewport; an update without a time or a position is within any.
  pub record IsWithin (c : Client F) (layer : String) (spatial : Bool) (u : Update F D)
      : Type 0 where
    pub in_time :
        (from to t : ℕ)
        → get_time_range c layer ≡ some (from, to)
        → u.event_time ≡ some t
        → (from ≤ t) × (t ≤ to)
    pub in_box :
        (b : BBox F) (lat lon : F)
        → spatial ≡ true
        → is_global_mode c layer ≡ false
        → get_viewport c layer ≡ some b
        → u.position ≡ some (lat, lon)
        → bbox_contains fl b lat lon ≡ true

  pub wanted_iff :
      (c : Client F) (layer : String) (spatial : Bool) (u : Update F D)
      → (wanted fl c layer spatial u ≡ true) ↔ IsWithin c layer spatial u
  unfolding wanted
  wanted_iff c layer spatial u =
      let r = in_range_iff fl (get_time_range c layer) u.event_time in
      let v = in_view_iff fl spatial (is_global_mode c layer) (get_viewport c layer) u.position in
      (
        λ h. let (a, b) = and_true _ _ h in record { in_time = r.0 a; in_box = v.0 b },
        λ w. both (r.1 w.in_time) (v.1 w.in_box),
      )
