-- ===== src/Realtime/Geometry.antt =====
-- `BBox` of internal/domain/bbox.go and `viewportEntityLimit` of internal/realtime/subscribe.go, over
-- an interface for float64: its comparisons and its operations, none of them assumed to have a law.
use respondent_community.Common.{
  ℕ, ◌≤◌, ◌/◌, min, Bool-cases, inl, inr, Bool, false, ◌&&◌, ◌||◌, Option, none, some, arith, ltb,
  if◌then◌else◌,
}

pub record Floats : Type 1 where
  pub F : Type 0
  -- `<` and `<=`
  pub ltf : F → F → Bool
  pub lef : F → F → Bool
  pub addf : F → F → F
  pub subf : F → F → F
  pub mulf : F → F → F
  pub divf : F → F → F
  -- the value of a decimal numeral
  pub lit : ℕ → F
  -- `int(x)`, with 0 for a negative result
  pub trunc : F → ℕ

pub record BBox (F : Type 0) : Type 0 where
  pub west : F
  pub south : F
  pub east : F
  pub north : F

module _ (fl : Floats) where
  open fl use {F, ltf, lef, addf, subf, mulf, divf, lit, trunc}

  -- `Contains`
  unfoldable pub bbox_contains : BBox F → F → F → Bool
  bbox_contains b lat lon =
      if ltf lat b.south || ltf b.north lat
      then false
      else if lef b.west b.east
      then lef b.west lon && lef lon b.east
      else lef b.west lon || lef lon b.east

  -- the test of `handleViewportUpdate` that rejects a malformed box; `minus` gives the literals
  -- -90 and -180
  unfoldable pub invalid_viewport : BBox F → Bool
  invalid_viewport b =
      let minus = λ (n : ℕ). subf (lit 0) (lit n) in
      ltf b.south (minus 90)
      || ltf (lit 90) b.north
      || ltf b.north b.south
      || ltf b.west (minus 180)
      || ltf (lit 180) b.east

  abbrev pub viewport_area : BBox F → F
  viewport_area b =
      let lat_span = subf b.north b.south in
      let lon_span = subf b.east b.west in
      mulf lat_span (if ltf lon_span (lit 0) then addf lon_span (lit 360) else lon_span)

  abbrev pub at_least_500 : ℕ → ℕ
  at_least_500 limit = if ltb limit 500 then 500 else limit

  unfoldable pub viewport_entity_limit : Option (BBox F) → ℕ → ℕ
  viewport_entity_limit none base = base
  viewport_entity_limit (some b) base =
      let area = viewport_area b in
      let scale =
        subf (lit 1) (divf (mulf (divf (lit 8) (lit 10)) (subf area (lit 500))) (lit 9500)) in
      if lef area (lit 500)
      then base
      else if lef area (lit 10000)
      then at_least_500 (trunc (mulf (lit base) scale))
      else at_least_500 (base / 5)

  -- Whatever the viewport, the limit is at least the smaller of the base limit and 500.
  pub viewport_entity_limit_least :
      (v : Option (BBox F)) (base : ℕ) → min base 500 ≤ viewport_entity_limit v base
  unfolding viewport_entity_limit
  viewport_entity_limit_least none base = omega arith
  viewport_entity_limit_least (some b) base = elim (Bool-cases (lef (viewport_area b) (lit 500))) [
    | inl small ↦ rw small (omega arith)
    | inr large ↦ elim (Bool-cases (lef (viewport_area b) (lit 10000))) [
      | inl middle ↦ rw (large, middle) (ground arith)
      | inr huge ↦ rw (large, huge) (ground arith)
    ]
  ]
