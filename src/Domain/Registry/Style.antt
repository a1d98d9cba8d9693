-- ===== src/Domain/Registry/Style.antt =====
-- `GetLayerStyle` of internal/domain/dynamic_registry.go, over `DefaultLayerStyle` of
-- internal/domain/source.go.
use respondent_community.Common.{
  String, ◌≢◌, none, some, arith, if◌then◌else◌, string_eq, ◌==◌, eq_iff, Option-cases, inl, inr,
}
use respondent_community.Common.Dict
use respondent_community.Common.Int.{pos, ltb_ℤ, ◌≤ℤ◌}
use respondent_community.Domain.Registry.{Registry, StyleConfig}

abbrev pub default_layer_style : StyleConfig
default_layer_style = record { color = "#ffffff"; point_size = pos 8 }

-- The declared colour and size, where they are set, over the default.
unfoldable pub styled : StyleConfig → StyleConfig
styled declared = record {
  color = if declared.color == "" then default_layer_style.color else declared.color;
  point_size =
      if ltb_ℤ (pos 0) declared.point_size
      then declared.point_size
      else default_layer_style.point_size;
}

module _ {Rest Spec Geo : Type 0} where
  unfoldable pub get_layer_style : Registry Rest Spec Geo → String → StyleConfig
  unfolding styled
  get_layer_style r lt = elim (Dict.get lt r.display_configs) [
    | none ↦ default_layer_style
    | some dc ↦ elim dc.style [ none ↦ default_layer_style | some declared ↦ styled declared ]
  ]

abbrev pub IsDrawable : StyleConfig → Type 0
IsDrawable style = (style.color ≢ "") × (pos 1 ≤ℤ style.point_size)

color_not_empty : default_layer_style.color ≢ ""
color_not_empty = ground (arith, eq_iff default_layer_style.color "")

styled-IsDrawable : (declared : StyleConfig) → IsDrawable (styled declared)
unfolding styled
styled-IsDrawable declared =
    (ground (arith, eq_iff declared.color "", color_not_empty), ground arith)

default-IsDrawable : IsDrawable default_layer_style
default-IsDrawable = (color_not_empty, omega arith)

-- Whatever a layer's sources declare, nothing included, its style has a colour and a positive size.
pub get_layer_style-IsDrawable :
    {Rest Spec Geo : Type 0} (r : Registry Rest Spec Geo) (lt : String)
    → IsDrawable (get_layer_style r lt)
unfolding get_layer_style
get_layer_style-IsDrawable r lt = elim (Option-cases (Dict.get lt r.display_configs)) [
  | inl e ↦ rw (e, get_layer_style) default-IsDrawable
  | inr (dc, e) ↦ elim (Option-cases dc.style) [
    | inl f ↦ rw (e, get_layer_style, f) default-IsDrawable
    | inr (declared, f) ↦ rw (e, get_layer_style, f) (styled-IsDrawable declared)
  ]
]
