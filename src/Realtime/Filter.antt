-- ===== src/Realtime/Filter.antt =====
-- internal/realtime/notification_filter.go, with `AttentionRank` of internal/domain/ai.go.
use respondent_community.Common.{
  String, ◌≡◌, refl, ◌↔◌, ◌⊎◌, inl, inr, Bool, true, false, not, ◌&&◌, Option, none, some, List, [],
  ◌∷◌, arith, contains, if◌then◌else◌, string_eq, ◌==◌, eq_iff, Bool-cases,
}
use respondent_community.Common.Int.{ℤ, pos, negsuc, ltb_ℤ, ◌≤ℤ◌}
use respondent_community.Common.MultiMap.{is_nil}

unfoldable pub attention_rank : String → ℤ
attention_rank level =
    if level == "info"
    then pos 0
    else if level == "low"
    then pos 1
    else if level == "medium"
    then pos 2
    else if level == "high"
    then pos 3
    else if level == "critical"
    then pos 4
    else negsuc 0

pub record NotificationMeta : Type 0 where
  pub insight_type : String
  pub attention : String
  pub layer_type : String

-- The set `InsightTypes` is the list of its elements.
pub record NotificationFilter : Type 0 where
  pub min_attention : String
  pub insight_types : List String

abbrev pub attention_passes : NotificationFilter → NotificationMeta → Bool
attention_passes f meta =
    if not (f.min_attention == "") && not (meta.attention == "")
    then not (ltb_ℤ (attention_rank meta.attention) (attention_rank f.min_attention))
    else true

abbrev pub type_passes : NotificationFilter → NotificationMeta → Bool
type_passes f meta =
    if not (is_nil f.insight_types) then contains meta.insight_type f.insight_types else true

unfoldable pub matches_notification_filter : Option NotificationFilter → NotificationMeta → Bool
matches_notification_filter none meta = true
matches_notification_filter (some f) meta =
    if not (attention_passes f meta)
    then false
    else if not (type_passes f meta)
    then false
    else true

-- What the message's data decodes to: nothing, something that is no filter, or a filter.
pub data FilterData : Type 0 where
  absent malformed : FilterData
  decoded : String → List String → FilterData

-- `handleNotificationFilter`: the filter that the client has afterwards.
unfoldable pub handle_notification_filter :
    Option NotificationFilter → FilterData → Option NotificationFilter
handle_notification_filter current absent = none
handle_notification_filter current malformed = current
handle_notification_filter current (decoded level types) =
    some (record { min_attention = level; insight_types = types })

abbrev pub AtLeast : String → String → Type 0
AtLeast low high = attention_rank low ≤ℤ attention_rank high

attention_passes_sound :
    (f : NotificationFilter) (meta : NotificationMeta)
    → attention_passes f meta ≡ true
    → (f.min_attention ≡ "") ⊎ (meta.attention ≡ "") ⊎ AtLeast f.min_attention meta.attention
attention_passes_sound f meta h = elim (Bool-cases (f.min_attention == "")) [
  | inl e ↦ inl ((eq_iff f.min_attention "").0 e)
  | inr n ↦ elim (Bool-cases (meta.attention == "")) [
    | inl e ↦ inr (inl ((eq_iff meta.attention "").0 e))
    | inr m ↦ inr (inr (ground arith))
  ]
]

attention_passes_complete :
    (f : NotificationFilter) (meta : NotificationMeta)
    → (f.min_attention ≡ "") ⊎ (meta.attention ≡ "") ⊎ AtLeast f.min_attention meta.attention
    → attention_passes f meta ≡ true
attention_passes_complete f meta (inl e) = ground (arith, eq_iff f.min_attention "")
attention_passes_complete f meta (inr (inl e)) = ground (arith, eq_iff meta.attention "")
attention_passes_complete f meta (inr (inr h)) = ground arith

type_passes_sound :
    (types : List String) (t : String)
    → (if not (is_nil types) then contains t types else true) ≡ true
    → (types ≡ []) ⊎ (contains t types ≡ true)
type_passes_sound [] t h = inl refl
type_passes_sound (x ∷ types) t h = inr h

type_passes_complete :
    (types : List String) (t : String)
    → (types ≡ []) ⊎ (contains t types ≡ true)
    → (if not (is_nil types) then contains t types else true) ≡ true
type_passes_complete [] t h = refl
type_passes_complete (x ∷ types) t (inl e) = cc
type_passes_complete (x ∷ types) t (inr h) = h

both_pass :
    (a b : Bool)
    → ((if not a then false else if not b then false else true) ≡ true) ↔ ((a ≡ true) × (b ≡ true))
both_pass a b = (λ h. (ground arith, ground arith), λ h. ground arith)

-- A client with a filter is sent a notification exactly when the filter names no minimum, or the
-- notification no level, or its level ranks at least as high, and the filter names no types or the
-- notification's own.
pub matches_notification_filter_iff :
    (f : NotificationFilter) (meta : NotificationMeta)
    → (matches_notification_filter (some f) meta ≡ true) ↔ (
        ((f.min_attention ≡ "") ⊎ (meta.attention ≡ "") ⊎ AtLeast f.min_attention meta.attention)
        × ((f.insight_types ≡ []) ⊎ (contains meta.insight_type f.insight_types ≡ true)))
unfolding matches_notification_filter
matches_notification_filter_iff f meta =
    let both = both_pass (attention_passes f meta) (type_passes f meta) in
    (
      λ h. (
        attention_passes_sound f meta (both.0 h).0,
        type_passes_sound f.insight_types meta.insight_type (both.0 h).1,
      ),
      λ h. both.1 (
        attention_passes_complete f meta h.0,
        type_passes_complete f.insight_types meta.insight_type h.1,
      ),
    )
