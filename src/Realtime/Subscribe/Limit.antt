-- ===== src/Realtime/Subscribe/Limit.antt =====
-- The number of a client's subscriptions.
use respondent_community.Common.{
  ℕ, suc, ◌≤◌, ◌≡◌, refl, ap, ◌∙◌, String, Bool, true, false, Option, none, some, List, [], ◌∷◌,
  length, string_eq, ◌==◌, arith,
}
use respondent_community.Common.Dict
use respondent_community.Common.Dict.{length-put, length-remove-le, dict_laws, beq_refl, get-put}
use respondent_community.Realtime.Geometry.{Floats, BBox}
use respondent_community.Realtime.Client.{
  Client, subscribe, unsubscribe, set_viewport, set_global_mode, enable_subscription,
  set_time_range,
}
use respondent_community.Domain.Registry.{HistoryConfig}
use respondent_community.Realtime.TimeRange.{TimeRangeConfig, RangeData, use_viewport, accept_range}
use respondent_community.Realtime.Subscribe.{
  SubData, store_viewport, accept_subscription, handle_subscribe, handle_unsubscribe,
  accept_viewport, handle_viewport_update, max_subscriptions,
}

pub data Request (F : Type 0) : Type 0 where
  subscribed : String → Option (SubData F) → Request F
  unsubscribed : String → Request F
  moved : String → Option (BBox F) → Request F

module _ {F : Type 0} where
  set_global_mode_subscriptions :
      (c : Client F) (layer : String) (g : Bool)
      → (set_global_mode c layer g).subscriptions ≡ c.subscriptions
  unfolding set_global_mode
  set_global_mode_subscriptions c layer true = refl
  set_global_mode_subscriptions c layer false = refl

  store_viewport_subscriptions :
      (c : Client F) (layer : String) (v : Option (BBox F))
      → (store_viewport c layer v).subscriptions ≡ c.subscriptions
  unfolding store_viewport set_viewport
  store_viewport_subscriptions c layer none = refl
  store_viewport_subscriptions c layer (some b) = refl

  accept_subscription_subscriptions :
      (c : Client F) (layer : String) (d : Option (SubData F))
      → (accept_subscription c layer d).subscriptions ≡ Dict.put layer true c.subscriptions
  unfolding accept_subscription subscribe
  accept_subscription_subscriptions c layer none =
      set_global_mode_subscriptions (subscribe c layer) layer false
  accept_subscription_subscriptions c layer (some d) =
      let c₁ = subscribe c layer in
      set_global_mode_subscriptions (store_viewport c₁ layer d.viewport) layer (d.mode == "global")
      ∙ store_viewport_subscriptions c₁ layer d.viewport

  abbrev pub IsBounded : Client F → Type 0
  IsBounded c = length c.subscriptions ≤ max_subscriptions

  handle_subscribe-IsBounded :
      (c : Client F) (layer : String) (d : Option (SubData F))
      → IsBounded c
      → IsBounded (handle_subscribe c layer d)
  unfolding handle_subscribe
  handle_subscribe-IsBounded c layer d h = ground (
    arith,
    h,
    ap length (accept_subscription_subscriptions c layer d),
    length-put layer true c.subscriptions,
  )

  handle_unsubscribe-IsBounded :
      (c : Client F) (layer : String) → IsBounded c → IsBounded (handle_unsubscribe c layer)
  unfolding handle_unsubscribe unsubscribe
  handle_unsubscribe-IsBounded c layer h = ground (arith, h, length-remove-le layer c.subscriptions)

module _ (fl : Floats) where
  open fl use {F}

  accept_viewport-IsBounded :
      (c : Client F) (layer : String) (v : Option (BBox F))
      → IsBounded c
      → IsBounded (accept_viewport fl c layer v)
  unfolding accept_viewport set_viewport
  accept_viewport-IsBounded c layer none h = h
  accept_viewport-IsBounded c layer (some b) h = ground (arith, h)

  unfoldable pub handle : Request F → Client F → Client F
  unfolding handle_subscribe handle_unsubscribe handle_viewport_update
  handle (subscribed layer d) c = handle_subscribe c layer d
  handle (unsubscribed layer) c = handle_unsubscribe c layer
  handle (moved layer v) c = handle_viewport_update fl c layer v

  handle-IsBounded : (r : Request F) (c : Client F) → IsBounded c → IsBounded (handle r c)
  unfolding handle handle_viewport_update
  handle-IsBounded (subscribed layer d) c h = handle_subscribe-IsBounded c layer d h
  handle-IsBounded (unsubscribed layer) c h = handle_unsubscribe-IsBounded c layer h
  handle-IsBounded (moved layer v) c h = ground (arith, h, accept_viewport-IsBounded c layer v h)

  unfoldable pub handle_all : List (Request F) → Client F → Client F
  unfolding handle
  handle_all [] c = c
  handle_all (r ∷ rs) c = handle_all rs (handle r c)

  -- No sequence of subscribe, unsubscribe and viewport_update messages takes a client with at most
  -- 100 subscriptions above 100.
  pub handle_all-IsBounded :
      (rs : List (Request F)) (c : Client F) → IsBounded c → IsBounded (handle_all rs c)
  unfolding handle_all
  handle_all-IsBounded [] c h = h
  handle_all-IsBounded (r ∷ rs) c h = handle_all-IsBounded rs (handle r c) (handle-IsBounded r c h)

module _ {F : Type 0} where
  use_viewport_subscriptions :
      (c : Client F) (layer : String) (v : Option (BBox F))
      → (use_viewport c layer v).0.subscriptions ≡ c.subscriptions
  unfolding use_viewport set_viewport
  use_viewport_subscriptions c layer none = refl
  use_viewport_subscriptions c layer (some b) = refl

  -- The subscription that a live time_range request makes is not bounded: a client without the layer
  -- has one subscription more afterwards, however many there were.
  pub accept_range_unbounded :
      (cfg : TimeRangeConfig) (history : Option HistoryConfig) (now : ℕ) (c : Client F)
      (layer : String) (request : RangeData F) (global : Bool) (from to : ℕ)
      → Dict.has layer c.subscriptions ≡ false
      → (let r = accept_range cfg history now c layer request global from to in
          r.1.frozen ≡ false → length r.0.subscriptions ≡ suc (length c.subscriptions))
  unfolding accept_range enable_subscription set_time_range
  accept_range_unbounded cfg history now c layer request global from to new live =
      ap length (use_viewport_subscriptions _ layer request.viewport)
      ∙ rw live (ground (arith, length-put layer true c.subscriptions, new))
