-- ===== src/Realtime/Client/Modes.antt =====
-- The client's tables against a specification that keeps one small state for each layer.
use respondent_community.Common.{
  ℕ, ◌≡◌, refl, String, Bool, true, false, Option, none, some, List, [], ◌∷◌, arith, if◌then◌else◌,
  string_eq, ◌==◌,
}
use respondent_community.Common.Dict
use respondent_community.Common.Dict.{Dict, get-put, get-remove, get-empty, dict_laws}
use respondent_community.Realtime.Geometry.{BBox}
use respondent_community.Realtime.Client.{
  Client, new_client, subscribe, enable_subscription, unsubscribe, set_time_range, set_viewport,
  set_global_mode, is_subscribed, is_frozen, is_global_mode, is_in_time_range, get_time_range,
  get_viewport, or_false,
}

pub data Change (F : Type 0) : Type 0 where
  subscribed enabled unsubscribed : String → Change F
  ranged : String → ℕ → ℕ → Bool → Change F
  viewed : String → BBox F → Change F
  globalized : String → Bool → Change F

pub record TimeRange : Type 0 where
  pub from : ℕ
  pub to : ℕ
  pub frozen : Bool

-- What the client is doing with one layer.
pub record LayerMode (F : Type 0) : Type 0 where
  pub active : Bool
  pub range : Option TimeRange
  pub viewport : Option (BBox F)
  pub global : Bool

abbrev pub is_some_range : Option TimeRange → Bool
is_some_range none = false
is_some_range (some r) = true

abbrev pub frozen_range : Option TimeRange → Bool
frozen_range none = false
frozen_range (some r) = r.frozen

abbrev pub bounds : Option TimeRange → Option (ℕ × ℕ)
bounds none = none
bounds (some r) = some (r.from, r.to)

abbrev from_part : Option TimeRange → Option ℕ
from_part none = none
from_part (some r) = some r.from

abbrev to_part : Option TimeRange → Option ℕ
to_part none = none
to_part (some r) = some r.to

abbrev frozen_part : Option TimeRange → Option Bool
frozen_part none = none
frozen_part (some r) = some r.frozen

module _ {F : Type 0} where
  unfoldable pub apply : Client F → Change F → Client F
  apply c (subscribed l) = subscribe c l
  apply c (enabled l) = enable_subscription c l
  apply c (unsubscribed l) = unsubscribe c l
  apply c (ranged l from to frozen) = set_time_range c l from to frozen
  apply c (viewed l b) = set_viewport c l b
  apply c (globalized l g) = set_global_mode c l g

  unfoldable pub apply_all : Client F → List (Change F) → Client F
  apply_all c [] = c
  apply_all c (x ∷ xs) = apply_all (apply c x) xs

  abbrev pub off : LayerMode F
  off = record { active = false; range = none; viewport = none; global = false }

  -- The specification of one change, for the layer that it names.
  unfoldable pub change_mode : LayerMode F → Change F → LayerMode F
  change_mode m (subscribed l) = record m { active = true; range = none }
  change_mode m (enabled l) = record m { active = true }
  change_mode m (unsubscribed l) = record m { active = false; range = none; global = false }
  change_mode m (ranged l from to frozen) = record m {
    range = some (record { from = from; to = to; frozen = frozen });
  }
  change_mode m (viewed l b) = record m { viewport = some b }
  change_mode m (globalized l g) = record m { global = g }

  abbrev pub layer_of : Change F → String
  layer_of (subscribed l) = l
  layer_of (enabled l) = l
  layer_of (unsubscribed l) = l
  layer_of (ranged l from to frozen) = l
  layer_of (viewed l b) = l
  layer_of (globalized l g) = l

  unfoldable pub mode_after : String → LayerMode F → List (Change F) → LayerMode F
  mode_after layer m [] = m
  mode_after layer m (x ∷ xs) =
      mode_after layer (if layer_of x == layer then change_mode m x else m) xs

  -- The client's tables hold the mode of a layer.
  record Tables (c : Client F) (layer : String) (m : LayerMode F) : Type 0 where
    active : or_false (Dict.get layer c.subscriptions) ≡ m.active
    from : Dict.get layer c.time_from ≡ from_part m.range
    to : Dict.get layer c.time_to ≡ to_part m.range
    frozen : Dict.get layer c.time_frozen ≡ frozen_part m.range
    viewport : Dict.get layer c.viewports ≡ m.viewport
    global : or_false (Dict.get layer c.global_layers) ≡ m.global

  -- What the server reads of a layer is what the mode says.
  pub record Shows (c : Client F) (layer : String) (m : LayerMode F) : Type 0 where
    pub active : is_subscribed c layer ≡ m.active
    pub in_range : is_in_time_range c layer ≡ is_some_range m.range
    pub range : get_time_range c layer ≡ bounds m.range
    pub frozen : is_frozen c layer ≡ frozen_range m.range
    pub viewport : get_viewport c layer ≡ m.viewport
    pub global : is_global_mode c layer ≡ m.global

  Tables-Shows :
      (c : Client F) (layer : String) (m : LayerMode F) → Tables c layer m → Shows c layer m
  unfolding is_subscribed is_frozen is_global_mode is_in_time_range get_time_range get_viewport
  Tables-Shows c layer m t = record {
    active = t.active;
    in_range = rw t.from (ground arith);
    range = rw (t.from, t.to) (ground arith);
    frozen = rw t.frozen (ground arith);
    viewport = t.viewport;
    global = t.global;
  }

  apply-Tables :
      (c : Client F) (layer : String) (m : LayerMode F) (x : Change F)
      → Tables c layer m
      → Tables (apply c x) layer (if layer_of x == layer then change_mode m x else m)
  unfolding apply change_mode subscribe enable_subscription unsubscribe set_time_range set_viewport
      set_global_mode
  apply-Tables c layer m (subscribed l) t = record {
    active = simp dict_laws (ground arith);
    from = simp dict_laws (ground arith);
    to = simp dict_laws (ground arith);
    frozen = simp dict_laws (ground arith);
    viewport = ground arith;
    global = ground arith;
  }
  apply-Tables c layer m (enabled l) t = record {
    active = simp dict_laws (ground arith);
    from = ground arith;
    to = ground arith;
    frozen = ground arith;
    viewport = ground arith;
    global = ground arith;
  }
  apply-Tables c layer m (unsubscribed l) t = record {
    active = simp dict_laws (ground arith);
    from = simp dict_laws (ground arith);
    to = simp dict_laws (ground arith);
    frozen = simp dict_laws (ground arith);
    viewport = ground arith;
    global = simp dict_laws (ground arith);
  }
  apply-Tables c layer m (ranged l a b z) t = record {
    active = ground arith;
    from = simp dict_laws (ground arith);
    to = simp dict_laws (ground arith);
    frozen = simp dict_laws (ground arith);
    viewport = ground arith;
    global = ground arith;
  }
  apply-Tables c layer m (viewed l b) t = record {
    active = ground arith;
    from = ground arith;
    to = ground arith;
    frozen = ground arith;
    viewport = simp dict_laws (ground arith);
    global = ground arith;
  }
  apply-Tables c layer m (globalized l true) t = record {
    active = ground arith;
    from = ground arith;
    to = ground arith;
    frozen = ground arith;
    viewport = ground arith;
    global = simp dict_laws (ground arith);
  }
  apply-Tables c layer m (globalized l false) t = record {
    active = ground arith;
    from = ground arith;
    to = ground arith;
    frozen = ground arith;
    viewport = ground arith;
    global = simp dict_laws (ground arith);
  }

  apply_all-Tables :
      (c : Client F) (layer : String) (m : LayerMode F) (xs : List (Change F))
      → Tables c layer m
      → Tables (apply_all c xs) layer (mode_after layer m xs)
  unfolding apply_all mode_after
  apply_all-Tables c layer m [] t = t
  apply_all-Tables c layer m (x ∷ xs) t =
      apply_all-Tables (apply c x) layer (if layer_of x == layer then change_mode m x else m) xs
        (apply-Tables c layer m x t)

  new_client-Tables : (layer : String) → Tables new_client layer off
  unfolding new_client Dict.get
  new_client-Tables layer = record {
    active = refl;
    from = refl;
    to = refl;
    frozen = refl;
    viewport = refl;
    global = refl;
  }

  -- After any sequence of changes to any layers, what the server reads of one layer is what the
  -- specification says of the changes that name that layer alone: a subscription ends a time range,
  -- a removal ends all but the viewport, and a layer is frozen only while it has a time range that
  -- is.
  pub apply_all-Shows :
      (layer : String) (xs : List (Change F))
      → Shows (apply_all new_client xs) layer (mode_after layer off xs)
  apply_all-Shows layer xs =
      Tables-Shows (apply_all new_client xs) layer (mode_after layer off xs)
        (apply_all-Tables new_client layer off xs (new_client-Tables layer))
