-- ===== src/Realtime/TimeRange/Effects.antt =====
-- What `handleTimeRange` does to the client's state, whether it makes a query or not.
use respondent_community.Common.{
  ℕ, ◌≡◌, refl, ◌∙◌, String, Bool, true, false, not, ◌&&◌, ◌||◌, Option, none, some, ltb,
  Bool-cases, inl, inr, if◌then◌else◌, string_eq, ◌==◌,
}
use respondent_community.Common.Dict.{dict_laws, beq_refl}
use respondent_community.Domain.Registry.{HistoryConfig}
use respondent_community.Realtime.Geometry.{BBox}
use respondent_community.Realtime.Client.{
  Client, get_time_range, is_frozen, is_subscribed, set_time_range, enable_subscription,
  set_viewport, can_time_range, set_global_mode,
}
use respondent_community.Realtime.TimeRange.{
  TimeRangeConfig, RangeData, Query, use_viewport, accept_range, cooldown_gate, parsed_range,
  handle_request, handle_time_range,
}

module _ {F : Type 0} where
  -- The client's state is that of the query.
  pub record Follows (c : Client F) (layer : String) (q : Query F) : Type 0 where
    pub range : get_time_range c layer ≡ some (q.from, q.to)
    pub frozen : is_frozen c layer ≡ q.frozen
    pub live : q.frozen ≡ false → is_subscribed c layer ≡ true

  set_time_range-Follows :
      (c : Client F) (layer : String) (q : Query F)
      → Follows
          (if q.frozen
            then set_time_range c layer q.from q.to q.frozen
            else enable_subscription (set_time_range c layer q.from q.to q.frozen) layer)
          layer
          q
  unfolding set_time_range enable_subscription get_time_range is_frozen is_subscribed
  set_time_range-Follows c layer q = elim (Bool-cases q.frozen) [
    | inl past ↦ rw past (record {
      range = simp (dict_laws, beq_refl);
      frozen = simp (dict_laws, beq_refl);
      live = λ h. cc;
    })
    | inr live ↦ rw live (record {
      range = simp (dict_laws, beq_refl);
      frozen = simp (dict_laws, beq_refl);
      live = λ h. simp (dict_laws, beq_refl);
    })
  ]

  -- No layer's subscription, range or frozen flag differs.
  pub record Unmoved (c c' : Client F) : Type 0 where
    pub subscriptions : c'.subscriptions ≡ c.subscriptions
    pub time_from : c'.time_from ≡ c.time_from
    pub time_to : c'.time_to ≡ c.time_to
    pub time_frozen : c'.time_frozen ≡ c.time_frozen

  -- What is to hold after a request: the state is the query's, or nothing moved.
  abbrev pub Outcome : Client F → String → Client F × Option (Query F) → Type 0
  Outcome c layer (c', none) = Unmoved c c'
  Outcome c layer (c', some q) = Follows c' layer q

  use_viewport-Follows :
      (c : Client F) (layer : String) (v : Option (BBox F)) (q : Query F)
      → Follows c layer q
      → Follows (use_viewport c layer v).0 layer q
  unfolding use_viewport set_viewport get_time_range is_frozen is_subscribed
  use_viewport-Follows c layer none q f = f
  use_viewport-Follows c layer (some b) q f = record {
    range = f.range;
    frozen = f.frozen;
    live = f.live;
  }

  accept_range-Follows :
      (cfg : TimeRangeConfig) (history : Option HistoryConfig) (now : ℕ) (c : Client F)
      (layer : String) (request : RangeData F) (global : Bool) (from to : ℕ)
      → let r = accept_range cfg history now c layer request global from to in Follows r.0 layer r.1
  unfolding accept_range
  accept_range-Follows cfg history now c layer request global from to =
      let q = (accept_range cfg history now c layer request global from to).1 in
      let f = set_time_range-Follows c layer q in use_viewport-Follows _ layer request.viewport q f

  Unmoved-refl : (c : Client F) → Unmoved c c
  Unmoved-refl c = record {
    subscriptions = refl;
    time_from = refl;
    time_to = refl;
    time_frozen = refl;
  }

  parsed_range-Outcome :
      (cfg : TimeRangeConfig) (history : Option HistoryConfig) (now : ℕ) (c : Client F)
      (layer : String) (request : RangeData F) (global : Bool) (from to : Option ℕ)
      → Outcome c layer (parsed_range cfg history now c layer request global from to)
  unfolding parsed_range
  parsed_range-Outcome cfg history now c layer request global none to = Unmoved-refl c
  parsed_range-Outcome cfg history now c layer request global (some from) none = Unmoved-refl c
  parsed_range-Outcome cfg history now c layer request global (some from) (some to) =
      elim (Bool-cases (ltb from to)) [
        | inl ordered ↦
            rw ordered (accept_range-Follows cfg history now c layer request global from to)
        | inr inverted ↦ rw inverted (Unmoved-refl c)
      ]

  Outcome-trans :
      (c c' : Client F) (layer : String) (r : Client F × Option (Query F))
      → Unmoved c c'
      → Outcome c' layer r
      → Outcome c layer r
  Outcome-trans c c' layer (d, none) u o = record {
    subscriptions = o.subscriptions ∙ u.subscriptions;
    time_from = o.time_from ∙ u.time_from;
    time_to = o.time_to ∙ u.time_to;
    time_frozen = o.time_frozen ∙ u.time_frozen;
  }
  Outcome-trans c c' layer (d, some q) u o = o

  set_global_mode-Unmoved :
      (c : Client F) (layer : String) (global : Bool) → Unmoved c (set_global_mode c layer global)
  unfolding set_global_mode
  set_global_mode-Unmoved c layer true = record {
    subscriptions = refl;
    time_from = refl;
    time_to = refl;
    time_frozen = refl;
  }
  set_global_mode-Unmoved c layer false = record {
    subscriptions = refl;
    time_from = refl;
    time_to = refl;
    time_frozen = refl;
  }

  cooldown_gate-Unmoved :
      (c : Client F) (layer : String) (global : Bool) (wait now : ℕ)
      → Unmoved c (cooldown_gate c layer global wait now).0
  unfolding cooldown_gate can_time_range
  cooldown_gate-Unmoved c layer global wait now = elim (Bool-cases (not global && ltb 0 wait)) [
    | inl waits ↦
        rw waits
          (record { subscriptions = refl; time_from = refl; time_to = refl; time_frozen = refl })
    | inr free ↦ rw free (Unmoved-refl c)
  ]

  handle_request-Outcome :
      (cfg : TimeRangeConfig) (history : Option HistoryConfig) (gate_now now : ℕ) (c : Client F)
      (layer : String) (request : RangeData F)
      → Outcome c layer (handle_request cfg history gate_now now c layer request)
  unfolding handle_request
  handle_request-Outcome cfg history gate_now now c layer request =
      let global = request.mode == "global" in
      let c₁ = set_global_mode c layer global in
      let gate = cooldown_gate c₁ layer global cfg.wait gate_now in
      Outcome-trans c c₁ layer _ (set_global_mode-Unmoved c layer global) (
        Outcome-trans c₁ gate.0 layer _ (cooldown_gate-Unmoved c₁ layer global cfg.wait gate_now)
          (elim (Bool-cases gate.1) [
            | inl ok ↦ rw ok (
                parsed_range-Outcome cfg history now gate.0 layer request global request.from
                  request.to)
            | inr early ↦ rw early (Unmoved-refl gate.0)
          ]))

  -- After a time_range message that makes a query the client's range, frozen flag and, for a live
  -- query, subscription for that layer are the query's; after one that makes none, whatever the
  -- reason, the subscriptions, ranges and frozen flags of all layers are as before.
  pub handle_time_range-Outcome :
      (cfg : TimeRangeConfig) (history : Option HistoryConfig) (gate_now now : ℕ) (c : Client F)
      (layer : String) (message : Option (RangeData F))
      → Outcome c layer (handle_time_range cfg history gate_now now c layer message)
  unfolding handle_time_range
  handle_time_range-Outcome cfg history gate_now now c layer none = Unmoved-refl c
  handle_time_range-Outcome cfg history gate_now now c layer (some request) =
      elim (Bool-cases (layer == "" || not cfg.enabled)) [
        | inl off ↦ rw off (Unmoved-refl c)
        | inr on ↦ rw on (handle_request-Outcome cfg history gate_now now c layer request)
      ]
