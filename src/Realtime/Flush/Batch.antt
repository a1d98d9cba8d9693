-- ===== src/Realtime/Flush/Batch.antt =====
-- The loop of `flushBatchedUpdates` gives each client the updates that it wants, up to its limit.
use respondent_community.Common.{
  ℕ, zero, suc, ◌+◌, ◌<◌, ◌≡◌, refl, ap, String, Bool, true, false, not, ◌&&◌, List, [], ◌∷◌, ◌++◌,
  map, if◌then◌else◌, leb, length, take, select, arith, Bool-cases, inl, inr, string_eq, ◌==◌, ◌↔◌,
}
use respondent_community.Common.Dict.{Dict}
use respondent_community.Common.MultiMap
use respondent_community.Common.MultiMap.{values-put}
use respondent_community.Realtime.Geometry.{
  Floats, viewport_entity_limit_least, viewport_entity_limit,
}
use respondent_community.Realtime.Client.{
  Client, is_subscribed, is_frozen, is_global_mode, get_viewport,
}
use respondent_community.Realtime.Flush.{
  Update, queue_update, wanted, max_batch, fill, client_batch,
}
use respondent_community.Realtime.Flush.Within.{IsWithin, wanted_iff}

module _ {F D : Type 0} where
  -- A queued update comes last among the updates of its layer, and no other layer changes.
  pub values-queue_update :
      (layer j : String) (u : Update F D) (pending : Dict String (List (Update F D)))
      → MultiMap.values j (queue_update layer u pending) ≡ (
          if layer == j then MultiMap.values layer pending ++ u ∷ [] else MultiMap.values j pending)
  unfolding queue_update
  values-queue_update layer j u pending =
      values-put layer j (MultiMap.values layer pending ++ u ∷ []) pending

  fill-take :
      (keep : Update F D → Bool) (limit got left : ℕ) (us : List (Update F D))
      → limit ≡ got + suc left
      → fill keep limit got us
        ≡ map (λ (u : Update F D). u.payload) (take (suc left) (select keep us))
  unfolding fill
  fill-take keep limit got left [] e = refl
  fill-take keep limit got zero (u ∷ us) e =
      let full : leb limit (suc got) ≡ true = ground (arith, e) in
      elim (Bool-cases (keep u)) [
        | inl kept ↦ rw (kept, full)
        | inr dropped ↦ rw dropped (fill-take keep limit got zero us e)
      ]
  fill-take keep limit got (suc left) (u ∷ us) e =
      let room : leb limit (suc got) ≡ false = ground (arith, e) in
      elim (Bool-cases (keep u)) [
        | inl kept ↦
            rw (kept, room)
              (ap (λ l. u.payload ∷ l) (fill-take keep limit (suc got) left us (omega (arith, e))))
        | inr dropped ↦ rw dropped (fill-take keep limit got (suc left) us e)
      ]

module _ (fl : Floats) where
  open fl use {F, lef, lit}

  max_batch_pos :
      (c : Client F) (layer : String) (spatial : Bool) (n : ℕ)
      → 0 < n
      → 0 < max_batch fl c layer spatial n
  unfolding max_batch
  max_batch_pos c layer spatial n h = elim (Bool-cases (spatial && not (is_global_mode c layer))) [
    | inl bounded ↦
        rw bounded (omega (arith, h, viewport_entity_limit_least fl (get_viewport c layer) n))
    | inr free ↦ rw free h
  ]

module _ (fl : Floats) {D : Type 0} where
  open fl use {F}

  fill_limit :
      (keep : Update F D → Bool) (limit : ℕ) (us : List (Update F D))
      → 0 < limit
      → fill keep limit 0 us ≡ map (λ (u : Update F D). u.payload) (take limit (select keep us))
  fill_limit keep zero us h = absurd (omega arith)
  fill_limit keep (suc n) us h = fill-take keep (suc n) 0 n us (omega arith)

  sent_batch :
      (c : Client F) (layer : String) (spatial : Bool) (us : List (Update F D))
      → 0 < length us
      → client_batch fl c layer spatial us ≡ (
          if is_subscribed c layer && not (is_frozen c layer)
          then map
              (λ (u : Update F D). u.payload)
              (take
                (if spatial && not (is_global_mode c layer)
                  then viewport_entity_limit fl (get_viewport c layer) (length us)
                  else length us)
                (select (wanted fl c layer spatial) us))
          else [])
  unfolding client_batch max_batch
  sent_batch c layer spatial us h = elim (Bool-cases (is_subscribed c layer)) [
    | inl sub ↦ elim (Bool-cases (is_frozen c layer)) [
      | inl frozen ↦ rw (sub, frozen)
      | inr live ↦
          rw (sub, live)
            (fill_limit (wanted fl c layer spatial) (max_batch fl c layer spatial (length us)) us
              (max_batch_pos fl c layer spatial (length us) h))
    ]
    | inr unsub ↦ rw unsub
  ]

  -- What a client is sent of the updates queued for a layer.
  pub record Batched (c : Client F) (layer : String) (spatial : Bool) (us : List (Update F D))
      : Type 0 where
    pub wants :
        (u : Update F D) → (wanted fl c layer spatial u ≡ true) ↔ IsWithin fl c layer spatial u
    pub batch : client_batch fl c layer spatial us ≡ (
        if is_subscribed c layer && not (is_frozen c layer)
        then map
            (λ (u : Update F D). u.payload)
            (take
              (if spatial && not (is_global_mode c layer)
                then viewport_entity_limit fl (get_viewport c layer) (length us)
                else length us)
              (select (wanted fl c layer spatial) us))
        else [])

  -- Of the updates queued for a layer, a client that is subscribed to it and is not frozen in the past
  -- is sent those within its time range and, on a spatial layer outside global mode, its viewport, in the
  -- order in which they were queued, up to the limit of its viewport or to all of them; any other
  -- client is sent none.
  pub client_batch_lem :
      (c : Client F) (layer : String) (spatial : Bool) (us : List (Update F D))
      → 0 < length us
      → Batched c layer spatial us
  client_batch_lem c layer spatial us h = record {
    wants = wanted_iff fl c layer spatial;
    batch = sent_batch c layer spatial us h;
  }
