-- ===== src/Realtime/Hub/Safety.antt =====
-- The loop neither sends on a closed channel nor closes one twice.
use respondent_community.Common.{
  ℕ, ◌<◌, ◌≡◌, refl, ap, sym, ◌∙◌, Bool, Option, none, some, List, [], ◌∷◌, contains, count, nat_eq,
  arith, count_present, map_option, Returns, result, bind-Returns, map-Returns, if_Returns,
}
use respondent_community.Common.Dict
use respondent_community.Common.Dict.{Dict, get-put, get-empty}
use respondent_community.Realtime.Pump.{Pipe, new_pipe, offer, close, pump}
use respondent_community.Realtime.Hub.{
  Hub, Event, connect, unregister, broadcast, notify, deliver, write, shutdown, new_hub, update,
  on_pipe, each, offer_passing, step, run, turn, happens,
}
use respondent_community.Realtime.Hub.Channels.{
  open_count, IsSound, KeepsOpen, offer-KeepsOpen, offer_passing-KeepsOpen, pump_closed, Same,
  put-Same, on_pipe-Same, each-Same, on_pipe-Closes, each-close,
}

module _ {M : Type 0} where
  module _ (h : Hub M) (sound : IsSound h) where
    keep-IsSound :
        (pipes : Dict ℕ (Pipe M)) → Same h.pipes pipes → IsSound (record h { pipes = pipes })
    keep-IsSound pipes same = record {
      clients = record { registered = λ id. sound.clients.registered id ∙ sym (same id).0 };
      unused = λ id le. (same id).1 (sound.unused id le);
    }

    connect-IsSound : Returns IsSound (step connect h)
    unfolding step new_pipe
    connect-IsSound = result (record {
      clients = record {
        registered = λ id. rw get-put (
            ground (
              arith,
              nat_eq.beq_iff h.next id,
              sound.clients.registered id,
              ap open_count (sound.unused h.next (omega arith)),
              sound.clients.registered h.next,
            ));
      };
      unused = λ id le.
          rw get-put (ground (arith, nat_eq.beq_iff h.next id, sound.unused id (omega arith)));
    })

    client_open : (id : ℕ) → 0 < count id h.clients → 0 < open_count (Dict.get id h.pipes)
    client_open id c = rw⁻¹ (sound.clients.registered id) c

    unregister-IsSound : (id : ℕ) → Returns IsSound (step (unregister id) h)
    unfolding step
    unregister-IsSound id =
        if_Returns (contains id h.clients) _ (some h)
          (λ found.
            map-Returns _ (on_pipe close id h.pipes)
              (λ pipes c. record { clients = c.0; unused = λ j le. c.1 j (sound.unused j le) })
              (on_pipe-Closes id h.clients h.pipes sound.clients
                (count_present id h.clients found)))
          (λ absent. result sound)

    each-IsSound :
        (f : Pipe M → Option (Pipe M))
        → KeepsOpen f
        → Returns IsSound
            (map_option (λ pipes. record h { pipes = pipes }) (each f h.clients h.pipes))
    each-IsSound f keeps =
        map-Returns _ (each f h.clients h.pipes) keep-IsSound
          (each-Same f h.clients h.pipes keeps client_open)

    deliver-IsSound : (id : ℕ) (m : M) → Returns IsSound (step (deliver id m) h)
    unfolding step
    deliver-IsSound id m =
        if_Returns (contains id h.clients) _ (some h)
          (λ found. map-Returns _ (on_pipe (offer m) id h.pipes) keep-IsSound (
            on_pipe-Same (offer m) id h.pipes (offer-KeepsOpen m)
              (client_open id (count_present id h.clients found))))
          (λ absent. result sound)

    write-Same :
        (a b : Bool) (id : ℕ) → Returns (Same h.pipes) (on_pipe (λ p. some (pump a b p)) id h.pipes)
    unfolding on_pipe
    write-Same a b id = go (Dict.get id h.pipes) refl
      where
        go :
            (o : Option (Pipe M))
            → Dict.get id h.pipes ≡ o
            → Returns (Same h.pipes) (update (λ p. some (pump a b p)) id h.pipes o)
        go none e = result (λ j. (refl, λ n. n))
        go (some p) e = result (put-Same id p (pump a b p) h.pipes e (pump_closed a b p))

    shutdown-IsSound : Returns IsSound (step shutdown h)
    unfolding step
    shutdown-IsSound =
        map-Returns _ (each close h.clients h.pipes)
          (λ pipes c. record { clients = c.0; unused = λ j le. c.1 j (sound.unused j le) })
          (each-close h.clients h.pipes sound.clients)

  pub step-IsSound : (e : Event M) (h : Hub M) → IsSound h → Returns IsSound (step e h)
  unfolding step
  step-IsSound connect h s = connect-IsSound h s
  step-IsSound (unregister id) h s = unregister-IsSound h s id
  step-IsSound (broadcast m) h s = each-IsSound h s (offer m) (offer-KeepsOpen m)
  step-IsSound (notify meta m) h s =
      each-IsSound h s (offer_passing meta m) (offer_passing-KeepsOpen meta m)
  step-IsSound (deliver id m) h s = deliver-IsSound h s id m
  step-IsSound (write id a b) h s =
      map-Returns _ (on_pipe (λ p. some (pump a b p)) id h.pipes) (keep-IsSound h s)
        (write-Same h s a b id)
  step-IsSound shutdown h s = shutdown-IsSound h s

  turn-IsSound : (e : Event M) (h : Hub M) → IsSound h → Returns IsSound (turn e h)
  unfolding turn
  turn-IsSound e h s =
      if_Returns (happens e h) (step e h) (some h) (λ on. step-IsSound e h s) (λ off. result s)

  -- From a sound state, no sequence of connections, disconnections, broadcasts, notifications,
  -- batches, writes to sockets and shutdowns makes the server send on a closed channel or close one
  -- twice; and at the end the registered clients are those with an open channel, each once.
  pub run-IsSound : (es : List (Event M)) (h : Hub M) → IsSound h → Returns IsSound (run es h)
  unfolding run
  run-IsSound [] h s = result s
  run-IsSound (e ∷ es) h s =
      bind-Returns (λ h'. run es h') (turn e h) (λ h' s'. run-IsSound es h' s') (turn-IsSound e h s)

  pub new_hub-IsSound : IsSound (new_hub {M = M})
  unfolding new_hub
  new_hub-IsSound = record {
    clients = record { registered = λ id. rw (get-empty id) };
    unused = λ id le. get-empty id;
  }
