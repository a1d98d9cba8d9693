-- ===== src/Realtime/Hub.antt =====
-- internal/realtime/websocket.go: `Server.Run`'s loop over the registered clients, and the check
-- for room of `HandleConnection`; internal/realtime/broadcast.go: the send of a batch to a client.
-- A client is the number of its connection, and its channel stands in the store `pipes`. `none` is
-- the panic of a send on, or a close of, a closed channel.
pub mod Channels
pub mod Safety
use respondent_community.Common.{
  ℕ, suc, ◌+◌, ◌≤◌, ◌≡◌, Bool, true, false, Option, none, some, List, [], ◌∷◌, ◌++◌, if◌then◌else◌,
  ltb, length, contains, erase, nat_eq, map_option, ◌>>=◌,
}
use respondent_community.Common.Dict
use respondent_community.Common.Dict.{Dict}
use respondent_community.Realtime.Filter.{NotificationMeta, matches_notification_filter}
use respondent_community.Realtime.Pump.{Pipe, new_pipe, offer, close, pump}

abbrev pub max_clients : ℕ
max_clients = 1000

pub data Event (M : Type 0) : Type 0 where
  connect : Event M
  unregister : ℕ → Event M
  broadcast : M → Event M
  notify : NotificationMeta → M → Event M
  deliver : ℕ → M → Event M
  write : ℕ → Bool → Bool → Event M
  shutdown : Event M

pub record Hub (M : Type 0) : Type 0 where
  pub pipes : Dict ℕ (Pipe M)
  pub clients : List ℕ
  pub next : ℕ
  pub serving : Bool

module _ {M : Type 0} where
  unfoldable pub new_hub : Hub M
  new_hub = record { pipes = []; clients = []; next = 0; serving = true }

  -- An operation on the channel of a connection; a client always has one.
  abbrev pub update :
      (Pipe M → Option (Pipe M)) → ℕ → Dict ℕ (Pipe M) → Option (Pipe M) → Option (Dict ℕ (Pipe M))
  update f id pipes none = some pipes
  update f id pipes (some p) = map_option (λ p'. Dict.put id p' pipes) (f p)

  unfoldable pub on_pipe :
      (Pipe M → Option (Pipe M)) → ℕ → Dict ℕ (Pipe M) → Option (Dict ℕ (Pipe M))
  on_pipe f id pipes = update f id pipes (Dict.get id pipes)

  -- `for client := range s.clients`
  unfoldable pub each :
      (Pipe M → Option (Pipe M)) → List ℕ → Dict ℕ (Pipe M) → Option (Dict ℕ (Pipe M))
  each f [] pipes = some pipes
  each f (id ∷ ids) pipes = do pipes' ← on_pipe f id pipes; each f ids pipes'

  unfoldable pub offer_passing : NotificationMeta → M → Pipe M → Option (Pipe M)
  unfolding offer
  offer_passing meta m p = if matches_notification_filter p.filter meta then offer m p else some p

  unfoldable pub admits : Hub M → Bool
  admits h = ltb (length h.clients) max_clients

  unfoldable pub step : Event M → Hub M → Option (Hub M)
  unfolding on_pipe each offer close pump offer_passing new_pipe
  step connect h = some (record h {
    pipes = Dict.put h.next new_pipe h.pipes;
    clients = h.next ∷ h.clients;
    next = suc h.next;
  })
  step (unregister id) h =
      if contains id h.clients
      then map_option (λ pipes. record h { pipes = pipes; clients = erase id h.clients })
          (on_pipe close id h.pipes)
      else some h
  step (broadcast m) h =
      map_option (λ pipes. record h { pipes = pipes }) (each (offer m) h.clients h.pipes)
  step (notify meta m) h =
      map_option (λ pipes. record h { pipes = pipes })
        (each (offer_passing meta m) h.clients h.pipes)
  step (deliver id m) h =
      if contains id h.clients
      then map_option (λ pipes. record h { pipes = pipes }) (on_pipe (offer m) id h.pipes)
      else some h
  step (write id notice_ok message_ok) h =
      map_option (λ pipes. record h { pipes = pipes })
        (on_pipe (λ p. some (pump notice_ok message_ok p)) id h.pipes)
  step shutdown h =
      map_option (λ pipes. record h { pipes = pipes; clients = []; serving = false })
        (each close h.clients h.pipes)

  -- After the shutdown no event of the loop happens; the write pumps go on.
  unfoldable pub happens : Event M → Hub M → Bool
  happens (write id notice_ok message_ok) h = true
  happens connect h = h.serving
  happens (unregister id) h = h.serving
  happens (broadcast m) h = h.serving
  happens (notify meta m) h = h.serving
  happens (deliver id m) h = h.serving
  happens shutdown h = h.serving

  unfoldable pub turn : Event M → Hub M → Option (Hub M)
  unfolding step happens
  turn e h = if happens e h then step e h else some h

  unfoldable pub run : List (Event M) → Hub M → Option (Hub M)
  unfolding turn
  run [] h = some h
  run (e ∷ es) h = do h' ← turn e h; run es h'
