-- ===== src/Realtime/Pump.antt =====
-- internal/realtime/client_state.go, websocket.go and broadcast.go: a client's `Send` channel, the
-- non-blocking sends into it that count what they drop, and `writePump`, which empties it.
pub mod Accounting
use respondent_community.Common.{
  ℕ, suc, ◌+◌, ◌≡◌, Bool, true, false, Option, none, some, List, [], ◌∷◌, ◌++◌, if◌then◌else◌, ltb,
  length,
}
use respondent_community.Realtime.Filter.{NotificationFilter}

abbrev pub send_buffer : ℕ
send_buffer = 256

-- What `writePump` writes: a queued message, or the notice of some dropped ones.
pub data Frame (M : Type 0) : Type 0 where
  backpressure : ℕ → Frame M
  message : M → Frame M

pub record Pipe (M : Type 0) : Type 0 where
  pub queue : List M
  pub closed : Bool
  pub dropped : ℕ
  pub running : Bool
  pub wire : List (Frame M)
  pub filter : Option NotificationFilter

module _ {M : Type 0} where
  unfoldable pub new_pipe : Pipe M
  new_pipe = record {
    queue = [];
    closed = false;
    dropped = 0;
    running = true;
    wire = [];
    filter = none;
  }

  -- `select { case client.Send <- m: default: client.droppedCount.Add(1) }`, which panics with
  -- `none` on a closed channel.
  unfoldable pub offer : M → Pipe M → Option (Pipe M)
  offer m p =
      if p.closed
      then none
      else if ltb (length p.queue) send_buffer
      then some (record p { queue = p.queue ++ m ∷ [] })
      else some (record p { dropped = suc p.dropped })

  -- `close(client.Send)`, which panics on a closed channel.
  unfoldable pub close : Pipe M → Option (Pipe M)
  close p = if p.closed then none else some (record p { closed = true })

  -- The notice, if something was dropped, and whether the pump goes on.
  unfoldable pub write_notice : Bool → Pipe M → Pipe M
  write_notice ok p =
      if ltb 0 p.dropped
      then if ok
        then record p { dropped = 0; wire = p.wire ++ backpressure p.dropped ∷ [] }
        else record p { dropped = 0; running = false }
      else p

  unfoldable pub write_message : Bool → M → Pipe M → Pipe M
  write_message ok m p =
      if p.running
      then if ok then record p { wire = p.wire ++ message m ∷ [] } else record p { running = false }
      else p

  -- One turn of the loop, with the results of the two writes. A failed write stops the pump.
  unfoldable pub pump_queue : Bool → Bool → List M → Pipe M → Pipe M
  unfolding write_notice write_message
  pump_queue notice_ok message_ok [] p = if p.closed then record p { running = false } else p
  pump_queue notice_ok message_ok (m ∷ rest) p =
      write_message message_ok m (write_notice notice_ok (record p { queue = rest }))

  unfoldable pub pump : Bool → Bool → Pipe M → Pipe M
  unfolding pump_queue
  pump notice_ok message_ok p = if p.running then pump_queue notice_ok message_ok p.queue p else p
