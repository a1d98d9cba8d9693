-- ===== src/Realtime/Pump/Accounting.antt =====
-- What becomes of the messages offered to a client whose socket works.
use respondent_community.Common.{
  ℕ, suc, ◌+◌, ◌≤◌, ◌≡◌, refl, ap, sym, ◌∙◌, true, false, Option, none, some, List, [], ◌∷◌, ◌++◌,
  if◌then◌else◌, ltb, length, arith, Bool-cases, inl, inr, length-append,
}
use mathlib.Core.List.{append_assoc, append-nil}
use respondent_community.Realtime.Pump.{
  Frame, backpressure, message, Pipe, offer, pump, pump_queue, write_notice, write_message,
  send_buffer,
}

pub data Turn (M : Type 0) : Type 0 where
  send : M → Turn M
  write : Turn M

module _ {M : Type 0} where
  -- The messages on the wire, in order.
  abbrev pub delivered : List (Frame M) → List M
  delivered [] = []
  delivered (backpressure n ∷ w) = delivered w
  delivered (message m ∷ w) = m ∷ delivered w

  -- The drops that the notices on the wire report.
  abbrev pub reported : List (Frame M) → ℕ
  reported [] = 0
  reported (backpressure n ∷ w) = n + reported w
  reported (message m ∷ w) = reported w

  -- A send to a pipe that is full, and the pipe after a send; an open pipe never panics.
  abbrev pub after : Pipe M → Option (Pipe M) → Pipe M
  after p none = p
  after p (some p') = p'

  unfoldable pub turn : Turn M → Pipe M → Pipe M
  unfolding offer pump
  turn (send m) p = after p (offer m p)
  turn write p = pump true true p

  abbrev pub run : List (Turn M) → Pipe M → Pipe M
  run [] p = p
  run (t ∷ ts) p = run ts (turn t p)

  -- The messages that found room, in order, and the number that did not.
  abbrev pub accepted : List (Turn M) → Pipe M → List M
  accepted [] p = []
  accepted (send m ∷ ts) p =
      let rest = accepted ts (turn (send m) p) in
      if ltb (length p.queue) send_buffer then m ∷ rest else rest
  accepted (write ∷ ts) p = accepted ts (turn write p)

  abbrev pub sends : List (Turn M) → ℕ
  sends [] = 0
  sends (send m ∷ ts) = suc (sends ts)
  sends (write ∷ ts) = sends ts

  abbrev pub traffic : Pipe M → List M
  traffic p = delivered p.wire ++ p.queue

  abbrev pub lost : Pipe M → ℕ
  lost p = p.dropped + reported p.wire

  delivered-append : (v w : List (Frame M)) → delivered (v ++ w) ≡ delivered v ++ delivered w
  delivered-append [] w = refl
  delivered-append (backpressure n ∷ v) w = delivered-append v w
  delivered-append (message m ∷ v) w = ap (λ l. m ∷ l) (delivered-append v w)

  reported-append : (v w : List (Frame M)) → reported (v ++ w) ≡ reported v + reported w
  reported-append [] w = omega arith
  reported-append (backpressure n ∷ v) w = omega (arith, reported-append v w)
  reported-append (message m ∷ v) w = reported-append v w

  pub record IsLive (p : Pipe M) : Type 0 where
    pub is_open : p.closed ≡ false
    pub runs : p.running ≡ true
    pub bounded : length p.queue ≤ send_buffer

  record Kept (p p' : Pipe M) : Type 0 where
    live : IsLive p'
    same_traffic : traffic p' ≡ traffic p
    same_lost : lost p' ≡ lost p

  record Noticed (p p' : Pipe M) : Type 0 where
    live : IsLive p'
    same_delivered : delivered p'.wire ≡ delivered p.wire
    same_queue : p'.queue ≡ p.queue
    same_lost : lost p' ≡ lost p

  write_notice-Noticed : (p : Pipe M) → IsLive p → Noticed p (write_notice true p)
  unfolding write_notice
  write_notice-Noticed p h = elim (Bool-cases (ltb 0 p.dropped)) [
    | inl some_dropped ↦ rw some_dropped (record {
      live = record { is_open = h.is_open; runs = h.runs; bounded = h.bounded };
      same_delivered =
          delivered-append p.wire (backpressure p.dropped ∷ []) ∙ append-nil (delivered p.wire);
      same_queue = refl;
      same_lost = omega (arith, reported-append p.wire (backpressure p.dropped ∷ []));
    })
    | inr none_dropped ↦
        rw none_dropped
          (record { live = h; same_delivered = refl; same_queue = refl; same_lost = refl })
  ]

  -- A message that leaves the queue reaches the wire.
  write_message-Kept :
      (m : M) (p : Pipe M)
      → IsLive p
      → let p' = write_message true m p in
        IsLive p' × (traffic p' ≡ delivered p.wire ++ (m ∷ p.queue)) × (lost p' ≡ lost p)
  unfolding write_message
  write_message-Kept m p h = rw h.runs (
    record { is_open = h.is_open; runs = refl; bounded = h.bounded },
    ap (λ w. w ++ p.queue) (delivered-append p.wire (message m ∷ []))
        ∙ append_assoc (delivered p.wire) (m ∷ []) p.queue,
    omega (arith, reported-append p.wire (message m ∷ [])),
  )

  pump_idle : (p : Pipe M) → p.closed ≡ false → pump_queue true true [] p ≡ p
  unfolding pump_queue
  pump_idle p e = ground (arith, e)

  pump_queue-Kept :
      (q : List M) (p : Pipe M) → p.queue ≡ q → IsLive p → Kept p (pump_queue true true q p)
  unfolding pump_queue
  pump_queue-Kept [] p e h =
      rw (pump_idle p h.is_open) (record { live = h; same_traffic = refl; same_lost = refl })
  pump_queue-Kept (m ∷ rest) p e h =
      let short = record p { queue = rest } in
      let n = write_notice-Noticed short (record {
        is_open = h.is_open;
        runs = h.runs;
        bounded = ground (arith, ap length e, h.bounded);
      }) in
      let w = write_message-Kept m (write_notice true short) n.live in
      record {
        live = w.0;
        same_traffic = w.1 ∙ rw (n.same_delivered, n.same_queue, e);
        same_lost = w.2 ∙ n.same_lost;
      }

  turn_write : (p : Pipe M) → p.running ≡ true → turn write p ≡ pump_queue true true p.queue p
  unfolding turn pump
  turn_write p e = ground (arith, e)

  turn-write-Kept : (p : Pipe M) → IsLive p → Kept p (turn write p)
  turn-write-Kept p h = rw (turn_write p h.runs) (pump_queue-Kept p.queue p refl h)

  turn_room :
      (m : M) (p : Pipe M)
      → p.closed ≡ false
      → ltb (length p.queue) send_buffer ≡ true
      → turn (send m) p ≡ record p { queue = p.queue ++ m ∷ [] }
  unfolding turn offer
  turn_room m p e room = simp (e, room)

  turn_full :
      (m : M) (p : Pipe M)
      → p.closed ≡ false
      → ltb (length p.queue) send_buffer ≡ false
      → turn (send m) p ≡ record p { dropped = suc p.dropped }
  unfolding turn offer
  turn_full m p e full = simp (e, full)

  room-IsLive :
      (m : M) (p : Pipe M)
      → ltb (length p.queue) send_buffer ≡ true
      → IsLive p
      → IsLive (record p { queue = p.queue ++ m ∷ [] })
  room-IsLive m p room h = record {
    is_open = h.is_open;
    runs = h.runs;
    bounded = ground (arith, length-append p.queue (m ∷ []), room);
  }

  full-IsLive : (p : Pipe M) → IsLive p → IsLive (record p { dropped = suc p.dropped })
  full-IsLive p h = record { is_open = h.is_open; runs = h.runs; bounded = h.bounded }

  -- What a run of sends and writes has to account for.
  pub record Accounted (ts : List (Turn M)) (p p' : Pipe M) : Type 0 where
    pub live : IsLive p'
    pub in_order : traffic p' ≡ traffic p ++ accepted ts p
    pub counted : lost p' + length (accepted ts p) ≡ lost p + sends ts

  accepted_room :
      (m : M) (ts : List (Turn M)) (p : Pipe M)
      → p.closed ≡ false
      → ltb (length p.queue) send_buffer ≡ true
      → accepted (send m ∷ ts) p ≡ m ∷ accepted ts (record p { queue = p.queue ++ m ∷ [] })
  accepted_room m ts p e room = rw (turn_room m p e room, room)

  accepted_full :
      (m : M) (ts : List (Turn M)) (p : Pipe M)
      → p.closed ≡ false
      → ltb (length p.queue) send_buffer ≡ false
      → accepted (send m ∷ ts) p ≡ accepted ts (record p { dropped = suc p.dropped })
  accepted_full m ts p e full = rw (turn_full m p e full, full)

  room-Accounted :
      (m : M) (ts : List (Turn M)) (p : Pipe M)
      → IsLive p
      → ltb (length p.queue) send_buffer ≡ true
      → (let p' = record p { queue = p.queue ++ m ∷ [] } in Accounted ts p' (run ts p'))
      → Accounted (send m ∷ ts) p (run (send m ∷ ts) p)
  room-Accounted m ts p h room r =
      let p' = record p { queue = p.queue ++ m ∷ [] } in
      let t = ap (run ts) (turn_room m p h.is_open room) in
      let e = accepted_room m ts p h.is_open room in
      let snoc = append_assoc (delivered p.wire) p.queue (m ∷ []) in
      record {
        live = rw t r.live;
        in_order =
            ap traffic t
            ∙ (r.in_order
                ∙ (ap (λ l. l ++ accepted ts p') (sym snoc)
                    ∙ (append_assoc (traffic p) (m ∷ []) (accepted ts p')
                        ∙ ap (λ l. traffic p ++ l) (sym e))));
        counted = ground (arith, r.counted, ap lost t, ap length e);
      }

  full-Accounted :
      (m : M) (ts : List (Turn M)) (p : Pipe M)
      → IsLive p
      → ltb (length p.queue) send_buffer ≡ false
      → (let p' = record p { dropped = suc p.dropped } in Accounted ts p' (run ts p'))
      → Accounted (send m ∷ ts) p (run (send m ∷ ts) p)
  full-Accounted m ts p h full r =
      let t = ap (run ts) (turn_full m p h.is_open full) in
      let e = accepted_full m ts p h.is_open full in
      record {
        live = rw t r.live;
        in_order = ap traffic t ∙ (r.in_order ∙ ap (λ l. traffic p ++ l) (sym e));
        counted = ground (arith, r.counted, ap lost t, ap length e);
      }

  -- While a client is connected and its socket works, the frames written and the queue hold exactly
  -- the messages that were accepted, in the order in which they were sent; the queue never exceeds
  -- its 256 places; and every other send is counted, as reported to the client or still to report.
  pub run-Accounted : (ts : List (Turn M)) (p : Pipe M) → IsLive p → Accounted ts p (run ts p)
  run-Accounted [] p h = record {
    live = h;
    in_order = sym (append-nil (traffic p));
    counted = omega arith;
  }
  run-Accounted (write ∷ ts) p h =
      let k = turn-write-Kept p h in
      let r = run-Accounted ts (turn write p) k.live in
      record {
        live = r.live;
        in_order = r.in_order ∙ ap (λ l. l ++ accepted ts (turn write p)) k.same_traffic;
        counted = omega (arith, r.counted, k.same_lost);
      }
  run-Accounted (send m ∷ ts) p h = elim (Bool-cases (ltb (length p.queue) send_buffer)) [
    | inl room ↦ room-Accounted m ts p h room (run-Accounted ts _ (room-IsLive m p room h))
    | inr full ↦ full-Accounted m ts p h full (run-Accounted ts _ (full-IsLive p h))
  ]
