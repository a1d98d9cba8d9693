-- ===== src/Realtime/Hub/Channels.antt =====
-- What the operations of the loop do to the store of channels and to the table of clients.
use respondent_community.Common.{
  ℕ, ◌≤◌, ◌<◌, ◌≡◌, refl, ap, sym, subst, ◌∙◌, Bool, true, false, Option, none, some, List, [], ◌∷◌,
  if◌then◌else◌, ltb, length, count, erase, nat_eq, arith, Bool-cases, inl, inr, ◌==◌, count-erase,
  erase_head, Returns, result, Returns-mono, bind-Returns, map-Returns, if_Returns,
}
use respondent_community.Common.Dict
use respondent_community.Common.Dict.{Dict, get-put, get-empty}
use respondent_community.Realtime.Filter.{NotificationMeta, matches_notification_filter}
use respondent_community.Realtime.Pump.{
  Pipe, offer, close, pump, pump_queue, write_notice, write_message, send_buffer,
}
use respondent_community.Realtime.Hub.{Hub, update, on_pipe, each, offer_passing}

module _ {M : Type 0} where
  -- How many open channels a connection has: none or one.
  abbrev pub open_count : Option (Pipe M) → ℕ
  open_count none = 0
  open_count (some p) = if p.closed then 0 else 1

  -- The registered clients are those with an open channel, each registered once.
  pub record Matches (clients : List ℕ) (pipes : Dict ℕ (Pipe M)) : Type 0 where
    pub registered : (id : ℕ) → count id clients ≡ open_count (Dict.get id pipes)

  pub record IsSound (h : Hub M) : Type 0 where
    pub clients : Matches h.clients h.pipes
    pub unused : (id : ℕ) → h.next ≤ id → Dict.get id h.pipes ≡ none

  -- An operation that leaves a channel as open as it was.
  abbrev pub KeepsOpen : (Pipe M → Option (Pipe M)) → Type 0
  KeepsOpen f = (p : Pipe M) → p.closed ≡ false → Returns (λ p'. p'.closed ≡ false) (f p)

  pub offer-KeepsOpen : (m : M) → KeepsOpen (offer m)
  unfolding offer
  offer-KeepsOpen m p e = elim (Bool-cases (ltb (length p.queue) send_buffer)) [
    | inl room ↦ rw (e, room) (result refl)
    | inr full ↦ rw (e, full) (result refl)
  ]

  pub offer_passing-KeepsOpen : (meta : NotificationMeta) (m : M) → KeepsOpen (offer_passing meta m)
  unfolding offer_passing
  offer_passing-KeepsOpen meta m p e =
      if_Returns (matches_notification_filter p.filter meta) (offer m p) (some p)
        (λ passes. offer-KeepsOpen m p e) (λ filtered. result e)

  -- Writing a frame neither opens nor closes the channel.
  write_notice_closed : (ok : Bool) (p : Pipe M) → (write_notice ok p).closed ≡ p.closed
  unfolding write_notice
  write_notice_closed ok p = elim (Bool-cases (ltb 0 p.dropped)) [
    | inl pending ↦ elim (Bool-cases ok) [
      | inl good ↦ rw (pending, good)
      | inr bad ↦ rw (pending, bad)
    ]
    | inr clear ↦ rw clear
  ]

  write_message_closed : (ok : Bool) (m : M) (p : Pipe M) → (write_message ok m p).closed ≡ p.closed
  unfolding write_message
  write_message_closed ok m p = ground arith

  pump_queue_closed :
      (a b : Bool) (q : List M) (p : Pipe M) → (pump_queue a b q p).closed ≡ p.closed
  unfolding pump_queue
  pump_queue_closed a b [] p = ground arith
  pump_queue_closed a b (m ∷ rest) p =
      write_message_closed b m (write_notice a (record p { queue = rest }))
      ∙ write_notice_closed a (record p { queue = rest })

  pub pump_closed : (a b : Bool) (p : Pipe M) → (pump a b p).closed ≡ p.closed
  unfolding pump
  pump_closed a b p = ground (arith, pump_queue_closed a b p.queue p)

  -- After an operation that keeps channels open, the same clients have an open channel.
  abbrev pub Same : Dict ℕ (Pipe M) → Dict ℕ (Pipe M) → Type 0
  Same pipes pipes' =
      (id : ℕ)
      → (open_count (Dict.get id pipes') ≡ open_count (Dict.get id pipes))
        × (Dict.get id pipes ≡ none → Dict.get id pipes' ≡ none)

  open_pipe : (o : Option (Pipe M)) → 0 < open_count o → Returns (λ p. p.closed ≡ false) o
  open_pipe none h = absurd (omega arith)
  open_pipe (some p) h = elim (Bool-cases p.closed) [
    | inl shut ↦ absurd (ground (arith, shut))
    | inr fine ↦ result fine
  ]

  pub put-Same :
      (id : ℕ) (p p' : Pipe M) (pipes : Dict ℕ (Pipe M))
      → Dict.get id pipes ≡ some p
      → p'.closed ≡ p.closed
      → Same pipes (Dict.put id p' pipes)
  put-Same id p p' pipes e c j = elim (Bool-cases (id == j)) [
    | inl same ↦
        let at = ap (λ (i : ℕ). Dict.get i pipes) ((nat_eq.beq_iff id j).0 same) in
        rw (get-put, same, sym at, e, c) (refl, λ n. cc)
    | inr other ↦ rw (get-put, other) (refl, λ n. n)
  ]

  pub on_pipe-Same :
      (f : Pipe M → Option (Pipe M)) (id : ℕ) (pipes : Dict ℕ (Pipe M))
      → KeepsOpen f
      → 0 < open_count (Dict.get id pipes)
      → Returns (Same pipes) (on_pipe f id pipes)
  unfolding on_pipe
  on_pipe-Same f id pipes keeps h = go (Dict.get id pipes) refl (open_pipe (Dict.get id pipes) h)
    where
      go :
          (o : Option (Pipe M))
          → Dict.get id pipes ≡ o
          → Returns (λ p. p.closed ≡ false) o
          → Returns (Same pipes) (update f id pipes o)
      go _ e (result {a = p} is_open) =
          map-Returns (λ p'. Dict.put id p' pipes) (f p)
            (λ p' c. put-Same id p p' pipes e (c ∙ sym is_open)) (keeps p is_open)

  Same-trans : (a b c : Dict ℕ (Pipe M)) → Same a b → Same b c → Same a c
  Same-trans a b c s t id = ((t id).0 ∙ (s id).0, λ n. (t id).1 ((s id).1 n))

  pub each-Same :
      (f : Pipe M → Option (Pipe M)) (ids : List ℕ) (pipes : Dict ℕ (Pipe M))
      → KeepsOpen f
      → ((id : ℕ) → 0 < count id ids → 0 < open_count (Dict.get id pipes))
      → Returns (Same pipes) (each f ids pipes)
  unfolding each
  each-Same f [] pipes keeps h = result (λ id. (refl, λ n. n))
  each-Same f (i ∷ ids) pipes keeps h =
      bind-Returns (λ p. each f ids p) (on_pipe f i pipes)
        (λ pipes' s.
          Returns-mono (λ p t. Same-trans pipes pipes' p s t)
            (each-Same f ids pipes' keeps (λ id c. rw (s id).0 (h id (ground arith)))))
        (on_pipe-Same f i pipes keeps (h i (ground (arith, nat_eq.beq_iff i i))))

  -- What is left after the channel of `id` is closed.
  abbrev pub Closes : ℕ → List ℕ → Dict ℕ (Pipe M) → Dict ℕ (Pipe M) → Type 0
  Closes id clients pipes pipes' =
      Matches (erase id clients) pipes'
      × ((j : ℕ) → Dict.get j pipes ≡ none → Dict.get j pipes' ≡ none)

  open_count_le : (o : Option (Pipe M)) → open_count o ≤ 1
  open_count_le none = omega arith
  open_count_le (some p) = ground arith

  put-Closes :
      (id : ℕ) (p p' : Pipe M) (clients : List ℕ) (pipes : Dict ℕ (Pipe M))
      → Matches clients pipes
      → Dict.get id pipes ≡ some p
      → p'.closed ≡ true
      → Closes id clients pipes (Dict.put id p' pipes)
  put-Closes id p p' clients pipes m e c = (
    record {
      registered = λ j. elim (Bool-cases (id == j)) [
        | inl same ↦
            let at = ap (λ (i : ℕ). Dict.get i pipes) ((nat_eq.beq_iff id j).0 same) in
            rw (count-erase, get-put, same, c)
              (ground (arith, m.registered j, open_count_le (Dict.get j pipes)))
        | inr other ↦ rw (count-erase, get-put, other) (m.registered j)
      ];
    },
    λ j n. elim (Bool-cases (id == j)) [
      | inl same ↦
          let at = ap (λ (i : ℕ). Dict.get i pipes) ((nat_eq.beq_iff id j).0 same) in cc (at, n, e)
      | inr other ↦ rw (get-put, other) n
    ],
  )

  close-closed : (p : Pipe M) → p.closed ≡ false → Returns (λ p'. p'.closed ≡ true) (close p)
  unfolding close
  close-closed p e = rw e (result refl)

  pub on_pipe-Closes :
      (id : ℕ) (clients : List ℕ) (pipes : Dict ℕ (Pipe M))
      → Matches clients pipes
      → 0 < count id clients
      → Returns (Closes id clients pipes) (on_pipe close id pipes)
  unfolding on_pipe
  on_pipe-Closes id clients pipes m h =
      go (Dict.get id pipes) refl (open_pipe (Dict.get id pipes) (rw⁻¹ (m.registered id) h))
    where
      go :
          (o : Option (Pipe M))
          → Dict.get id pipes ≡ o
          → Returns (λ p. p.closed ≡ false) o
          → Returns (Closes id clients pipes) (update close id pipes o)
      go _ e (result {a = p} is_open) =
          map-Returns (λ p'. Dict.put id p' pipes) (close p)
            (λ p' c. put-Closes id p p' clients pipes m e c) (close-closed p is_open)

  pub each-close :
      (ids : List ℕ) (pipes : Dict ℕ (Pipe M))
      → Matches ids pipes
      → Returns
          (λ pipes'.
            Matches [] pipes' × ((j : ℕ) → Dict.get j pipes ≡ none → Dict.get j pipes' ≡ none))
          (each close ids pipes)
  unfolding each
  each-close [] pipes m = result (m, λ j n. n)
  each-close (i ∷ ids) pipes m =
      bind-Returns (λ p. each close ids p) (on_pipe close i pipes)
        (λ pipes' c.
          Returns-mono (λ p r. (r.0, λ j n. r.1 j (c.1 j n)))
            (each-close ids pipes' (subst (λ l. Matches l pipes') (erase_head i ids) c.0)))
        (on_pipe-Closes i (i ∷ ids) pipes m (ground (arith, nat_eq.beq_iff i i)))
