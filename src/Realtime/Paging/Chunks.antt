-- ===== src/Realtime/Paging/Chunks.antt =====
-- The chunks of a snapshot are the snapshot, and a full buffer cuts it off at a chunk.
use respondent_community.Common.{
  ℕ, zero, suc, ◌+◌, ◌≤◌, ◌<◌, ◌≡◌, ◌⊎◌, refl, ap, sym, ◌∙◌, true, false, some, List, [], ◌∷◌, ◌++◌,
  ltb, length, take, drop, All, arith, Bool-cases, inl, inr, take-append-drop, length-take,
  length-drop, Returns, result, Returns-mono, subst, Option, ltb→lt,
}
use respondent_community.Realtime.Pump.{Pipe, send_buffer, offer}
use respondent_community.Realtime.Pump.Accounting.{Turn, send, turn, run, IsLive, run-Accounted}
use respondent_community.Realtime.Paging.{
  chunk_loop, chunks, snapshot_chunk_size, send_chunk, send_chunks,
}

module _ {A : Type 0} where
  abbrev pub concat : List (List A) → List A
  concat [] = []
  concat (x ∷ xs) = x ++ concat xs

  -- A message of a snapshot carries at least one entity and at most 500.
  abbrev pub IsChunk : List A → Type 0
  IsChunk c = (0 < length c) × (length c ≤ snapshot_chunk_size)

  chunk_loop-concat :
      (n : ℕ) (xs : List A)
      → length xs ≤ n
      → (concat (chunk_loop n xs) ≡ xs) × All IsChunk (chunk_loop n xs)
  unfolding chunk_loop
  chunk_loop-concat zero [] h = (refl, tt)
  chunk_loop-concat zero (x ∷ xs) h = absurd (omega arith)
  chunk_loop-concat (suc n) [] h = (refl, tt)
  chunk_loop-concat (suc n) (x ∷ xs) h =
      let all = x ∷ xs in
      let rest = drop snapshot_chunk_size all in
      let r = chunk_loop-concat n rest (omega (arith, length-drop snapshot_chunk_size all)) in
      (
        ap (λ l. take snapshot_chunk_size all ++ l) r.0 ∙ take-append-drop snapshot_chunk_size all,
        (
          (
            omega (arith, length-take snapshot_chunk_size all),
            omega (arith, length-take snapshot_chunk_size all),
          ),
          r.1,
        ),
      )

  -- The chunks of a snapshot, one after the other, are its entities in order, and each chunk has at
  -- least one entity and at most 500.
  pub chunks-concat : (xs : List A) → (concat (chunks xs) ≡ xs) × All IsChunk (chunks xs)
  unfolding chunks
  chunks-concat xs = chunk_loop-concat (length xs) xs (omega arith)

module _ {M : Type 0} (turns : ℕ → List (Turn M)) where
  -- The chunks from the i-th on, each after the turns of the others before it.
  abbrev pub woven : ℕ → List M → List (Turn M)
  woven i [] = []
  woven i (m ∷ ms) = turns i ++ send m ∷ woven (suc i) ms

  -- Each of the chunks finds room in the queue.
  abbrev pub Fits : ℕ → List M → Pipe M → Type 0
  Fits i [] p = Unit
  Fits i (m ∷ ms) p =
      let q = run (turns i) p in (length q.queue < 256) × Fits (suc i) ms (turn (send m) q)

  -- The next chunk finds the queue full and is dropped.
  pub record Overflow (i : ℕ) (ms : List M) (p p' : Pipe M) : Type 0 where
    pub chunk : M
    pub left : List M
    pub next : ms ≡ chunk ∷ left
    pub full : 256 ≤ length (run (turns i) p).queue
    pub dropped : p' ≡ turn (send chunk) (run (turns i) p)

  -- What the sends of a snapshot's chunks leave behind.
  pub record Cut (i : ℕ) (ms : List M) (p p' : Pipe M) : Type 0 where
    pub sent : ℕ
    pub fits : Fits i (take sent ms) p
    pub ends :
        ((drop sent ms ≡ []) × (p' ≡ run (woven i (take sent ms)) p))
        ⊎ Overflow (i + sent) (drop sent ms) (run (woven i (take sent ms)) p) p'

  run-append : (ts us : List (Turn M)) (p : Pipe M) → run (ts ++ us) p ≡ run us (run ts p)
  run-append [] us p = refl
  run-append (t ∷ ts) us p = run-append ts us (turn t p)

  first_turns :
      (i : ℕ) (m : M) (ms : List M) (p : Pipe M)
      → run (woven i (m ∷ ms)) p ≡ run (woven (suc i) ms) (turn (send m) (run (turns i) p))
  first_turns i m ms p = run-append (turns i) (send m ∷ woven (suc i) ms) p

  later_chunk :
      (i n : ℕ) (ms : List M) (p p' : Pipe M)
      → Overflow (suc i + n) ms p p'
      → Overflow (i + suc n) ms p p'
  later_chunk i n ms p p' o =
      let same : suc i + n ≡ i + suc n = omega arith in subst (λ k. Overflow k ms p p') same o

  this_chunk : (i : ℕ) (ms : List M) (p p' : Pipe M) → Overflow i ms p p' → Overflow (i + 0) ms p p'
  this_chunk i ms p p' o =
      let same : i ≡ i + 0 = omega arith in subst (λ k. Overflow k ms p p') same o

  turn_room :
      (m : M) (q : Pipe M)
      → q.closed ≡ false
      → ltb (length q.queue) send_buffer ≡ true
      → turn (send m) q ≡ record q { queue = q.queue ++ m ∷ [] }
  unfolding turn offer
  turn_room m q e room = simp (e, room)

  turn_full :
      (m : M) (q : Pipe M)
      → q.closed ≡ false
      → ltb (length q.queue) send_buffer ≡ false
      → turn (send m) q ≡ record q { dropped = suc q.dropped }
  unfolding turn offer
  turn_full m q e full = simp (e, full)

  send_chunk_room :
      (m : M) (q : Pipe M) (rest : Pipe M → Option (Pipe M))
      → q.closed ≡ false
      → ltb (length q.queue) send_buffer ≡ true
      → send_chunk m q rest ≡ rest (turn (send m) q)
  send_chunk_room m q rest e room = simp (turn_room m q e room, e, room)

  send_chunk_full :
      (m : M) (q : Pipe M) (rest : Pipe M → Option (Pipe M))
      → q.closed ≡ false
      → ltb (length q.queue) send_buffer ≡ false
      → send_chunk m q rest ≡ some (turn (send m) q)
  send_chunk_full m q rest e full = simp (turn_full m q e full, e, full)

  full-Cut :
      (i : ℕ) (m : M) (ms : List M) (p : Pipe M)
      → ltb (length (run (turns i) p).queue) send_buffer ≡ false
      → Cut i (m ∷ ms) p (turn (send m) (run (turns i) p))
  full-Cut i m ms p full = record {
    sent = 0;
    fits = tt;
    ends = inr (
        this_chunk i (m ∷ ms) p _ (record {
          chunk = m;
          left = ms;
          next = refl;
          full = ground (arith, full);
          dropped = refl;
        }));
  }

  room-Cut :
      (i : ℕ) (m : M) (ms : List M) (p p' : Pipe M)
      → length (run (turns i) p).queue < 256
      → Cut (suc i) ms (turn (send m) (run (turns i) p)) p'
      → Cut i (m ∷ ms) p p'
  room-Cut i m ms p p' room c = record {
    sent = suc c.sent;
    fits = (room, c.fits);
    ends = elim c.ends [
      | inl (done, end) ↦ inl (done, end ∙ sym (first_turns i m (take c.sent ms) p))
      | inr o ↦ inr (
          subst (λ q. Overflow (i + suc c.sent) (drop c.sent ms) q p')
            (sym (first_turns i m (take c.sent ms) p)) (later_chunk i c.sent _ _ p' o))
    ];
  }

  -- While the channel stays open and its socket works, and whatever the others send and writePump
  -- writes between the chunks, the sends of a snapshot do not panic: its chunks are queued one after
  -- the other, among the messages of the others, up to the first that finds the 256 places taken; that
  -- one is dropped and counted, and no later one is sent.
  pub send_chunks-Cut :
      (i : ℕ) (ms : List M) (p : Pipe M)
      → IsLive p
      → Returns (Cut i ms p) (send_chunks (λ k q. some (run (turns k) q)) i ms p)
  unfolding send_chunks
  send_chunks-Cut i [] p live = result (record { sent = 0; fits = tt; ends = inl (refl, refl) })
  send_chunks-Cut i (m ∷ ms) p live =
      let q = run (turns i) p in
      let still = (run-Accounted (turns i) p live).live in
      let after = (run-Accounted (send m ∷ []) q still).live in
      elim (Bool-cases (ltb (length q.queue) send_buffer)) [
        | inl room ↦ rw (send_chunk_room m q _ still.is_open room) (
            Returns-mono (λ r c. room-Cut i m ms p r (ltb→lt _ _ room) c)
              (send_chunks-Cut (suc i) ms (turn (send m) q) after))
        | inr full ↦ rw (send_chunk_full m q _ still.is_open full) (result (full-Cut i m ms p full))
      ]
