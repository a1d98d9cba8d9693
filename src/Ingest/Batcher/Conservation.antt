-- ===== src/Ingest/Batcher/Conservation.antt =====
-- What the batcher does with the messages that are added to it.
use respondent_community.Common.{
  ℕ, ◌+◌, ◌≡◌, refl, ap, ◌∙◌, true, false, Option, none, some, List, [], ◌∷◌, ◌++◌, ltb, length,
  arith, Eq, count, Yields, no_result, yields, if_Yields, bind-Yields, Yields-mono, count-append,
  ◌>>=◌,
}
use respondent_community.Common.MultiMap.{is_nil}
use respondent_community.Ingest.Batcher.{
  Batcher, Step, add, send_added, tick, send_ticked, receive, stop, give_up_added, give_up_ticked,
  take_message, step, flush_capacity,
}

module _ {M : Type 0} ⦃e : Eq M⦄ where
  abbrev pub count_all : M → List (List M) → ℕ
  count_all x [] = 0
  count_all x (batch ∷ batches) = count x batch + count_all x batches

  count_all-append :
      (x : M) (bs cs : List (List M)) → count_all x (bs ++ cs) ≡ count_all x bs + count_all x cs
  count_all-append x [] cs = omega arith
  count_all-append x (b ∷ bs) cs = omega (arith, count_all-append x bs cs)

  -- Where the copies of a message are.
  abbrev pub tally : M → Batcher M → ℕ
  tally x b =
      count x b.buffer
      + count x b.adder
      + count x b.ticker
      + count_all x b.channel
      + count_all x b.received
      + count x b.lost

  abbrev pub added : M → Step M → ℕ
  added x (add m) = count x (m ∷ [])
  added x _ = 0

  is_nil_count : (x : M) (l : List M) → is_nil l ≡ true → count x l ≡ 0
  is_nil_count x [] h = refl
  is_nil_count x (m ∷ l) h = cc

  -- The step keeps every message, and loses none unless the batcher is stopped.
  pub record Kept (s : Step M) (b b' : Batcher M) : Type 0 where
    pub tallied : (x : M) → tally x b' ≡ tally x b + added x s
    pub unlost : b'.stopped ≡ false → (b'.lost ≡ b.lost) × (b.stopped ≡ false)

  take_message-Kept :
      (m : M) (b : Batcher M) → is_nil b.adder ≡ true → Kept (add m) b (take_message m b)
  unfolding take_message
  take_message-Kept m b idle = record {
    tallied = λ x. ground (arith, is_nil_count x b.adder idle, count-append x b.buffer (m ∷ []));
    unlost = λ h. (ground arith, ground arith);
  }

  step-Kept : (s : Step M) (b : Batcher M) → Yields (Kept s b) (step s b)
  unfolding step
  step-Kept (add m) b =
      if_Yields (is_nil b.adder) (some (take_message m b)) none
        (λ idle. yields (take_message-Kept m b idle)) (λ busy. no_result)
  step-Kept send_added b =
      if_Yields (is_nil b.adder) none _ (λ idle. no_result)
        (λ busy.
          if_Yields (ltb (length b.channel) flush_capacity) _ none
            (λ room. yields (record {
              tallied = λ x. omega (arith, count_all-append x b.channel (b.adder ∷ []));
              unlost = λ h. (refl, h);
            }))
            (λ full. no_result))
  step-Kept tick b =
      if_Yields b.per_message none _ (λ per. no_result)
        (λ window.
          if_Yields (is_nil b.ticker) _ none
            (λ idle. yields (record {
              tallied = λ x. omega (arith, is_nil_count x b.ticker idle);
              unlost = λ h. (refl, h);
            }))
            (λ busy. no_result))
  step-Kept send_ticked b =
      if_Yields (is_nil b.ticker) none _ (λ idle. no_result)
        (λ busy.
          if_Yields (ltb (length b.channel) flush_capacity) _ none
            (λ room. yields (record {
              tallied = λ x. omega (arith, count_all-append x b.channel (b.ticker ∷ []));
              unlost = λ h. (refl, h);
            }))
            (λ full. no_result))
  step-Kept receive b = go b.channel refl
    where
      go :
          (c : List (List M))
          → b.channel ≡ c
          → Yields (Kept receive b) (elim c [
            | [] ↦ none
            | batch ∷ rest ↦ some (record b { channel = rest; received = b.received ++ batch ∷ [] })
          ])
      go [] h = no_result
      go (batch ∷ rest) h = yields (record {
        tallied =
            λ x. ground (arith, count_all-append x b.received (batch ∷ []), ap (count_all x) h);
        unlost = λ live. (refl, live);
      })
  step-Kept stop b = yields (record { tallied = λ x. omega arith; unlost = λ h. cc })
  step-Kept give_up_added b =
      if_Yields b.stopped _ none
        (λ on. yields (record {
          tallied = λ x. omega (arith, count-append x b.lost b.adder);
          unlost = λ h. cc;
        }))
        (λ off. no_result)
  step-Kept give_up_ticked b =
      if_Yields b.stopped _ none
        (λ on. yields (record {
          tallied = λ x. omega (arith, count-append x b.lost b.ticker);
          unlost = λ h. cc;
        }))
        (λ off. no_result)

  unfoldable pub run : List (Step M) → Batcher M → Option (Batcher M)
  unfolding step
  run [] b = some b
  run (s ∷ ss) b = step s b >>= λ b'. run ss b'

  abbrev pub added_all : M → List (Step M) → ℕ
  added_all x [] = 0
  added_all x (s ∷ ss) = added x s + added_all x ss

  -- The steps keep every message, and lose none unless they stop the batcher.
  pub record Conserved (ss : List (Step M)) (b b' : Batcher M) : Type 0 where
    pub tallied : (x : M) → tally x b' ≡ tally x b + added_all x ss
    pub unlost : b'.stopped ≡ false → (b'.lost ≡ b.lost) × (b.stopped ≡ false)

  -- However the adding goroutine, the timer and the consumer are interleaved, every copy of a message
  -- that was added is in exactly one place: received, in the channel, in a batch about to be sent, in
  -- the buffer, or in a batch given up; and none is given up before the batcher is stopped.
  pub run-Conserved : (ss : List (Step M)) (b : Batcher M) → Yields (Conserved ss b) (run ss b)
  unfolding run
  run-Conserved [] b = yields (record { tallied = λ x. omega arith; unlost = λ h. (refl, h) })
  run-Conserved (s ∷ ss) b =
      bind-Yields (λ b'. run ss b')
        (λ b' k.
          Yields-mono
            (λ b'' c. record {
              tallied = λ x. omega (arith, c.tallied x, k.tallied x);
              unlost = λ h.
                  let (same, live) = c.unlost h in
                  let (first, start) = k.unlost live in (same ∙ first, start);
            })
            (run-Conserved ss b'))
        (step-Kept s b)
