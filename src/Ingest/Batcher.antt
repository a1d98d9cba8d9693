-- ===== src/Ingest/Batcher.antt =====
-- internal/ingest/declarative/batching.go: `Batcher`. The goroutine that adds messages and the one
-- that runs the timer each take a batch under the mutex and send it after they release it, so a batch
-- that is taken and not yet sent is a state of its own (`adder`, `ticker`; empty when there is none).
-- A step that blocks is `none`. `received` and `lost` record what became of the batches.
pub mod Conservation
use respondent_community.Common.{
  ℕ, ◌+◌, ◌≡◌, Bool, true, false, Option, none, some, List, [], ◌∷◌, ◌++◌, if◌then◌else◌, ltb, leb,
  length,
}
use respondent_community.Common.MultiMap.{is_nil}

abbrev pub flush_capacity : ℕ
flush_capacity = 16

pub record Batcher (M : Type 0) : Type 0 where
  pub per_message : Bool
  pub max_size : ℕ
  pub buffer : List M
  pub adder : List M
  pub ticker : List M
  pub channel : List (List M)
  pub received : List (List M)
  pub lost : List M
  pub stopped : Bool

-- `BatchingSpec`: whether the mode is per_message, and the size.
pub record BatchingSpec : Type 0 where
  pub per_message : Bool
  pub max_size : ℕ

pub data Step (M : Type 0) : Type 0 where
  add : M → Step M
  send_added : Step M
  tick : Step M
  send_ticked : Step M
  receive : Step M
  stop : Step M
  give_up_added : Step M
  give_up_ticked : Step M

module _ {M : Type 0} where
  abbrev pub empty_batcher : Bool → ℕ → Batcher M
  empty_batcher per size = record {
    per_message = per;
    max_size = size;
    buffer = [];
    adder = [];
    ticker = [];
    channel = [];
    received = [];
    lost = [];
    stopped = false;
  }

  -- `NewBatcher`
  unfoldable pub new_batcher : Option BatchingSpec → Batcher M
  new_batcher none = empty_batcher true 1000
  new_batcher (some spec) =
      empty_batcher spec.per_message (if ltb 0 spec.max_size then spec.max_size else 1000)

  -- The part of `Add` under the mutex.
  unfoldable pub take_message : M → Batcher M → Batcher M
  take_message m b =
      if b.per_message
      then record b { adder = m ∷ [] }
      else if leb b.max_size (length (b.buffer ++ m ∷ []))
      then record b { adder = b.buffer ++ m ∷ []; buffer = [] }
      else record b { buffer = b.buffer ++ m ∷ [] }

  unfoldable pub step : Step M → Batcher M → Option (Batcher M)
  unfolding take_message
  step (add m) b = if is_nil b.adder then some (take_message m b) else none
  step send_added b =
      if is_nil b.adder
      then none
      else if ltb (length b.channel) flush_capacity
      then some (record b { channel = b.channel ++ b.adder ∷ []; adder = [] })
      else none
  step tick b =
      if b.per_message
      then none
      else if is_nil b.ticker
      then some (record b { ticker = b.buffer; buffer = [] })
      else none
  step send_ticked b =
      if is_nil b.ticker
      then none
      else if ltb (length b.channel) flush_capacity
      then some (record b { channel = b.channel ++ b.ticker ∷ []; ticker = [] })
      else none
  step receive b = elim b.channel [
    | [] ↦ none
    | batch ∷ rest ↦ some (record b { channel = rest; received = b.received ++ batch ∷ [] })
  ]
  step stop b = some (record b { stopped = true })
  step give_up_added b =
      if b.stopped then some (record b { lost = b.lost ++ b.adder; adder = [] }) else none
  step give_up_ticked b =
      if b.stopped then some (record b { lost = b.lost ++ b.ticker; ticker = [] }) else none
