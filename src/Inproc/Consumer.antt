-- ===== src/Inproc/Consumer.antt =====
-- internal/infra/inproc/consumer.go: a consumer subscribes, hands each message to its handler until
-- its context ends, and gives the subscription back.
use respondent_community.Common.{◌≡◌, refl, List, [], ◌∷◌, ◌++◌, if◌then◌else◌}
use respondent_community.Inproc.Subject.{Bytes}
use respondent_community.Common.MultiMap.{is_nil}
use respondent_community.Inproc.Bus.{Bus, subscribe, unsubscribe, targets}
use respondent_community.Inproc.Bus.Delivery.{IsFresh, targets-unsubscribe-subscribe}

pub record ConsumerConfig : Type 0 where
  pub stream_name : Bytes
  pub filter_subject : Bytes

-- What the `select` of the loop delivers: a message, a closed channel, or the end of the context.
pub data Event : Type 0 where
  message : Bytes → Event
  closed : Event
  done : Event

abbrev pub consume_subject : ConsumerConfig → Bytes
consume_subject cfg = if is_nil cfg.filter_subject then cfg.stream_name else cfg.filter_subject

-- The messages for which the handler is called, in order.
unfoldable pub consume_loop : List Event → List Bytes
consume_loop [] = []
consume_loop (message d ∷ events) = d ∷ consume_loop events
consume_loop (closed ∷ events) = []
consume_loop (done ∷ events) = []

-- The call seen alone: the broker that it leaves, and the messages that it handled.
unfoldable pub consume : Bus → ConsumerConfig → List Event → Bus × List Bytes
consume b cfg events =
    let subject = consume_subject cfg in
    let (b', ch) = subscribe b subject in (unsubscribe b' subject ch, consume_loop events)

abbrev pub messages : List Bytes → List Event
messages [] = []
messages (d ∷ ds) = message d ∷ messages ds

consume_loop-done :
    (ds : List Bytes) (events : List Event) → consume_loop (messages ds ++ done ∷ events) ≡ ds
unfolding consume_loop
consume_loop-done [] events = refl
consume_loop-done (d ∷ ds) events = rw (consume_loop-done ds events)

-- A consumer handles every message that arrives before its context ends, in order and once each,
-- nothing that would arrive later, and leaves the targets of every subject as it found them.
pub consume_lem :
    (b : Bus) (cfg : ConsumerConfig) (ds : List Bytes) (later : List Event) (s : Bytes)
    → IsFresh b
    → ((consume b cfg (messages ds ++ done ∷ later)).1 ≡ ds)
      × (targets (consume b cfg (messages ds ++ done ∷ later)).0 s ≡ targets b s)
unfolding consume
consume_lem b cfg ds later s v =
    (consume_loop-done ds later, targets-unsubscribe-subscribe b (consume_subject cfg) s v)
