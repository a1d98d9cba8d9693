-- ===== src/Tests/Delivery.antt =====
-- The server's loop, a client's channel, and the messages that it is sent.
use respondent_community.Common.{
  ℕ, ◌≡◌, refl, arith, true, List, [], ◌∷◌, take, drop, Returns, ◌+◌, Option, some, none,
  if◌then◌else◌, eqb,
}
use respondent_community.Common.Int.{pos}
use respondent_community.Realtime.Filter.{NotificationMeta}
use respondent_community.Realtime.Pump.{Pipe, new_pipe, close}
use respondent_community.Realtime.Pump.Accounting.{
  Turn, send, write, run, IsLive, Accounted, run-Accounted,
}
use respondent_community.Realtime.Hub.{
  Hub, Event, new_hub, connect, unregister, broadcast, notify, deliver, shutdown,
}
use respondent_community.Realtime.Hub as Hub
use respondent_community.Realtime.Hub.Channels.{IsSound}
use respondent_community.Realtime.Hub.Safety.{new_hub-IsSound, run-IsSound}
use respondent_community.Realtime.Paging.{LayerStore, send_chunks, page_limit}
use respondent_community.Realtime.Paging.Chunks.{Cut, send_chunks-Cut}
use respondent_community.Realtime.Paging.Crawl.{crawl_layer, crawl_layer_complete}
use respondent_community.Realtime.Subscribe.{global_limit}

abbrev meta : NotificationMeta
meta = record { attention = "high"; insight_type = "anomaly"; layer_type = "flights" }

-- Client 0 leaves twice.
abbrev day : List (Event ℕ)
day =
    connect
    ∷ connect
    ∷ broadcast 5
    ∷ unregister 0
    ∷ notify meta 6
    ∷ deliver 0 7
    ∷ unregister 0
    ∷ Hub.write 1 true true
    ∷ shutdown
    ∷ broadcast 8
    ∷ []

run-IsSound_example : Returns IsSound (Hub.run day new_hub)
run-IsSound_example = run-IsSound day new_hub new_hub-IsSound

abbrev fresh_pipe : Pipe ℕ
fresh_pipe = new_pipe

fresh_pipe-IsLive : IsLive fresh_pipe
unfolding new_pipe
fresh_pipe-IsLive = record { is_open = refl; runs = refl; bounded = omega arith }

abbrev turns : List (Turn ℕ)
turns = send 1 ∷ send 2 ∷ write ∷ send 3 ∷ []

run-Accounted_example : Accounted turns fresh_pipe (run turns fresh_pipe)
run-Accounted_example = run-Accounted turns fresh_pipe fresh_pipe-IsLive

abbrev rows : List ℕ
rows = 1 ∷ 2 ∷ 3 ∷ []

-- Before every chunk another message is sent, and one is written.
abbrev busy : ℕ → List (Turn ℕ)
busy i = send (10 + i) ∷ write ∷ []

send_chunks-Cut_example :
    Returns
      (Cut busy 0 rows fresh_pipe)
      (send_chunks (λ k q. some (run (busy k) q)) 0 rows fresh_pipe)
send_chunks-Cut_example = send_chunks-Cut busy 0 rows fresh_pipe fresh_pipe-IsLive

abbrev closes_at_1 : ℕ → Pipe ℕ → Option (Pipe ℕ)
closes_at_1 i p = if eqb i 1 then close p else some p

-- The server closes the channel after the first chunk.
closed_between : send_chunks closes_at_1 0 rows fresh_pipe ≡ none
unfolding send_chunks close new_pipe
closed_between = refl

abbrev layer : LayerStore ℕ
layer = record {
  rows = rows;
  page = λ limit offset. take limit (drop offset rows);
  count = 3;
  page_lem = λ limit offset. refl;
  count_lem = refl;
}

crawl_layer_complete_example :
    crawl_layer layer 4 (global_limit (pos 1)) (page_limit (pos 2)) ≡ rows
crawl_layer_complete_example = crawl_layer_complete layer 4 (pos 1) (pos 2) (omega arith)
