-- ===== src/Tests/Ingest.antt =====
-- A batcher of three messages, and the delays of a stream.
use respondent_community.Common.{
  ℕ, ◌*◌, ◌/◌, ◌≤◌, ◌≡◌, refl, arith, false, none, some, List, [], ◌∷◌, nat_eq, Yields,
}
use respondent_community.Ingest.Batcher.{
  Step, add, send_added, tick, send_ticked, receive, stop, BatchingSpec, new_batcher,
}
use respondent_community.Ingest.Batcher.Conservation.{run, Conserved, run-Conserved}
use respondent_community.Ingest.Backoff.{Backoff, second, reconnect_settings, reconnect_backoff}
use respondent_community.Ingest.Backoff.Delay.{ideal, reconnect_backoff_bounds}
use respondent_community.Ingest.Backoff.Reconnect.{
  Limits, Round, refused, ended, exhausted, reconnect_loop, reconnect_loop_exhausted,
}

abbrev spec : BatchingSpec
spec = record { per_message = false; max_size = 2 }

abbrev schedule : List (Step ℕ)
schedule = add 7 ∷ add 8 ∷ send_added ∷ add 9 ∷ tick ∷ receive ∷ send_ticked ∷ receive ∷ stop ∷ []

run-Conserved_example :
    Yields (Conserved schedule (new_batcher (some spec))) (run schedule (new_batcher (some spec)))
run-Conserved_example = run-Conserved schedule (new_batcher (some spec))

abbrev delays : Backoff
delays = record { backoff = "exponential"; initial_delay = second; max_delay = 60 * second }

reconnect_backoff_bounds_example :
    (ideal (reconnect_settings none) 70 / 2 ≤ reconnect_backoff (λ half. half / 2) none 70)
    × (reconnect_backoff (λ half. half / 2) none 70 ≤ ideal (reconnect_settings none) 70)
unfolding reconnect_settings
reconnect_backoff_bounds_example =
    reconnect_backoff_bounds (λ half. half / 2) none 70 (λ half. omega arith) refl (omega arith)

abbrev twice : Limits
twice = record { max_attempts = 2; reset_after = 300 * second }

abbrev forever : Limits
forever = record { max_attempts = 0; reset_after = 300 * second }

abbrev bad_day : List Round
bad_day = refused ∷ ended second ∷ refused ∷ []

reconnect_loop_exhausted_example : reconnect_loop twice 0 bad_day ≡ (2, some exhausted)
reconnect_loop_exhausted_example =
    reconnect_loop_exhausted twice 0 bad_day (omega arith) (omega arith)
      (tt, (omega arith, (tt, tt))) (omega arith)
