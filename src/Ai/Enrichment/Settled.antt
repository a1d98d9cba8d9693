-- ===== src/Ai/Enrichment/Settled.antt =====
-- What an operation leaves in the audit log and in the store.
use respondent_community.Common.{
  ℕ, zero, suc, ◌≤◌, ◌≡◌, ◌≢◌, ◌⊎◌, inl, inr, refl, ap, ◌∙◌, String, Bool, true, false, ◌&&◌,
  Option, none, some, List, [], ◌∷◌, arith, Bool-cases,
}
use respondent_community.Common.Dict.{Dict}
use respondent_community.Common.Int.{pos, ltb_ℤ}
use respondent_community.Llm.Retry.Explained.{retryable_complete-Explained}
use respondent_community.Llm.Retry.{
  retryable_complete, Result, response, permanent, context_error, exhausted,
}
use respondent_community.Ai.Enrichment.{
  pending, failed, completed, Outcome, done, Effect, create_audit_log, update_audit_log, ask, move,
  notify, remember, Operation, World, Lookup, found, not_found, lookup_failed, call_error,
  is_llm_transient, afterwards, after_patch, llm_call, store_result, keys, apply_output_mapping,
  entity_cache_key, before, stored_or, checked, answer_model, ask_model, answered_with, prompted,
  passes, is_hit, loaded, process_operation,
}
use respondent_community.Ai.Enrichment.Trail.{
  creates, finishes, patches, Trail, unwritten, unloaded, rejected, unrendered, broken, finished,
  Settled, Closed, terminal_not_done, transient_not_done, transient_or_terminal, tally, tally_if,
}

module _ {V : Type 0} (w : World V) (entity : String) (op : Operation) where
  tally-afterwards :
      (prompt_key : String) (fields result : Dict String V)
      → tally (afterwards w entity op prompt_key fields result)
        ≡ ([], (completed, w.updates_row completed) ∷ [], 0, 0, 0)
  tally-afterwards prompt_key fields result =
      tally_if (op.patch_coordinates && w.resolved) (move ∷ []) _ tt
      ∙ (tally_if w.has_notifier (notify (keys fields) ∷ []) _ tt
          ∙ tally_if (ltb_ℤ (pos 0) op.cache_ttl && w.has_cache)
              (remember (entity_cache_key entity op.name) "1"
                ∷ remember prompt_key (w.encode result)
                ∷ [])
              (update_audit_log w entity op completed ∷ []) tt)

  after_patch-Closed :
      (prompt_key : String) (fields result : Dict String V) (good : Bool)
      → Closed 0 (after_patch w entity op prompt_key fields result good)
  after_patch-Closed prompt_key fields result true =
      let t = tally-afterwards prompt_key fields result in
      record {
        opened = ap (λ x. x.0) t;
        closing = inr (w.updates_row completed, ap (λ x. x.1) t, ap (λ x. suc x.2) t, refl);
        asked = omega (arith, ap (λ x. x.3) t);
        called = omega (arith, ap (λ x. x.4) t);
      }
  after_patch-Closed prompt_key fields result false = record {
    opened = refl;
    closing = inl (w.updates_row failed, refl, refl, transient_not_done _);
    asked = omega arith;
    called = omega arith;
  }

  store_result-Closed :
      (prompt_key : String) (result : Dict String V)
      → Closed 0 (store_result w entity op prompt_key result)
  unfolding store_result
  store_result-Closed prompt_key result =
      after_patch-Closed prompt_key (apply_output_mapping w.whole op result) result w.patched

  failed-Closed :
      (limit : ℕ) (o : Outcome)
      → o ≢ done
      → Closed {V = V} limit (update_audit_log w entity op failed ∷ [], o)
  failed-Closed limit o h = record {
    opened = refl;
    closing = inl (w.updates_row failed, refl, refl, h);
    asked = omega arith;
    called = omega arith;
  }

  call_error_not_done :
      (r : Result String) → ((content : String) → r ≢ response content) → call_error r ≢ done
  unfolding call_error
  call_error_not_done (response content) h = absurd (h content refl)
  call_error_not_done (permanent e) h = transient_or_terminal (is_llm_transient e)
  call_error_not_done (context_error e) h = transient_or_terminal (is_llm_transient e)
  call_error_not_done (exhausted none) h = terminal_not_done llm_call
  call_error_not_done (exhausted (some e)) h = transient_or_terminal (is_llm_transient e)

  more : (limit : ℕ) (run : List (Effect V) × Outcome) → Closed 0 run → Closed limit run
  more limit run c = record {
    opened = c.opened;
    closing = c.closing;
    asked = omega (arith, c.asked);
    called = omega (arith, c.called);
  }

  stored-Closed :
      (prompt_key : String) (o : Option (Dict String V)) (limit : ℕ)
      (retry : List (Effect V) × Outcome)
      → Closed limit retry
      → Closed limit (stored_or w entity op prompt_key o retry)
  unfolding stored_or
  stored-Closed prompt_key none limit retry c = c
  stored-Closed prompt_key (some result) limit retry c =
      more limit _ (store_result-Closed prompt_key result)

  answer-Closed :
      (prompt_key : String) (r : Result String) (limit : ℕ) (retry : List (Effect V) × Outcome)
      → Closed limit retry
      → Closed limit (answer_model w entity op prompt_key r retry)
  unfolding answer_model
  answer-Closed prompt_key (response content) limit retry c =
      stored-Closed prompt_key (checked w entity op content) limit retry c
  answer-Closed prompt_key (permanent e) limit retry c =
      failed-Closed limit _ (call_error_not_done (permanent e) (λ content h. cc))
  answer-Closed prompt_key (context_error e) limit retry c =
      failed-Closed limit _ (call_error_not_done (context_error e) (λ content h. cc))
  answer-Closed prompt_key (exhausted e) limit retry c =
      failed-Closed limit _ (call_error_not_done (exhausted e) (λ content h. cc))

  ask-Closed :
      (limit calls : ℕ) (run : List (Effect V) × Outcome)
      → Closed limit run
      → calls ≤ 3
      → Closed (suc limit) (before w entity op (ask calls) run)
  ask-Closed limit calls run c few = record {
    opened = c.opened;
    closing = c.closing;
    asked = omega (arith, c.asked);
    called = omega (arith, c.called, few);
  }

  few_calls : (corrections : ℕ) → (retryable_complete (w.complete corrections) (pos 2)).calls ≤ 3
  few_calls corrections =
      omega (arith, (retryable_complete-Explained (w.complete corrections) (pos 2)).bounded)

  ask_model-Closed :
      (prompt_key : String) (left corrections : ℕ)
      → Closed (suc left) (ask_model w entity op prompt_key left corrections)
  unfolding ask_model
  ask_model-Closed prompt_key zero corrections =
      ask-Closed 0 _ _ (answer-Closed prompt_key _ 0 _ (failed-Closed 0 _ (terminal_not_done _)))
        (few_calls corrections)
  ask_model-Closed prompt_key (suc left) corrections =
      ask-Closed (suc left) _ _
        (answer-Closed prompt_key _ (suc left) _
          (ask_model-Closed prompt_key left (suc corrections)))
        (few_calls corrections)

  answered-Closed :
      (prompt_key : String) (o : Option (Dict String V))
      → Closed 3 (answered_with w entity op prompt_key o)
  unfolding answered_with ask_model
  answered-Closed prompt_key none = ask_model-Closed prompt_key 2 0
  answered-Closed prompt_key (some result) = more 3 _ (store_result-Closed prompt_key result)

  Closed-Settled :
      (run : List (Effect V) × Outcome)
      → Closed 3 run
      → Settled 3 (before w entity op (create_audit_log w entity op pending) run)
  Closed-Settled run c = record { trail = go c.closing; asked = c.asked; called = c.called }
    where
      go :
          ((u : Bool) × (finishes run.0 ≡ (failed, u) ∷ []) × (patches run.0 ≡ 0) × (run.1 ≢ done))
            ⊎ ((u : Bool) × (finishes run.0 ≡ (completed, u) ∷ [])
                × (patches run.0 ≡ 1)
                × (run.1 ≡ done))
          → Trail
              ((pending, w.creates_row pending) ∷ creates run.0)
              (finishes run.0)
              (patches run.0)
              run.1
      go (inl (u, f, p, o)) = rw (c.opened, f, p) (broken o)
      go (inr (u, f, p, o)) = rw (c.opened, f, p, o) finished

  prompted-Settled : (o : Option String) → Settled 3 (prompted w entity op o)
  unfolding prompted
  prompted-Settled none = record { trail = unrendered; asked = omega arith; called = omega arith }
  prompted-Settled (some text) = Closed-Settled _ (answered-Closed _ _)

  loaded-Settled : (l : Lookup) → Settled 3 (loaded w entity op l)
  unfolding loaded
  loaded-Settled not_found = record { trail = unwritten; asked = omega arith; called = omega arith }
  loaded-Settled lookup_failed = record {
    trail = unloaded;
    asked = omega arith;
    called = omega arith;
  }
  loaded-Settled found = elim (Bool-cases (passes w entity op)) [
    | inl on ↦ rw on (prompted-Settled w.rendered)
    | inr off ↦ rw off (record { trail = rejected; asked = omega arith; called = omega arith })
  ]

  -- Whatever the caches, the store, the filter, the audit log and the model give, an operation asks the
  -- model at most three times, in at most nine calls of the provider, and settles: it writes nothing, or
  -- one audit row as skipped or failed, or one pending row with one update, to failed or to completed.
  -- So a row stays pending only where the audit log does not take that update. An operation with a
  -- pending row is done only after one patch succeeded and the update is to completed, and every error
  -- after the entity was loaded leaves no patch.
  pub process_operation-Settled : Settled 3 (process_operation w entity op)
  unfolding process_operation
  process_operation-Settled =
      elim (Bool-cases (w.has_cache && is_hit (w.cached (entity_cache_key entity op.name)))) [
        | inl hit ↦ rw hit (record { trail = unwritten; asked = omega arith; called = omega arith })
        | inr miss ↦ rw miss (loaded-Settled w.entity)
      ]
