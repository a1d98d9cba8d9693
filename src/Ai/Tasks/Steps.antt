-- ===== src/Ai/Tasks/Steps.antt =====
-- What the three kinds of steps return.
use respondent_community.Common.{
  ℕ, suc, ◌≤◌, ◌<◌, ◌≡◌, refl, ap, subst, ◌∙◌, String, Bool, true, false, ◌||◌, Option, none, some,
  List, [], ◌∷◌, if◌then◌else◌, map_option, arith, string_eq, ◌==◌, eq_iff, Bool-cases, inl, inr,
}
use respondent_community.Common.Dict.{Dict, get, put, get-put, get-empty}
use respondent_community.Common.Int.{ℤ, pos, ◌≤ℤ◌, ltb_ℤ, leb_ℤ}
use respondent_community.Llm.Retry.{
  Attempt, answered, Result, response, permanent, context_error, exhausted, retryable_complete,
}
use respondent_community.Llm.Retry.Explained.{Ends, IsTransient, retryable_complete-Explained}
use respondent_community.Ai.Tasks.{
  StepResult, StepContext, StepConfig, Services, Checked, ok, err, Payload, CompletionRequest,
  completion_request, schema_key, deliver_all, execute_ai_step, ai_result, HttpReply,
  invalid_request, no_reply, reply, StepError, delivered, parsed_content, value, ai_step_with,
  render_failed, execute_http_step, http_result, method_of, execute_target_step, target_step_with,
  report, payload_of, or_error, bind_checked, default_max_retries,
}

-- The number of the last delivery to a target, when the first is the n-th.
abbrev pub last_call : String → ℕ → List String → Option ℕ
last_call t n [] = none
last_call t n (target ∷ targets) = elim (last_call t (suc n) targets) [
  | some k ↦ some k
  | none ↦ if target == t then some n else none
]

module _ {V : Type 0} (deliver : ℕ → String → Payload V → Option String) (payload : Payload V) where
  abbrev pub reported : String → Option ℕ → Option (Option String) → Option (Option String)
  reported t none before = before
  reported t (some k) before = some (deliver k t payload)

  get-deliver_all :
      (t : String) (n : ℕ) (targets : List String) (reports : Dict String (Option String))
      → get t (deliver_all deliver n targets payload reports)
        ≡ reported t (last_call t n targets) (get t reports)
  unfolding deliver_all
  get-deliver_all t n [] reports = refl
  get-deliver_all t n (target ∷ targets) reports =
      get-deliver_all t (suc n) targets (put target (deliver n target payload) reports)
      ∙ go (last_call t (suc n) targets)
    where
      go :
          (o : Option ℕ)
          → reported t o (get t (put target (deliver n target payload) reports))
            ≡ reported t
                (elim o [ some k ↦ some k | none ↦ if target == t then some n else none ])
                (get t reports)
      go (some k) = refl
      go none = elim (Bool-cases (target == t)) [
        | inl e ↦
            rw (get-put target t (deliver n target payload) reports, e)
              (ap (λ k. some (deliver n k payload)) ((eq_iff target t).0 e))
        | inr e ↦ rw (get-put target t (deliver n target payload) reports, e) refl
      ]

  reported_lem :
      (t : String) (o : Option ℕ) → reported t o none ≡ map_option (λ k. deliver k t payload) o
  reported_lem t none = refl
  reported_lem t (some k) = refl

or_error_ok : {A : Type 0} (e : StepError) (o : Option A) (a : A) → or_error e o ≡ ok a → o ≡ some a
or_error_ok e none a h = cc
or_error_ok e (some b) a h = cc

bind_ok :
    {A B : Type 0} (c : Checked A) (f : A → Checked B) (b : B)
    → bind_checked c f ≡ ok b
    → (a : A) × (c ≡ ok a) × (f a ≡ ok b)
bind_ok (ok a) f b h = (a, refl, h)
bind_ok (err e) f b h = cc

if_ok :
    {A : Type 0} (b : Bool) (e : StepError) (c : Checked A) (a : A)
    → (if b then err e else c) ≡ ok a
    → (b ≡ false) × (c ≡ ok a)
if_ok true e c a h = cc
if_ok false e c a h = (refl, h)

ok_inj : {A : Type 0} {a b : A} → ok a ≡ ok b → a ≡ b
ok_inj h = cc

-- An attempt gave the content, after at most two others that failed with a transient error.
pub record Gives (world : ℕ → Attempt String) (content : String) : Type 0 where
  pub last : ℕ
  pub room : last ≤ 2
  pub retried : (i : ℕ) → i < last → IsTransient (world i).outcome
  pub answer : (world last).outcome ≡ answered content

retryable_complete-Gives :
    (world : ℕ → Attempt String) (content : String)
    → (retryable_complete world default_max_retries).result ≡ response content
    → Gives world content
retryable_complete-Gives world content e =
    let x = retryable_complete-Explained world default_max_retries in
    let (count, last) =
      subst (Ends world 0 3 x.stop (retryable_complete world default_max_retries).calls) e x.ends in
    record {
      last = x.stop;
      room = omega (arith, count, x.bounded);
      retried = λ i h. x.retried i (omega arith) h;
      answer = last;
    }

module _ {V E F : Type 0} (services : Services V E F) (step : StepConfig F)
    (ctx : StepContext V E) where
  -- With a deliverer and a payload, a target step succeeds whatever the deliveries return, and
  -- reports of each target what the last delivery to it returned, and of no other target.
  pub execute_target_step_reports :
      (deliver : ℕ → String → Payload V → Option String) (payload : Payload V)
      → services.deliver ≡ some deliver
      → payload_of services step ctx ≡ ok payload
      → (reports : Dict String (Option String)) × (r : StepResult V) × (execute_target_step services
            step ctx
          ≡ ok r)
        × (r.result ≡ report reports)
        × ((t : String)
            → get t reports ≡ map_option (λ k. deliver k t payload) (last_call t 0 step.targets))
  unfolding execute_target_step delivered
  execute_target_step_reports deliver payload h p = (
    deliver_all deliver 0 step.targets payload [],
    delivered step deliver payload,
    ap (target_step_with services step ctx) h
        ∙ ap (λ c. bind_checked c (λ x. ok (delivered step deliver x))) p,
    refl,
    λ t.
        get-deliver_all deliver payload t 0 step.targets []
        ∙ (ap (reported deliver payload t (last_call t 0 step.targets)) (get-empty t)
            ∙ reported_lem deliver payload t (last_call t 0 step.targets)),
  )

  -- The request was answered in whole with a status from 200 to 299, and the body is the raw result.
  pub record Answered (r : StepResult V) (url : String) : Type 0 where
    pub status : ℤ
    pub accepted :
        services.http (record { method = method_of step; url = url; headers = step.headers })
        ≡ reply status (some r.raw)
    pub bounds : (pos 200 ≤ℤ status) × (status ≤ℤ pos 299)

  http_result-Answered :
      (r : StepResult V) (url : String) (h : HttpReply)
      → services.http (record { method = method_of step; url = url; headers = step.headers }) ≡ h
      → http_result services step h ≡ ok r
      → Answered r url
  http_result-Answered r url invalid_request same h = cc
  http_result-Answered r url no_reply same h = cc
  http_result-Answered r url (reply status none) same h = cc
  http_result-Answered r url (reply status (some body)) same h =
      let (fine, made) = if_ok (ltb_ℤ status (pos 200) || leb_ℤ (pos 300) status) _ _ r h in
      let raw : body ≡ r.raw = ap (λ x. x.raw) (ok_inj made) in
      record {
        status = status;
        accepted = same ∙ ap (λ b. reply status (some b)) raw;
        bounds = (ground (arith, fine), ground (arith, fine));
      }

  -- An HTTP step succeeds only if its URL could be rendered in the context and the request of its
  -- method and headers to that URL was answered in whole with a status from 200 to 299; its raw result
  -- is the body.
  pub execute_http_step-Answered :
      (r : StepResult V)
      → execute_http_step services step ctx ≡ ok r
      → (url : String) × (services.render step.url ctx ≡ some url) × Answered r url
  unfolding execute_http_step
  execute_http_step-Answered r h =
      let (url, rendered, sent) =
        bind_ok (or_error render_failed (services.render step.url ctx)) _ r h in
      (
        url,
        or_error_ok render_failed (services.render step.url ctx) url rendered,
        http_result-Answered r url _ refl sent,
      )

  abbrev pub request_of : String → String → CompletionRequest F
  request_of task prompt =
      completion_request services step prompt (services.schema_json (schema_key task step.name))

  -- What an AI step that succeeds was given.
  pub record Completed (task : String) (r : StepResult V) : Type 0 where
    pub complete : CompletionRequest F → ℕ → Attempt String
    pub configured : services.provider ≡ some complete
    pub prompt : String
    pub rendered : services.render step.prompt ctx ≡ some prompt
    pub given : Gives (complete (request_of task prompt)) r.raw

  ai_result_response :
      (task : String) (o : Result String) (r : StepResult V)
      → ai_result services task step o ≡ ok r
      → o ≡ response r.raw
  ai_result_response task (response content) r h =
      let (v, parsed, made) =
        bind_ok (parsed_content services task step content step.has_schema)
          (λ v. ok (record { name = step.name; result = value v; raw = content })) r h in
      ap (λ x. response (x.raw)) (ok_inj made)
  ai_result_response task (permanent e) r h = cc
  ai_result_response task (context_error e) r h = cc
  ai_result_response task (exhausted e) r h = cc

  ai_step-Completed :
      (task : String) (p : Option (CompletionRequest F → ℕ → Attempt String)) (r : StepResult V)
      → services.provider ≡ p
      → ai_step_with services task step ctx p ≡ ok r
      → Completed task r
  unfolding ai_step_with
  ai_step-Completed task none r same h = cc
  ai_step-Completed task (some complete) r same h =
      let (prompt, rendered, asked) =
        bind_ok (or_error render_failed (services.render step.prompt ctx)) _ r h in
      record {
        complete = complete;
        configured = same;
        prompt = prompt;
        rendered = or_error_ok render_failed (services.render step.prompt ctx) prompt rendered;
        given =
            retryable_complete-Gives (complete (request_of task prompt)) r.raw
              (ai_result_response task _ r asked);
      }

  -- An AI step succeeds only if its prompt could be rendered in the context and an attempt of the
  -- provider at the step's request gave its raw result, after at most two attempts that failed with a
  -- transient error.
  pub execute_ai_step-Completed :
      (task : String) (r : StepResult V)
      → execute_ai_step services task step ctx ≡ ok r
      → Completed task r
  unfolding execute_ai_step
  execute_ai_step-Completed task r h = ai_step-Completed task services.provider r refl h
