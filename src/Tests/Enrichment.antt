-- ===== src/Tests/Enrichment.antt =====
-- An operation whose model answers badly at first.
use respondent_community.Common.{
  ℕ, suc, ◌≡◌, refl, String, true, false, none, some, [], ◌∷◌, string_eq, ◌==◌, if◌then◌else◌,
}
use respondent_community.Common.Dict.{get, put}
use respondent_community.Common.Int.{pos}
use respondent_community.Llm.Retry.{answered}
use respondent_community.Ai.Enrichment.{
  pending, completed, done, create, finish, ask, patch, notify, remember, Operation, World, found,
  process_operation,
}
use respondent_community.Ai.Enrichment.Trail.{Settled}
use respondent_community.Ai.Enrichment.Settled.{process_operation-Settled}

abbrev rate : Operation
rate = record {
  name = "rate";
  filter = "";
  has_schema = true;
  output_mapping = ("level", "risk") ∷ [];
  target = "entity";
  patch_coordinates = false;
  cache_ttl = pos 60;
}

-- The first two answers do not fit the schema.
abbrev reply_at : ℕ → String
reply_at (suc (suc n)) = "high"
reply_at n = "?"

abbrev world : World String
world = record {
  creates_row = λ s. true;
  updates_row = λ s. false;
  has_cache = true;
  cached = λ key. none;
  entity = found;
  observation = none;
  evaluate = λ filter. none;
  rendered = some "Rate it";
  hash = λ text. "h1";
  decode = λ text. none;
  encode = λ result. "{}";
  complete = λ corrections n. record {
    canceled = none;
    jitter = 0;
    outcome = answered (reply_at corrections);
  };
  free_result = λ text. [];
  validate = λ text. if text == "high" then some (("level", text) ∷ []) else none;
  whole = λ result. "";
  patched = true;
  resolved = false;
  has_notifier = true;
}

third_answer : process_operation world "e1" rate ≡ (
  create pending true
      ∷ ask 1
      ∷ ask 1
      ∷ ask 1
      ∷ patch none (("risk", "high") ∷ []) true
      ∷ notify ("risk" ∷ [])
      ∷ remember "ai:enrich:e1:rate" "1"
      ∷ remember "ai:prompt:h1" "{}"
      ∷ finish completed false
      ∷ [],
  done,
)
unfolding process_operation get put
third_answer = refl

process_operation-Settled_example : Settled 3 (process_operation world "e1" rate)
process_operation-Settled_example = process_operation-Settled world "e1" rate
