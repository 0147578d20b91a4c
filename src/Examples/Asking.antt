-- ===== src/Examples/Asking.antt =====
-- A request to a language model, at concrete data.
use smart_log.Base.{◌≡◌, ◌↔◌, refl, [], ◌∷◌}
use smart_log.Errors.{ok}
use smart_log.Json.{Fields, array_of, object, text, no_fields, field}
use smart_log.Http.{attempts, is_settled_or_late}
use smart_log.Json.{field_value}
use smart_log.Templates.{Tools}
use smart_log.LanguageModel.{ModelCall, ask}
use smart_log.LanguageModel.Answered.{Answered, ask-Answered}
use smart_log.Examples.Memory.{memory}
use smart_log.Examples.Sending.{flaky, tools, request, bare, hooked}

abbrev answer : Fields
answer =
    field "choices"
      (array_of (
        object (field "message" (object (field "content" (text "disk full") no_fields)) no_fields)
        ∷ []))
      no_fields

abbrev answering : Tools
answering = record tools { decode = λ body. ok answer }

abbrev call : ModelCall
call = record {
  api_key = "key";
  request = request;
  result_path = "choices" ∷ "0" ∷ "message" ∷ "content" ∷ [];
}

-- The first attempt gets a 503, the second one the answer.
answer_runs : (ask memory flaky answering bare call hooked).0 ≡ ok "disk full"
unfolding ask attempts is_settled_or_late field_value
answer_runs = refl

ask-Answered_example :
    ((ask memory flaky answering bare call hooked).0 ≡ ok "disk full")
    ↔ Answered memory flaky answering call hooked "disk full"
ask-Answered_example = ask-Answered memory flaky answering bare call hooked "disk full"
