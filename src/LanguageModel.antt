-- ===== src/LanguageModel.antt =====
-- internal/controller/monitorpod_controller.go: `callLanguageModel` and `enrichWithAI`. `none` is the panic of a
-- provider whose type has no section.
pub mod Path
pub mod Answered
use smart_log.Base.{
  ℕ, ltb, String, ◌<>◌, ◌==◌, Bool, true, false, Option, none, some, List, [], ◌∷◌, if◌then◌else◌,
}
use smart_log.Errors.{Error, Result, ok, err, message, wrapped, is_deadline_exceeded}
use smart_log.Api.{
  SecretKeySelector, AiProvider, GeminiProviderSpec, OpenAiProviderSpec, MonitorPod, NamespacedName,
  AiEnrichmentSpec,
}
use smart_log.Secrets.{GetSecret}
use smart_log.Cluster.{Cluster}
use smart_log.Json.{
  Json, null, boolean, number, text, array, object, Items, no_items, item, Fields, no_fields, field,
}
use smart_log.Json.{array_of, field_value}
use smart_log.Templates.{TemplateData, AiData, Tools, render}
use smart_log.Http.{Http, Request, Response, attempts, is_settled_or_late}
use smart_log.Senders.{get_secret_value}

-- What the switch over the provider's type computes: the key, the request and the path of the text in the response.
pub record ModelCall : Type 0 where
  pub api_key : String
  pub request : Request
  pub result_path : List String

abbrev pub or_default : String → String → String
or_default configured otherwise = if configured == "" then otherwise else configured

unfoldable pub gemini_call : Tools → GetSecret → String → GeminiProviderSpec → String → ModelCall
unfolding get_secret_value
gemini_call tools get namespace spec prompt =
    let api_key = get_secret_value get namespace (some spec.api_key_secret_ref) in
    let base_url = or_default spec.base_url "https://generativelanguage.googleapis.com" in
    let model = or_default spec.model "gemini-1.5-flash" in
    let part = object (field "text" (text prompt) no_fields) in
    let content = object (field "parts" (array_of (part ∷ [])) no_fields) in
    record {
      api_key = api_key;
      request = record {
        url = base_url <> ("/v1beta/models/" <> (model <> (":generateContent?key=" <> api_key)));
        headers = ("Content-Type", "application/json") ∷ [];
        body = tools.marshal (object (field "contents" (array_of (content ∷ [])) no_fields));
      };
      result_path = "candidates" ∷ "0" ∷ "content" ∷ "parts" ∷ "0" ∷ "text" ∷ [];
    }

unfoldable pub open_ai_call : Tools → GetSecret → String → OpenAiProviderSpec → String → ModelCall
unfolding get_secret_value
open_ai_call tools get namespace spec prompt =
    let api_key = get_secret_value get namespace (some spec.api_key_secret_ref) in
    let base_url = or_default spec.base_url "https://api.openai.com" in
    let model = or_default spec.model "gpt-3.5-turbo" in
    let asked = object (field "role" (text "user") (field "content" (text prompt) no_fields)) in
    record {
      api_key = api_key;
      request = record {
        url = base_url <> "/v1/chat/completions";
        headers =
            ("Content-Type", "application/json") ∷ ("Authorization", "Bearer " <> api_key) ∷ [];
        body = tools.marshal (
            object
              (field "model" (text model) (field "messages" (array_of (asked ∷ [])) no_fields)));
      };
      result_path = "choices" ∷ "0" ∷ "message" ∷ "content" ∷ [];
    }

unfoldable pub model_call : Tools → GetSecret → AiProvider → String → Option (Result ModelCall)
unfolding gemini_call open_ai_call
model_call tools get provider prompt =
    if provider.spec.kind == "Gemini"
    then elim provider.spec.gemini [
      | none ↦ none
      | some spec ↦ some (ok (gemini_call tools get provider.namespace spec prompt))
    ]
    else if provider.spec.kind == "OpenAI"
    then elim provider.spec.open_ai [
      | none ↦ none
      | some spec ↦ some (ok (open_ai_call tools get provider.namespace spec prompt))
    ]
    else some (err (message ("unsupported AI provider type: " <> provider.spec.kind)))

-- The path's segments, joined by dots.
unfoldable pub dotted : List String → String
dotted [] = ""
dotted (p ∷ []) = p
dotted (p ∷ q ∷ rest) = p <> ("." <> dotted (q ∷ rest))

-- The first element of an array, whatever the segment says.
unfoldable pub first_item : String → Items → Result Json
first_item part no_items =
    err (message ("failed to parse AI response: array is empty at path segment " <> part))
first_item part (item v rest) = ok v

-- One step of the loop over the path: the whole path is for the error's text.
unfoldable pub step_into : List String → String → Json → Result Json
unfolding dotted first_item
step_into whole part (object fields) = ok (field_value part fields)
step_into whole part (array elements) = first_item part elements
step_into whole part null = err (message ("failed to parse AI response at path: " <> dotted whole))
step_into whole part (boolean b) =
    err (message ("failed to parse AI response at path: " <> dotted whole))
step_into whole part (number n) =
    err (message ("failed to parse AI response at path: " <> dotted whole))
step_into whole part (text t) =
    err (message ("failed to parse AI response at path: " <> dotted whole))

unfoldable pub as_text : Json → Result String
as_text (text t) = ok t
as_text null = err (message "unexpected AI response format")
as_text (boolean b) = err (message "unexpected AI response format")
as_text (number n) = err (message "unexpected AI response format")
as_text (array elements) = err (message "unexpected AI response format")
as_text (object members) = err (message "unexpected AI response format")

unfoldable pub extract : List String → List String → Json → Result String
unfolding step_into as_text
extract whole [] value = as_text value
extract whole (part ∷ parts) value = elim (step_into whole part value) [
  | err e ↦ err e
  | ok next ↦ extract whole parts next
]

-- What becomes of the last response.
unfoldable pub model_answer : Tools → List String → Result Response → Result String
unfolding extract
model_answer tools path (err e) =
    if is_deadline_exceeded e
    then err e
    else err (wrapped "request to AI provider failed after 3 attempts: " e "")
model_answer tools path (ok response) =
    if ltb response.status_code 400
    then elim (tools.decode response.body) [
      | err e ↦ err e
      | ok fields ↦ extract path path (object fields)
    ]
    else err
        (message ("AI provider returned error status " <> (response.status <> " after 3 attempts")))

module _ (C : Cluster) (http : Http C.State) (tools : Tools) where
  unfoldable pub ask : AiProvider → ModelCall → C.State → Result String × C.State
  unfolding model_answer
  ask provider call s =
      if call.api_key == ""
      then (err (message ("API key for provider " <> (provider.name <> " is empty"))), s)
      else elim (http.request_error call.request.url) [
        | some e ↦ (err (wrapped "failed to create http request: " e ""), s)
        | none ↦
            let out = attempts http is_settled_or_late call.request 2 0 s in
            (model_answer tools call.result_path out.0, out.1)
      ]

  unfoldable pub call_language_model :
      AiProvider → String → C.State → Option (Result String × C.State)
  unfolding model_call ask
  call_language_model provider prompt s = elim (model_call tools (C.get_secret s) provider prompt) [
    | none ↦ none
    | some (err e) ↦ some (err e, s)
    | some (ok call) ↦ some (ask provider call s)
  ]
