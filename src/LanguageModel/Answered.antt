-- ===== src/LanguageModel/Answered.antt =====
-- When the language model gives a text.
use smart_log.Base.{
  ℕ, ◌≤◌, String, ◌==◌, ◌≡◌, refl, sym, ap, ◌∙◌, ◌↔◌, inl, inr, true, false, Bool-cases, none,
  Option-cases, List, ltb, arith,
}
use smart_log.Errors.{Error, ok, err, Result-cases, is_deadline_exceeded}
use smart_log.Api.{AiProvider}
use smart_log.Cluster.{Cluster}
use smart_log.Json.{Fields, object}
use smart_log.Templates.{Tools}
use smart_log.Http.{Http, Response, attempts, is_settled, is_settled_or_late}
use smart_log.Http.Tries.{Tried, sent, Ends, attempts-Ends, attempts_stopped}
use smart_log.LanguageModel.{ModelCall, model_answer, ask}
use smart_log.LanguageModel.Path.{At, extract_exact}

-- A response without an error status, whose body has the text at the path.
abbrev pub Holds : Tools → List String → Response → String → Type 0
Holds tools path response t =
    (ltb response.status_code 400 ≡ true)
    × (fields : Fields) × (tools.decode response.body ≡ ok fields)
    × At path (object fields) t

module _ (tools : Tools) (path : List String) where
  answer-Holds :
      (response : Response) (t : String)
      → model_answer tools path (ok response) ≡ ok t
      → Holds tools path response t
  unfolding model_answer
  answer-Holds response t h = elim (Bool-cases (ltb response.status_code 400)) [
    | inr e ↦ let h' = rw (e, model_answer) at h in absurd cc
    | inl e ↦ elim (Result-cases (tools.decode response.body)) [
      | inr (x, f) ↦ let h' = rw (e, f, model_answer) at h in absurd cc
      | inl (fields, f) ↦
          let h' = rw (e, f, model_answer) at h in
          (e, fields, f, (extract_exact path path (object fields) t).0 h')
    ]
  ]

  Holds-answer :
      (response : Response) (t : String)
      → Holds tools path response t
      → model_answer tools path (ok response) ≡ ok t
  unfolding model_answer
  Holds-answer response t (accepted, fields, decoded, at) =
      rw (model_answer, accepted, decoded) ((extract_exact path path (object fields) t).1 at)

  error_unanswered : (e : Error) (t : String) → model_answer tools path (err e) ≡ ok t → ⊥
  unfolding model_answer
  error_unanswered e t h = elim (Bool-cases (is_deadline_exceeded e)) [
    | inl p ↦ let h' = rw (p, model_answer) at h in cc
    | inr p ↦ let h' = rw (p, model_answer) at h in cc
  ]

-- A response below 400 stops the loop.
accepted_stops :
    (response : Response)
    → ltb response.status_code 400 ≡ true
    → is_settled_or_late (ok response) ≡ true
unfolding is_settled_or_late is_settled
accepted_stops response h = ground arith

module _ (C : Cluster) (http : Http C.State) (tools : Tools) where
  -- There is a key, the request can be built, and one of its at most three attempts, after attempts that
  -- did not stop the loop, gets a response that holds the text.
  pub Answered : ModelCall → C.State → String → Type 0
  Answered call s t =
      ((call.api_key == "") ≡ false)
      × (http.request_error call.request.url ≡ none)
      × (k : ℕ) × (u : C.State) × (response : Response) × Tried http is_settled_or_late call.request
          k 0 s u
      × (k ≤ 2)
      × ((sent http is_settled_or_late call.request k u).0 ≡ ok response)
      × Holds tools call.result_path response t

  asked :
      (provider : AiProvider) (call : ModelCall) (s : C.State)
      → (call.api_key == "") ≡ false
      → http.request_error call.request.url ≡ none
      → (ask C http tools provider call s).0
        ≡ model_answer tools call.result_path
            (attempts http is_settled_or_late call.request 2 0 s).0
  unfolding ask
  asked provider call s e f = rw (ask, e, f) refl

  attempts-Answered :
      (call : ModelCall) (s : C.State) (t : String)
      → (call.api_key == "") ≡ false
      → http.request_error call.request.url ≡ none
      → model_answer tools call.result_path (attempts http is_settled_or_late call.request 2 0 s).0
        ≡ ok t
      → Answered call s t
  unfolding Answered Ends
  attempts-Answered call s t e f h =
      let (k, u, path, le, out, last) = attempts-Ends http is_settled_or_late call.request 2 0 s in
      let same = out ∙ ap (λ n. sent http is_settled_or_late call.request n u) (omega arith) in
      let here = ap (λ o. model_answer tools call.result_path o.0) (sym same) ∙ h in
      elim (Result-cases (sent http is_settled_or_late call.request k u).0) [
        | inr (x, p) ↦ absurd (
            error_unanswered tools call.result_path x t
              (ap (model_answer tools call.result_path) (sym p) ∙ here))
        | inl (response, p) ↦ (
          e,
          f,
          k,
          u,
          response,
          path,
          le,
          p,
          answer-Holds tools call.result_path response t
              (ap (model_answer tools call.result_path) (sym p) ∙ here),
        )
      ]

  -- The language model's answer to a request is a text exactly when there is a key, the request can be
  -- built, and one of at most three attempts, after attempts that did not stop the loop, gets a
  -- response without an error status whose body has the text at the provider's path.
  pub ask-Answered :
      (provider : AiProvider) (call : ModelCall) (s : C.State) (t : String)
      → ((ask C http tools provider call s).0 ≡ ok t) ↔ Answered call s t
  unfolding ask Answered
  ask-Answered provider call s t = (
    λ h. elim (Bool-cases (call.api_key == "")) [
      | inl e ↦ let h' = rw (e, ask) at h in absurd cc
      | inr e ↦ elim (Option-cases (http.request_error call.request.url)) [
        | inr (x, f) ↦ let h' = rw (e, f, ask) at h in absurd cc
        | inl f ↦ attempts-Answered call s t e f (sym (asked provider call s e f) ∙ h)
      ]
    ],
    λ (e, f, k, u, response, path, le, p, holds).
        let stopped = ap is_settled_or_late p ∙ accepted_stops response holds.0 in
        let reached =
          attempts_stopped http is_settled_or_late call.request 2 k s u path le stopped in
        asked provider call s e f
        ∙ ap (model_answer tools call.result_path) (ap (λ o. o.0) reached ∙ p)
        ∙ Holds-answer tools call.result_path response t holds,
  )
