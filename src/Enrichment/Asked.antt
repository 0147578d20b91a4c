-- ===== src/Enrichment/Asked.antt =====
-- What it is to ask a provider that can be asked: the prompt, the key, and the request's attempts.
use smart_log.Base.{
  ℕ, ◌≤◌, String, ◌==◌, eq_iff, ◌≡◌, refl, sym, ap, ◌∙◌, ◌⊎◌, subst, ◌<>◌, inl, inr, true, false,
  Bool-cases, Option, none, some, Option-cases, arith,
}
use smart_log.Base.Dict
use smart_log.Errors.{Error, Result, ok, err, message, wrapped, Result-cases}
use smart_log.Api.{
  AiProvider, AiEnrichmentSpec, GeminiProviderSpec, OpenAiProviderSpec, Secret, SecretKeySelector,
}
use smart_log.Cluster.{Cluster}
use smart_log.Secrets.{GetSecret, secret_key}
use smart_log.Senders.{get_secret_value}
use smart_log.Templates.{Tools, TemplateData, AiData}
use smart_log.Http.{Http, attempts, is_settled_or_late}
use smart_log.Http.Tries.{Tried, sent, Ends, attempts-Ends}
use smart_log.AiProviders.Valid.{CanAsk}
use smart_log.LanguageModel.{
  ModelCall, gemini_call, open_ai_call, model_call, model_answer, ask, call_language_model,
}
use smart_log.Enrichment.{render_prompt, analysed, enrich_ready}

-- The secret exists, and has the value under the key.
abbrev pub HoldsKey : GetSecret → String → SecretKeySelector → String → Type 0
HoldsKey get namespace selector value =
    (secret : Secret) × (get (secret_key namespace selector) ≡ ok secret)
    × (Dict.lookup selector.key secret.entries ≡ some value)

-- The value of the secret that the section of the provider's type refers to.
abbrev pub KeyOf : GetSecret → AiProvider → String → Type 0
KeyOf get provider value =
    ((provider.spec.kind ≡ "Gemini")
      × ((g : GeminiProviderSpec) × (provider.spec.gemini ≡ some g)
          × HoldsKey get provider.namespace g.api_key_secret_ref value))
    ⊎ ((provider.spec.kind ≡ "OpenAI")
        × ((o : OpenAiProviderSpec) × (provider.spec.open_ai ≡ some o)
            × HoldsKey get provider.namespace o.api_key_secret_ref value))

value_of :
    (get : GetSecret) (namespace : String) (selector : SecretKeySelector) (secret : Secret)
    (value : String)
    → get (secret_key namespace selector) ≡ ok secret
    → Dict.lookup selector.key secret.entries ≡ some value
    → get_secret_value get namespace (some selector) ≡ value
unfolding get_secret_value
value_of get namespace selector secret value found at = rw (get_secret_value, found, at) refl

module _ (tools : Tools) (get : GetSecret) (prompt : String) where
  -- The call of a provider that can be asked, with its key.
  Callable : AiProvider → Type 0
  Callable provider =
      (call : ModelCall) × (model_call tools get provider prompt ≡ some (ok call))
      × KeyOf get provider call.api_key

  CanAsk-Callable : (provider : AiProvider) → CanAsk get provider → Callable provider
  unfolding Callable model_call gemini_call open_ai_call
  CanAsk-Callable provider (inl (k, (g, e, (secret, found, (value, at))))) =
      let same = value_of get provider.namespace g.api_key_secret_ref secret value found at in
      (
        gemini_call tools get provider.namespace g prompt,
        rw (model_call, (eq_iff provider.spec.kind "Gemini").1 k, e) refl,
        inl (k, (g, e, (secret, found, at ∙ ap some (sym same)))),
      )
  CanAsk-Callable provider (inr (k, (o, e, (secret, found, (value, at))))) =
      let same = value_of get provider.namespace o.api_key_secret_ref secret value found at in
      (
        open_ai_call tools get provider.namespace o prompt,
        rw (model_call, k, e) refl,
        inr (k, (o, e, (secret, found, at ∙ ap some (sym same)))),
      )

module _ (C : Cluster) (http : Http C.State) (tools : Tools) (t : C.State) where
  abbrev Out : Type 0
  Out = Option (Result AiData × C.State)

  -- The request is not sent, as the key is empty or the request cannot be built.
  abbrev pub Unsent : ModelCall → Out → Type 0
  Unsent call out =
      ((call.api_key ≡ "") ⊎ ((e : Error) × (http.request_error call.request.url ≡ some e)))
      × (x : Error) × (out ≡ some (err x, t))

  -- The request is sent, at most three times, until an attempt stops the loop, and what is found in the
  -- last attempt's response is the analysis.
  abbrev pub Sent : ModelCall → Out → Type 0
  Sent call out =
      (http.request_error call.request.url ≡ none)
      × (k : ℕ) × (u : C.State) × Tried http is_settled_or_late call.request k 0 t u
      × (k ≤ 2)
      × ((is_settled_or_late (sent http is_settled_or_late call.request k u).0 ≡ true) ⊎ (k ≡ 2))
      × (out
          ≡ some (
            analysed tools (
                model_answer tools call.result_path
                  (sent http is_settled_or_late call.request k u).0),
            (sent http is_settled_or_late call.request k u).1,
          ))

  -- The prompt cannot be rendered, or the provider's request, with its key, is sent if that is possible.
  abbrev pub Asked : AiEnrichmentSpec → AiProvider → TemplateData → Out → Type 0
  Asked ai provider values out =
      ((x : Error) × (render_prompt tools ai.prompt values ≡ err x) × (out ≡ some (err x, t)))
      ⊎ ((prompt : String) × (call : ModelCall) × (render_prompt tools ai.prompt values ≡ ok prompt)
          × (model_call tools (C.get_secret t) provider prompt ≡ some (ok call))
          × KeyOf (C.get_secret t) provider call.api_key
          × (Unsent call out ⊎ Sent call out))

  -- What becomes of the answer.
  answered : Result String × C.State → Out
  answered out = some (analysed tools out.0, out.1)

  ask-attempts :
      (provider : AiProvider) (call : ModelCall)
      → (call.api_key == "") ≡ false
      → http.request_error call.request.url ≡ none
      → let last = attempts http is_settled_or_late call.request 2 0 t in
        ask C http tools provider call t ≡ (model_answer tools call.result_path last.0, last.1)
  unfolding ask
  ask-attempts provider call e f = rw (ask, e, f) refl

  ask-Sent :
      (provider : AiProvider) (call : ModelCall)
      → Unsent call (answered (ask C http tools provider call t))
        ⊎ Sent call (answered (ask C http tools provider call t))
  unfolding ask answered analysed Ends
  ask-Sent provider call = elim (Bool-cases (call.api_key == "")) [
    | inl e ↦ inl (
      inl ((eq_iff call.api_key "").0 e),
      message ("API key for provider " <> (provider.name <> " is empty")),
      rw (ask, e) refl,
    )
    | inr e ↦ elim (Option-cases (http.request_error call.request.url)) [
      | inr (x, f) ↦
          inl (inr (x, f), wrapped "failed to create http request: " x "", rw (ask, e, f) refl)
      | inl f ↦
          let (k, u, path, le, out, last) =
            attempts-Ends http is_settled_or_late call.request 2 0 t in
          let same = out ∙ ap (λ n. sent http is_settled_or_late call.request n u) (omega arith) in
          inr (
            f,
            k,
            u,
            path,
            le,
            subst (λ o. (is_settled_or_late o.0 ≡ true) ⊎ (k ≡ 2)) same last,
            ap answered (ask-attempts provider call e f)
                ∙ ap (λ o. answered (model_answer tools call.result_path o.0, o.1)) same,
          )
    ]
  ]

  enriched :
      (ai : AiEnrichmentSpec) (provider : AiProvider) (values : TemplateData) (prompt : String)
      (call : ModelCall)
      → render_prompt tools ai.prompt values ≡ ok prompt
      → model_call tools (C.get_secret t) provider prompt ≡ some (ok call)
      → enrich_ready C http tools ai provider values t ≡ answered (ask C http tools provider call t)
  unfolding enrich_ready call_language_model answered
  enriched ai provider values prompt call e f = rw (enrich_ready, e, call_language_model, f) refl

  unrendered :
      (ai : AiEnrichmentSpec) (provider : AiProvider) (values : TemplateData) (x : Error)
      → render_prompt tools ai.prompt values ≡ err x
      → enrich_ready C http tools ai provider values t ≡ some (err x, t)
  unfolding enrich_ready
  unrendered ai provider values x e = rw (enrich_ready, e) refl

  pub enrich_ready-Asked :
      (ai : AiEnrichmentSpec) (provider : AiProvider) (values : TemplateData)
      → CanAsk (C.get_secret t) provider
      → Asked ai provider values (enrich_ready C http tools ai provider values t)
  unfolding Callable
  enrich_ready-Asked ai provider values can =
      elim (Result-cases (render_prompt tools ai.prompt values)) [
        | inr (x, e) ↦ inl (x, e, unrendered ai provider values x e)
        | inl (prompt, e) ↦
            let (call, called, key) = CanAsk-Callable tools (C.get_secret t) prompt provider can in
            inr (
              prompt,
              call,
              e,
              called,
              key,
              subst (λ o. Unsent call o ⊎ Sent call o)
                  (sym (enriched ai provider values prompt call e called)) (ask-Sent provider call),
            )
      ]
