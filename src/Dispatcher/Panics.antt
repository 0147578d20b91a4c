-- ===== src/Dispatcher/Panics.antt =====
-- When the analysis of the language model panics.
use smart_log.Base.{
  String, eq_cases, eq_iff, ◌≡◌, refl, sym, ap, ◌∙◌, ◌⊎◌, inl, inr, Bool, true, false,
}
use smart_log.Base.{Option, none, some, Bool-cases, Option-cases}
use smart_log.Errors.{ok, err, Result-cases}
use smart_log.Api.{AiProvider, AiEnrichmentSpec}
use smart_log.Cluster.{Cluster}
use smart_log.Secrets.{GetSecret}
use smart_log.Templates.{TemplateData, Tools}
use smart_log.Http.{Http}
use smart_log.LanguageModel.{model_call, call_language_model}
use smart_log.Enrichment.{enrich_ready, enrich_with_ai, render_prompt}

-- The provider's type has no section in its spec.
unfoldable pub Sectionless : AiProvider → Type 0
Sectionless provider =
    ((provider.spec.kind ≡ "Gemini") × (provider.spec.gemini ≡ none))
    ⊎ ((provider.spec.kind ≡ "OpenAI") × (provider.spec.open_ai ≡ none))

-- A test for a result.
abbrev is_some : {A : Type 0} → Option A → Bool
is_some none = false
is_some (some a) = true

not_none : {A : Type 0} {o : Option A} → o ≡ none → is_some o ≡ true → ⊥
not_none {A} {o} e h = cc (ap is_some e, h)

module _ (tools : Tools) where
  model_call-Sectionless :
      (get : GetSecret) (provider : AiProvider) (prompt : String)
      → model_call tools get provider prompt ≡ none
      → Sectionless provider
  unfolding Sectionless model_call
  model_call-Sectionless get provider prompt h = elim (eq_cases provider.spec.kind "Gemini") [
    | inl p ↦ elim (Option-cases provider.spec.gemini) [
      | inl e ↦ inl (p, e)
      | inr (spec, e) ↦
          absurd (not_none h (rw (model_call, (eq_iff provider.spec.kind "Gemini").1 p, e) refl))
    ]
    | inr p ↦ elim (eq_cases provider.spec.kind "OpenAI") [
      | inl q ↦ elim (Option-cases provider.spec.open_ai) [
        | inl e ↦ inr (q, e)
        | inr (spec, e) ↦
            absurd
              (not_none h (rw (model_call, p, (eq_iff provider.spec.kind "OpenAI").1 q, e) refl))
      ]
      | inr q ↦ absurd (not_none h (rw (model_call, p, q) refl))
    ]
  ]

module _ (C : Cluster) (http : Http C.State) (tools : Tools) where
  call-Sectionless :
      (provider : AiProvider) (prompt : String) (s : C.State)
      → call_language_model C http tools provider prompt s ≡ none
      → Sectionless provider
  unfolding call_language_model
  call-Sectionless provider prompt s h =
      elim (Option-cases (model_call tools (C.get_secret s) provider prompt)) [
        | inl e ↦ model_call-Sectionless tools (C.get_secret s) provider prompt e
        | inr (ok call, e) ↦ absurd (not_none h (rw (call_language_model, e) refl))
        | inr (err x, e) ↦ absurd (not_none h (rw (call_language_model, e) refl))
      ]

  enrich_ready-Sectionless :
      (ai : AiEnrichmentSpec) (provider : AiProvider) (values : TemplateData) (s : C.State)
      → enrich_ready C http tools ai provider values s ≡ none
      → Sectionless provider
  unfolding enrich_ready
  enrich_ready-Sectionless ai provider values s h =
      elim (Result-cases (render_prompt tools ai.prompt values)) [
        | inl (prompt, e) ↦
            elim (Option-cases (call_language_model C http tools provider prompt s)) [
              | inl f ↦ call-Sectionless provider prompt s f
              | inr (answer, f) ↦ absurd (not_none h (rw (enrich_ready, e, f) refl))
            ]
        | inr (x, e) ↦ absurd (not_none h (rw (enrich_ready, e) refl))
      ]

  -- The analysis panics only when the provider exists, is ready and has no section for its type.
  pub enrich_with_ai-Sectionless :
      (namespace : String) (ai : AiEnrichmentSpec) (values : TemplateData) (s : C.State)
      → enrich_with_ai C http tools namespace ai values s ≡ none
      → (provider : AiProvider) × (C.get_ai_provider s
            (record { name = ai.provider_ref.name; namespace = namespace })
          ≡ ok provider)
        × (C.is_status_condition_true provider.status.conditions "Ready" ≡ true)
        × Sectionless provider
  unfolding enrich_with_ai
  enrich_with_ai-Sectionless namespace ai values s h =
      elim (Result-cases
        (C.get_ai_provider s (record { name = ai.provider_ref.name; namespace = namespace }))) [
          | inl (provider, e) ↦
              elim (Bool-cases (C.is_status_condition_true provider.status.conditions "Ready")) [
                | inl f ↦ (
                  provider,
                  e,
                  f,
                  enrich_ready-Sectionless ai provider values s
                      (sym (rw (enrich_with_ai, e, f) refl) ∙ h),
                )
                | inr f ↦ absurd (not_none h (rw (enrich_with_ai, e, f) refl))
              ]
          | inr (x, e) ↦ absurd (not_none h (rw (enrich_with_ai, e) refl))
        ]
