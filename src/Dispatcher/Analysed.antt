-- ===== src/Dispatcher/Analysed.antt =====
-- From the reconciler of providers, internal/controller/aiprovider_controller.go, to the analysis of an event.
use smart_log.Base.{
  String, ◌≡◌, ◌≢◌, refl, sym, ap, subst, ◌∙◌, ◌⊎◌, inl, inr, true, false, none, some, arith,
  eq_iff, ◌<>◌,
}
use smart_log.Errors.{Error, ok, err, message, Result-cases}
use smart_log.Api.{NamespacedName, AiProvider, AiEnrichmentSpec}
use smart_log.Cluster.{Cluster, HasHelpers}
use smart_log.Conditions.{succeeded}
use smart_log.Secrets.{GetSecret}
use smart_log.Templates.{Tools, TemplateData}
use smart_log.Http.{Http}
use smart_log.AiProviders.{validate_ai_provider, reconcile}
use smart_log.AiProviders.Ready.{StoresAiProviders, reconcile_provider-Reports}
use smart_log.AiProviders.Valid.{CanAsk, validate_ai_provider-CanAsk}
use smart_log.Dispatcher.Panics.{Sectionless, enrich_with_ai-Sectionless}
use smart_log.Enrichment.Asked.{Asked, enrich_ready-Asked}
use smart_log.Enrichment.{enrich_ready, enrich_with_ai}

succeeded-CanAsk :
    (get : GetSecret) (provider : AiProvider)
    → (CanAsk get provider × (succeeded (validate_ai_provider get provider) ≡ true))
      ⊎ ((CanAsk get provider → ⊥) × (succeeded (validate_ai_provider get provider) ≡ false))
succeeded-CanAsk get provider =
    let valid = validate_ai_provider-CanAsk get provider in
    elim (Result-cases (validate_ai_provider get provider)) [
      | inl (u, e) ↦ inl (valid.0 e, ap succeeded e)
      | inr (x, e) ↦ inr (λ can. cc (valid.1 can, e), ap succeeded e)
    ]

-- A provider that can be asked has its section.
CanAsk-Sectionless :
    (get : GetSecret) (provider : AiProvider) → CanAsk get provider → Sectionless provider → ⊥
unfolding Sectionless
CanAsk-Sectionless get provider (inl (k, (g, e, h))) (inl (k', e')) = ground (arith, sym e ∙ e')
CanAsk-Sectionless get provider (inl (k, (g, e, h))) (inr (k', e')) =
    ground (arith, (eq_iff "Gemini" "OpenAI").1 (sym k ∙ k'))
CanAsk-Sectionless get provider (inr (k, (g, e, h))) (inl (k', e')) =
    ground (arith, (eq_iff "OpenAI" "Gemini").1 (sym k ∙ k'))
CanAsk-Sectionless get provider (inr (k, (g, e, h))) (inr (k', e')) = ground (arith, sym e ∙ e')

module _ (C : Cluster) (helpers : HasHelpers C) (store : StoresAiProviders C) (http : Http C.State)
    (tools : Tools) where
  abbrev key_of : String → AiEnrichmentSpec → NamespacedName
  key_of namespace ai = record { name = ai.provider_ref.name; namespace = namespace }

  not_ready :
      (namespace : String) (ai : AiEnrichmentSpec) (values : TemplateData) (t : C.State)
      (provider : AiProvider)
      → C.get_ai_provider t (key_of namespace ai) ≡ ok provider
      → C.is_status_condition_true provider.status.conditions "Ready" ≡ false
      → (x : Error) × (enrich_with_ai C http tools namespace ai values t ≡ some (err x, t))
  unfolding enrich_with_ai
  not_ready namespace ai values t provider found e = (
    message ("referenced AIProvider " <> (provider.name <> " is not ready")),
    rw (enrich_with_ai, found, e) refl,
  )

  is_ready :
      (namespace : String) (ai : AiEnrichmentSpec) (values : TemplateData) (t : C.State)
      (provider : AiProvider)
      → C.get_ai_provider t (key_of namespace ai) ≡ ok provider
      → C.is_status_condition_true provider.status.conditions "Ready" ≡ true
      → enrich_with_ai C http tools namespace ai values t
        ≡ enrich_ready C http tools ai provider values t
  unfolding enrich_with_ai
  is_ready namespace ai values t provider found e = rw (enrich_with_ai, found, e) refl

  -- A reconcile of the provider of an enrichment ends without an error, the provider still exists, and
  -- an event is analysed in the state that the reconcile leaves. When the provider has the section of
  -- its type and the secret that this section refers to is there with its key, the analysis does not
  -- panic. Then either the prompt cannot be rendered, or the key's value in the secret is empty, or the
  -- request cannot be built, and the analysis fails with the state as it is; or the request is sent, at
  -- most three times, until an attempt stops the loop, and the analysis is what is found in the result
  -- of the last attempt. When the provider has no such section, secret or key, the analysis fails and
  -- the state stays as it is.
  pub reconcile_provider-enrich_with_ai :
      (namespace : String) (ai : AiEnrichmentSpec) (values : TemplateData) (s t : C.State)
      (provider : AiProvider)
      → reconcile C (key_of namespace ai) s ≡ (none, t)
      → C.get_ai_provider t (key_of namespace ai) ≡ ok provider
      → let out = enrich_with_ai C http tools namespace ai values t in
        (CanAsk (C.get_secret t) provider
          × (out ≢ none)
          × Asked C http tools t ai provider values out)
        ⊎ ((CanAsk (C.get_secret t) provider → ⊥) × (x : Error) × (out ≡ some (err x, t)))
  reconcile_provider-enrich_with_ai namespace ai values s t provider ended found =
      let ready =
        reconcile_provider-Reports C helpers store (key_of namespace ai) s t provider ended found in
      elim (succeeded-CanAsk (C.get_secret t) provider) [
        | inl (can, e) ↦ inl (
          can,
          λ panics.
              let (other, found', ready', sectionless) =
                enrich_with_ai-Sectionless C http tools namespace ai values t panics in
              CanAsk-Sectionless (C.get_secret t) provider can
                (subst Sectionless (ground (arith, sym found' ∙ found)) sectionless),
          subst (Asked C http tools t ai provider values)
              (sym (is_ready namespace ai values t provider found (ready ∙ e)))
              (enrich_ready-Asked C http tools t ai provider values can),
        )
        | inr (cannot, e) ↦
            let (x, fails) = not_ready namespace ai values t provider found (ready ∙ e) in
            inr (cannot, x, fails)
      ]
