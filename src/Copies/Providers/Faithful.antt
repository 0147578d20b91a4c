-- ===== src/Copies/Providers/Faithful.antt =====
-- internal/controller/aiprovider_controller.go: the comparison sees exactly the changes of the value
-- model.
use smart_log.Base.{◌≡◌, refl, ap, none, inl, inr}
use smart_log.Errors.{Result-cases}
use smart_log.Api.{NamespacedName, AiProvider, AiProviderStatus-discrete}
use smart_log.Cluster.{Cluster}
use mathlib.Core.Logic.{ite}
use smart_log.AiProviders
use smart_log.AiProviders.{validate_ai_provider}
use smart_log.Conditions.{ready_condition}
use smart_log.Copies.{values, copiers, Memory}
use smart_log.Copies.Providers.{copy_provider_conditions, update_changed, attempt}
use smart_log.DeepCopy.SpecsCopied.{ai_provider_status}
use smart_log.Copies.Shown.{CopiesConditions}
use smart_log.Copies.Compared.{MemoryLaws, compared-same, compared-differ}

provider_conditions-CopiesConditions : CopiesConditions copy_provider_conditions
unfolding copy_provider_conditions ai_provider_status
provider_conditions-CopiesConditions P m a below h =
    let done = (ai_provider_status values copiers).copies P m (record { conditions = a }) below h in
    record { grown = done.grown; kept = done.kept; alike = done.alike }

module _ (C : Cluster) (M : Memory) (laws : MemoryLaws C M) where
  update_provider_faithful :
      (s : C.State) (provider : AiProvider)
      → update_changed C M s provider
        ≡ ite
            (AiProviderStatus-discrete provider.status
              (AiProviders.with_condition C s provider).status)
            (none, s)
            (C.update_ai_provider_status s (AiProviders.with_condition C s provider))
  unfolding update_changed AiProviders.with_condition
  update_provider_faithful s provider =
      let ready =
        ready_condition (validate_ai_provider (C.get_secret s) provider)
          "AIProvider configuration is valid and ready" in
      let xs = provider.status.conditions in
      elim (AiProviderStatus-discrete provider.status
          (AiProviders.with_condition C s provider).status)
        as (λ d.
          update_changed C M s provider
          ≡ ite d (none, s)
              (C.update_ai_provider_status s (AiProviders.with_condition C s provider))) [
                | yes same ↦
                    let one =
                      compared-same C M laws copy_provider_conditions
                        provider_conditions-CopiesConditions (C.clock s) xs ready
                        (ap (λ st. st.conditions) same) in
                    rw (update_changed, one) refl
                | no differ ↦
                    let (false_eq, ys_eq) =
                      compared-differ C M laws copy_provider_conditions
                        provider_conditions-CopiesConditions (C.clock s) xs ready
                        (λ e. differ (λ i. record { conditions = e i })) in
                    rw (update_changed, false_eq, ys_eq) refl
              ]

  -- The provider reconciler on the heap does what the model on values does.
  pub provider_attempt_faithful :
      (key : NamespacedName) (s : C.State) → attempt C M key s ≡ AiProviders.attempt C key s
  unfolding attempt AiProviders.attempt
  provider_attempt_faithful key s = elim (Result-cases (C.get_ai_provider s key)) [
    | inl (provider, e) ↦ rw (attempt, AiProviders.attempt, e) (update_provider_faithful s provider)
    | inr (x, e) ↦ rw (attempt, AiProviders.attempt, e) refl
  ]
