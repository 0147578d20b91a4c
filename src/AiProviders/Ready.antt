-- ===== src/AiProviders/Ready.antt =====
-- What a finished reconcile of a provider leaves on the server.
use mathlib.Core.Logic.{if_pos, if_neg}
use smart_log.Base.{◌≡◌, refl, sym, ap, subst, ◌∙◌, Bool, none}
use smart_log.Base.{inl, inr, arith}
use mathlib.Core.Path.{fun_ext}
use smart_log.Errors.{ok, Result-cases}
use smart_log.Api.{NamespacedName, AiProvider, AiProviderStatus, AiProviderStatus-discrete}
use smart_log.Cluster.{Cluster, HasHelpers, Attempts-none}
use smart_log.AiProviders.{validate_ai_provider, with_condition, attempt, reconcile}
use smart_log.Secrets.{GetSecret}
use smart_log.Conditions.{succeeded, is_true-set_ready}

-- What the API server does with providers: a read gives the object of the name; a status update that
-- succeeds is what a later read gives, and leaves the secrets alone.
pub record StoresAiProviders (C : Cluster) : Type 0 where
  pub named :
      (s : C.State) (key : NamespacedName) (provider : AiProvider)
      → C.get_ai_provider s key ≡ ok provider
      → (provider.name ≡ key.name) × (provider.namespace ≡ key.namespace)
  pub stored :
      (s t : C.State) (provider : AiProvider)
      → C.update_ai_provider_status s provider ≡ (none, t)
      → C.get_ai_provider t (record { name = provider.name; namespace = provider.namespace })
        ≡ ok provider
  pub secrets_kept :
      (s t : C.State) (provider : AiProvider) (key : NamespacedName)
      → C.update_ai_provider_status s provider ≡ (none, t)
      → C.get_secret t key ≡ C.get_secret s key

validate_ai_provider-status :
    (get : GetSecret) (provider : AiProvider) (status : AiProviderStatus)
    → validate_ai_provider get (record provider { status = status })
      ≡ validate_ai_provider get provider
unfolding validate_ai_provider
validate_ai_provider-status get provider status = refl

module _ (C : Cluster) (helpers : HasHelpers C) (store : StoresAiProviders C) where
  abbrev is_ready : AiProvider → Bool
  is_ready provider = C.is_status_condition_true provider.status.conditions "Ready"

  -- What the theorem says of the server's state and the provider.
  abbrev Reports : C.State → AiProvider → Type 0
  Reports t provider =
      is_ready provider ≡ succeeded (validate_ai_provider (C.get_secret t) provider)

  with_condition-Reports :
      (s : C.State) (provider : AiProvider) → Reports s (with_condition C s provider)
  unfolding with_condition
  with_condition-Reports s provider =
      is_true-set_ready C helpers (C.clock s) provider.status.conditions
        (validate_ai_provider (C.get_secret s) provider)
        "AIProvider configuration is valid and ready"
      ∙ ap succeeded (sym (validate_ai_provider-status (C.get_secret s) provider _))

  -- An attempt that writes nothing had nothing to change.
  unchanged-Reports :
      (s : C.State) (provider : AiProvider)
      → provider.status ≡ (with_condition C s provider).status
      → Reports s provider
  unfolding with_condition
  unchanged-Reports s provider same =
      ap (λ (status : AiProviderStatus). C.is_status_condition_true status.conditions "Ready") same
      ∙ with_condition-Reports s provider
      ∙ ap succeeded (validate_ai_provider-status (C.get_secret s) provider _)

  written-Reports :
      (key : NamespacedName) (s t : C.State) (before after : AiProvider)
      → C.get_ai_provider s key ≡ ok before
      → C.update_ai_provider_status s (with_condition C s before) ≡ (none, t)
      → C.get_ai_provider t key ≡ ok after
      → Reports t after
  unfolding with_condition
  written-Reports key s t before after old h found =
      let updated = with_condition C s before in
      let same_name = store.named s key before old in
      let same_key : record { name = before.name; namespace = before.namespace } ≡ key =
        λ i. record { name = same_name.0 i; namespace = same_name.1 i } in
      let stored : C.get_ai_provider t key ≡ ok updated =
        subst (λ k. C.get_ai_provider t k ≡ ok updated) same_key (store.stored s t updated h) in
      let same : updated ≡ after = ground (arith, stored, found) in
      let secrets : C.get_secret s ≡ C.get_secret t =
        fun_ext λ k. sym (store.secrets_kept s t updated k h) in
      subst (Reports t) same (
        with_condition-Reports s before
        ∙ ap (λ get. succeeded (validate_ai_provider get updated)) secrets)

  attempt-Reports :
      (key : NamespacedName) (s t : C.State) (provider : AiProvider)
      → attempt C key s ≡ (none, t)
      → C.get_ai_provider t key ≡ ok provider
      → Reports t provider
  unfolding attempt
  attempt-Reports key s t provider h found = elim (Result-cases (C.get_ai_provider s key)) [
    | inr (e, r) ↦ let h' = rw (r, attempt) at h in let same : s ≡ t = ground arith in cc
    | inl (before, r) ↦
        let h' = rw (r, attempt) at h in
        elim (AiProviderStatus-discrete before.status (with_condition C s before).status) [
          | yes p ↦
              let w = rw (if_pos _ p) at h' in
              let same_state : s ≡ t = ground arith in
              let same : before ≡ provider = ground (arith, r, found) in
              subst (λ u. Reports u provider) same_state
                (subst (Reports s) same (unchanged-Reports s before p))
          | no d ↦ written-Reports key s t before provider r (rw (if_neg _ d) at h') found
        ]
  ]

  -- When a reconcile of a provider ends without an error and the provider still exists, its `Ready`
  -- condition is true exactly when its validation succeeds against the secrets on the server then,
  -- after however many conflicts.
  pub reconcile_provider-Reports :
      (key : NamespacedName) (s t : C.State) (provider : AiProvider)
      → reconcile C key s ≡ (none, t)
      → C.get_ai_provider t key ≡ ok provider
      → Reports t provider
  unfolding reconcile
  reconcile_provider-Reports key s t provider h found =
      let ended = Attempts-none (helpers.retries (attempt C key) s) (ap (λ x. x.0) h) in
      attempt-Reports key ended.0 t provider (ended.1 ∙ h) found
