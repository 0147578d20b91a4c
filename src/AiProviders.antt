-- ===== src/AiProviders.antt =====
-- internal/controller/aiprovider_controller.go: the reconciler of `AIProvider`.
pub mod Valid
pub mod Ready
use mathlib.Core.Logic.{ite}
use smart_log.Base.{String, ◌<>◌, ◌==◌, Bool, true, false, Option, none, some, List, [], ◌∷◌}
use smart_log.Base.{if◌then◌else◌}
use smart_log.Base.Dict
use smart_log.Errors.{Error, message, wrapped, is_not_found, Result, ok, err}
use smart_log.Api.{NamespacedName, SecretKeySelector, Secret, AiProvider, AiProviderStatus-discrete}
use smart_log.Api.{GeminiProviderSpec, OpenAiProviderSpec}
use smart_log.Conditions.{ready_condition}
use smart_log.Secrets.{GetSecret, secret_key}
use smart_log.Cluster.{Cluster}

-- `secret.Data[selector.Key]`
unfoldable pub check_key : SecretKeySelector → Secret → Result (Unit {0})
check_key selector secret = elim (Dict.lookup selector.key secret.entries) [
  | some value ↦ ok tt
  | none ↦
      err (
        message
          ("key '" <> (selector.key <> ("' not found in secret '" <> (selector.name <> "'")))))
]

unfoldable pub validate_secret_ref : GetSecret → String → SecretKeySelector → Result (Unit {0})
unfolding check_key
validate_secret_ref get namespace selector = elim (get (secret_key namespace selector)) [
  | ok secret ↦ check_key selector secret
  | err e ↦
      if is_not_found e
      then err (
          message (
            "referenced secret '"
            <> (selector.name <> ("' in namespace '" <> (namespace <> "' not found")))))
      else err (wrapped ("failed to get referenced secret '" <> (selector.name <> "': ")) e "")
]

unfoldable pub validate_gemini : GetSecret → String → Option GeminiProviderSpec → Result (Unit {0})
validate_gemini get namespace none =
    err (message "gemini spec is not defined for provider type Gemini")
validate_gemini get namespace (some gemini) =
    validate_secret_ref get namespace gemini.api_key_secret_ref

unfoldable pub validate_open_ai : GetSecret → String → Option OpenAiProviderSpec → Result (Unit {0})
validate_open_ai get namespace none =
    err (message "openAI spec is not defined for provider type OpenAI")
validate_open_ai get namespace (some open_ai) =
    validate_secret_ref get namespace open_ai.api_key_secret_ref

unfoldable pub validate_ai_provider : GetSecret → AiProvider → Result (Unit {0})
unfolding validate_gemini validate_open_ai
validate_ai_provider get provider =
    if provider.spec.kind == "Gemini"
    then validate_gemini get provider.namespace provider.spec.gemini
    else if provider.spec.kind == "OpenAI"
    then validate_open_ai get provider.namespace provider.spec.open_ai
    else err (message ("unsupported provider type: " <> provider.spec.kind))

gemini_related : String → Option GeminiProviderSpec → Bool
gemini_related secret none = false
gemini_related secret (some gemini) = gemini.api_key_secret_ref.name == secret

open_ai_related : String → Option OpenAiProviderSpec → Bool
open_ai_related secret none = false
open_ai_related secret (some open_ai) = open_ai.api_key_secret_ref.name == secret

-- The variable `referenced`: only the section of the provider's type counts.
unfoldable pub referenced : String → AiProvider → Bool
unfolding gemini_related open_ai_related
referenced secret provider =
    if provider.spec.kind == "Gemini"
    then gemini_related secret provider.spec.gemini
    else if provider.spec.kind == "OpenAI"
    then open_ai_related secret provider.spec.open_ai
    else false

-- The loop of `findAIProvidersForSecret`.
unfoldable pub requests_for : String → List AiProvider → List NamespacedName
unfolding referenced
requests_for secret [] = []
requests_for secret (provider ∷ providers) =
    let rest = requests_for secret providers in
    if referenced secret provider
    then record { name = provider.name; namespace = provider.namespace } ∷ rest
    else rest

module _ (C : Cluster) where
  -- The provider with the condition that its validation gives.
  unfoldable pub with_condition : C.State → AiProvider → AiProvider
  unfolding ready_condition
  with_condition s provider = record provider {
    status = record {
      conditions = C.set_status_condition (C.clock s) provider.status.conditions (
          ready_condition (validate_ai_provider (C.get_secret s) provider)
            "AIProvider configuration is valid and ready");
    };
  }

  -- The function that `Reconcile` hands to `RetryOnConflict`.
  unfoldable pub attempt : NamespacedName → C.State → Option Error × C.State
  unfolding with_condition
  attempt key s = elim (C.get_ai_provider s key) [
    | err e ↦ if is_not_found e then (none, s) else (some e, s)
    | ok provider ↦
        let updated = with_condition s provider in
        ite (AiProviderStatus-discrete provider.status updated.status) (none, s)
          (C.update_ai_provider_status s updated)
  ]

  unfoldable pub reconcile : NamespacedName → C.State → Option Error × C.State
  reconcile key s = C.retry_on_conflict (attempt key) s

  unfoldable pub find_ai_providers_for_secret : C.State → Secret → List NamespacedName
  unfolding requests_for
  find_ai_providers_for_secret s secret = elim (C.list_ai_providers s secret.namespace) [
    | err e ↦ []
    | ok providers ↦ requests_for secret.name providers
  ]
