-- ===== src/AiProviders/Valid.antt =====
-- Which providers `validate_ai_provider` accepts, and that the watch on secrets misses none.
use mathlib.Core.Option.{some-injective}
use smart_log.Base.{String, ◌==◌, eq_iff, ◌≡◌, ◌≢◌, ◌↔◌, ◌⊎◌, inl, inr, refl, ap, sym, subst, false}
use smart_log.Base.{Option, none, some, List, [], ◌∷◌, arith, Member, Member-if}
use smart_log.Base.{Bool-cases}
use smart_log.Base.Dict
use smart_log.Errors.{ok, switch-ok, Result-cases}
use smart_log.Api.{NamespacedName, SecretKeySelector, Secret, AiProvider, GeminiProviderSpec}
use smart_log.Api.{OpenAiProviderSpec}
use smart_log.Secrets.{GetSecret, secret_key, HasKey}
use smart_log.AiProviders.{check_key, validate_secret_ref, validate_gemini, validate_open_ai}
use smart_log.AiProviders.{validate_ai_provider, gemini_related, open_ai_related, referenced}
use smart_log.AiProviders.{requests_for}

check_key-ok :
    (selector : SecretKeySelector) (secret : Secret)
    → check_key selector secret ≡ ok tt
    → (value : String) × (Dict.lookup selector.key secret.entries ≡ some value)
unfolding check_key
check_key-ok selector secret h = ground arith

validate_secret_ref-HasKey :
    (get : GetSecret) (namespace : String) (selector : SecretKeySelector)
    → (validate_secret_ref get namespace selector ≡ ok tt) ↔ HasKey get namespace selector
unfolding validate_secret_ref check_key
validate_secret_ref-HasKey get namespace selector = (
  λ h. elim (Result-cases (get (secret_key namespace selector))) [
    | inl (secret, e) ↦ (secret, e, check_key-ok selector secret (rw (e, validate_secret_ref) at h))
    | inr (e, r) ↦ let h' = rw (r, validate_secret_ref) at h in absurd (ground arith)
  ],
  λ (secret, e, (value, f)). rw (e, validate_secret_ref) (rw (f, check_key)),
)

validate_gemini_lem :
    (get : GetSecret) (namespace : String) (spec : Option GeminiProviderSpec)
    → (validate_gemini get namespace spec ≡ ok tt)
      ↔ ((g : GeminiProviderSpec) × (spec ≡ some g) × HasKey get namespace g.api_key_secret_ref)
unfolding validate_gemini
validate_gemini_lem get namespace none = (λ h. cc, λ (g, e, k). cc)
validate_gemini_lem get namespace (some g) =
    let ref = validate_secret_ref-HasKey get namespace g.api_key_secret_ref in
    (
      λ h. (g, refl, ref.0 h),
      λ (v, e, k).
          ref.1
            (subst (λ x. HasKey get namespace x.api_key_secret_ref) (sym (some-injective g v e)) k),
    )

validate_open_ai_lem :
    (get : GetSecret) (namespace : String) (spec : Option OpenAiProviderSpec)
    → (validate_open_ai get namespace spec ≡ ok tt)
      ↔ ((o : OpenAiProviderSpec) × (spec ≡ some o) × HasKey get namespace o.api_key_secret_ref)
unfolding validate_open_ai
validate_open_ai_lem get namespace none = (λ h. cc, λ (o, e, k). cc)
validate_open_ai_lem get namespace (some o) =
    let ref = validate_secret_ref-HasKey get namespace o.api_key_secret_ref in
    (
      λ h. (o, refl, ref.0 h),
      λ (v, e, k).
          ref.1
            (subst (λ x. HasKey get namespace x.api_key_secret_ref) (sym (some-injective o v e)) k),
    )

-- What a provider needs to be asked: its own section, and the secret with the key to the service.
abbrev pub CanAsk : GetSecret → AiProvider → Type 0
CanAsk get provider =
    ((provider.spec.kind ≡ "Gemini")
      × ((g : GeminiProviderSpec) × (provider.spec.gemini ≡ some g)
          × HasKey get provider.namespace g.api_key_secret_ref))
    ⊎ ((provider.spec.kind ≡ "OpenAI")
        × ((o : OpenAiProviderSpec) × (provider.spec.open_ai ≡ some o)
            × HasKey get provider.namespace o.api_key_secret_ref))

-- Validation accepts a provider exactly when it has the section of its type, and the secret that this
-- section refers to exists in its namespace and has the key.
pub validate_ai_provider-CanAsk :
    (get : GetSecret) (provider : AiProvider)
    → (validate_ai_provider get provider ≡ ok tt) ↔ CanAsk get provider
unfolding validate_ai_provider
validate_ai_provider-CanAsk get provider =
    switch-ok _ refl (validate_gemini_lem get provider.namespace provider.spec.gemini)
      (validate_open_ai_lem get provider.namespace provider.spec.open_ai)

-- Two states of the secrets that differ in one of them at most.
module _ (changed : NamespacedName) (get get' : GetSecret)
    (elsewhere : (key : NamespacedName) → key ≢ changed → get key ≡ get' key) where
  ref_kept :
      (namespace : String) (selector : SecretKeySelector)
      → (selector.name == changed.name) ≡ false
      → validate_secret_ref get namespace selector ≡ validate_secret_ref get' namespace selector
  unfolding validate_secret_ref
  ref_kept namespace selector other =
      let same = elsewhere (secret_key namespace selector) (λ e.
        cc
          (other, (eq_iff selector.name changed.name).1 (ap (λ (k : NamespacedName). k.name) e))) in
      rw (same, validate_secret_ref)

  gemini_kept :
      (namespace : String) (spec : Option GeminiProviderSpec)
      → gemini_related changed.name spec ≡ false
      → validate_gemini get namespace spec ≡ validate_gemini get' namespace spec
  unfolding validate_gemini gemini_related
  gemini_kept namespace none h = refl
  gemini_kept namespace (some gemini) h = ref_kept namespace gemini.api_key_secret_ref h

  open_ai_kept :
      (namespace : String) (spec : Option OpenAiProviderSpec)
      → open_ai_related changed.name spec ≡ false
      → validate_open_ai get namespace spec ≡ validate_open_ai get' namespace spec
  unfolding validate_open_ai open_ai_related
  open_ai_kept namespace none h = refl
  open_ai_kept namespace (some open_ai) h = ref_kept namespace open_ai.api_key_secret_ref h

  unreferenced_kept :
      (provider : AiProvider)
      → referenced changed.name provider ≡ false
      → validate_ai_provider get provider ≡ validate_ai_provider get' provider
  unfolding validate_ai_provider referenced
  unreferenced_kept provider h = elim (Bool-cases (provider.spec.kind == "Gemini")) [
    | inl g ↦ rw g (gemini_kept provider.namespace provider.spec.gemini (rw g at h))
    | inr g ↦ elim (Bool-cases (provider.spec.kind == "OpenAI")) [
      | inl o ↦ rw (g, o) (open_ai_kept provider.namespace provider.spec.open_ai (rw (g, o) at h))
      | inr o ↦ rw (g, o)
    ]
  ]

  -- Of the listed providers, each one whose validation a change of one secret can alter is among the
  -- requests for that secret's name.
  pub provider_requests_complete :
      (provider : AiProvider) (providers : List AiProvider)
      → Member provider providers
      → (validate_ai_provider get provider ≡ validate_ai_provider get' provider)
        ⊎ Member
            (record { name = provider.name; namespace = provider.namespace })
            (requests_for changed.name providers)
  unfolding requests_for
  provider_requests_complete provider [] m = elim m [ ]
  provider_requests_complete provider (p ∷ rest) (inl e) =
      elim (Bool-cases (referenced changed.name p)) [
        | inl hit ↦
            inr (rw hit (inl (λ i. record { name = (e i).name; namespace = (e i).namespace })))
        | inr miss ↦ inl (unreferenced_kept provider (rw e miss))
      ]
  provider_requests_complete provider (p ∷ rest) (inr m) =
      elim (provider_requests_complete provider rest m) [
        | inl same ↦ inl same
        | inr listed ↦ inr (Member-if (referenced changed.name p) _ _ _ listed)
      ]
