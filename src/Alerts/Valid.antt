-- ===== src/Alerts/Valid.antt =====
-- Which alerts `validate_alert` accepts, and which of them a secret's change wakes.
use smart_log.Base.{String, ◌≡◌, ◌↔◌, ◌⊎◌, inl, inr, refl, Option}
use smart_log.Base.{none, some, arith, subst, sym}
use smart_log.Base.Dict
use mathlib.Core.Option.{some-injective}
use smart_log.Errors.{ok, Result-cases, >>=-eq-ok, switch-ok}
use smart_log.Api.{SecretKeySelector, Secret, Alert, WebhookSpec, FeishuSpec}
use smart_log.Secrets.{GetSecret, secret_key, HasKey}
use smart_log.Alerts.{check_key, validate_secret_ref, validate_webhook, validate_feishu}
use smart_log.Alerts.{validate_signing, validate_alert}

check_key-ok :
    (selector : SecretKeySelector) (secret : Secret)
    → check_key selector secret ≡ ok tt
    → (value : String) × (Dict.lookup selector.key secret.entries ≡ some value)
unfolding check_key
check_key-ok selector secret h = ground arith

validate_secret_ref-HasKey :
    (get : GetSecret) (namespace : String) (selector : SecretKeySelector)
    → (validate_secret_ref get namespace selector ≡ ok tt) ↔ HasKey get namespace selector
unfolding validate_secret_ref check_key
validate_secret_ref-HasKey get namespace selector = (
  λ h. elim (Result-cases (get (secret_key namespace selector))) [
    | inl (secret, e) ↦ (secret, e, check_key-ok selector secret (rw (e, validate_secret_ref) at h))
    | inr (e, r) ↦ let h' = rw (r, validate_secret_ref) at h in absurd (ground arith)
  ],
  λ (secret, e, (value, f)). rw (e, validate_secret_ref) (rw (f, check_key)),
)

validate_webhook_lem :
    (get : GetSecret) (namespace : String) (spec : Option WebhookSpec)
    → (validate_webhook get namespace spec ≡ ok tt)
      ↔ ((w : WebhookSpec) × (spec ≡ some w) × HasKey get namespace w.url_secret_ref)
unfolding validate_webhook
validate_webhook_lem get namespace none = (λ h. cc, λ (w, e, k). cc)
validate_webhook_lem get namespace (some w) =
    let ref = validate_secret_ref-HasKey get namespace w.url_secret_ref in
    (
      λ h. (w, refl, ref.0 h),
      λ (v, e, k).
          ref.1 (subst (λ x. HasKey get namespace x.url_secret_ref) (sym (some-injective w v e)) k),
    )

-- A signing secret has its key, if there is one.
abbrev SigningHasKey : GetSecret → String → Option SecretKeySelector → Type 0
SigningHasKey get namespace spec = (r : SecretKeySelector) → spec ≡ some r → HasKey get namespace r

validate_signing_lem :
    (get : GetSecret) (namespace : String) (spec : Option SecretKeySelector)
    → (validate_signing get namespace spec ≡ ok tt) ↔ SigningHasKey get namespace spec
unfolding validate_signing
validate_signing_lem get namespace none = (λ h r e. cc, λ h. refl)
validate_signing_lem get namespace (some q) =
    let ref = validate_secret_ref-HasKey get namespace q in
    (λ h r e. subst (HasKey get namespace) (some-injective q r e) (ref.0 h), λ h. ref.1 (h q refl))

-- What the feishu section needs.
abbrev FeishuHasKeys : GetSecret → String → FeishuSpec → Type 0
FeishuHasKeys get namespace f =
    HasKey get namespace f.url_secret_ref × SigningHasKey get namespace f.secret_key_secret_ref

validate_feishu_lem :
    (get : GetSecret) (namespace : String) (spec : Option FeishuSpec)
    → (validate_feishu get namespace spec ≡ ok tt)
      ↔ ((f : FeishuSpec) × (spec ≡ some f) × FeishuHasKeys get namespace f)
unfolding validate_feishu
validate_feishu_lem get namespace none = (λ h. cc, λ (f, e, k). cc)
validate_feishu_lem get namespace (some f) =
    let url = validate_secret_ref-HasKey get namespace f.url_secret_ref in
    let signing = validate_signing_lem get namespace f.secret_key_secret_ref in
    let both =
      >>=-eq-ok (validate_secret_ref get namespace f.url_secret_ref)
        (validate_signing get namespace f.secret_key_secret_ref) in
    (
      λ h. (f, refl, (url.0 (both.0 h).0, signing.0 (both.0 h).1)),
      λ (g, e, k).
          let k' = subst (FeishuHasKeys get namespace) (sym (some-injective f g e)) k in
          both.1 (url.1 k'.0, signing.1 k'.1),
    )

-- What a channel needs to send: its own section, and the secrets that the section refers to.
abbrev pub CanSend : GetSecret → Alert → Type 0
CanSend get alert =
    ((alert.spec.kind ≡ "Webhook")
      × ((w : WebhookSpec) × (alert.spec.webhook ≡ some w)
          × HasKey get alert.namespace w.url_secret_ref))
    ⊎ ((alert.spec.kind ≡ "Feishu")
        × ((f : FeishuSpec) × (alert.spec.feishu ≡ some f) × FeishuHasKeys get alert.namespace f))

-- Validation accepts an alert exactly when it has the section of its type, and every secret that this
-- section refers to exists in its namespace and has the key.
pub validate_alert-CanSend :
    (get : GetSecret) (alert : Alert) → (validate_alert get alert ≡ ok tt) ↔ CanSend get alert
unfolding validate_alert
validate_alert-CanSend get alert =
    switch-ok _ refl (validate_webhook_lem get alert.namespace alert.spec.webhook)
      (validate_feishu_lem get alert.namespace alert.spec.feishu)
