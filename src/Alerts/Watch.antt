-- ===== src/Alerts/Watch.antt =====
-- The watch on secrets misses no alert.
use smart_log.Base.{String, ◌==◌, eq_iff, ◌≡◌, ◌≢◌, ◌⊎◌, inl, inr, refl, ap, false}
use smart_log.Base.{Option, none, some, List, [], ◌∷◌, Member, Bool-cases, ||-eq-false, Member-if}
use smart_log.Api.{NamespacedName, SecretKeySelector, Alert, WebhookSpec, FeishuSpec}
use smart_log.Secrets.{GetSecret, secret_key}
use smart_log.Alerts.{validate_secret_ref, validate_webhook, validate_feishu, validate_signing}
use smart_log.Alerts.{validate_alert, webhook_related, signing_related, feishu_related, refers_to}
use smart_log.Alerts.{requests_for}

-- Two states of the secrets that differ in one of them at most.
module _ (changed : NamespacedName) (get get' : GetSecret)
    (elsewhere : (key : NamespacedName) → key ≢ changed → get key ≡ get' key) where
  ref_kept :
      (namespace : String) (selector : SecretKeySelector)
      → (selector.name == changed.name) ≡ false
      → validate_secret_ref get namespace selector ≡ validate_secret_ref get' namespace selector
  unfolding validate_secret_ref
  ref_kept namespace selector other =
      let same = elsewhere (secret_key namespace selector) (λ e.
        cc
          (other, (eq_iff selector.name changed.name).1 (ap (λ (k : NamespacedName). k.name) e))) in
      rw (same, validate_secret_ref)

  webhook_kept :
      (namespace : String) (spec : Option WebhookSpec)
      → webhook_related changed.name spec ≡ false
      → validate_webhook get namespace spec ≡ validate_webhook get' namespace spec
  unfolding validate_webhook webhook_related
  webhook_kept namespace none h = refl
  webhook_kept namespace (some webhook) h = ref_kept namespace webhook.url_secret_ref h

  signing_kept :
      (namespace : String) (spec : Option SecretKeySelector)
      → signing_related changed.name spec ≡ false
      → validate_signing get namespace spec ≡ validate_signing get' namespace spec
  unfolding validate_signing signing_related
  signing_kept namespace none h = refl
  signing_kept namespace (some selector) h = ref_kept namespace selector h

  feishu_kept :
      (namespace : String) (spec : Option FeishuSpec)
      → feishu_related changed.name spec ≡ false
      → validate_feishu get namespace spec ≡ validate_feishu get' namespace spec
  unfolding validate_feishu feishu_related
  feishu_kept namespace none h = refl
  feishu_kept namespace (some feishu) h =
      let unrelated =
        ||-eq-false (feishu.url_secret_ref.name == changed.name)
          (signing_related changed.name feishu.secret_key_secret_ref) h in
      rw (
        ref_kept namespace feishu.url_secret_ref unrelated.0,
        signing_kept namespace feishu.secret_key_secret_ref unrelated.1,
      )

  unreferenced_kept :
      (alert : Alert)
      → refers_to changed.name alert ≡ false
      → validate_alert get alert ≡ validate_alert get' alert
  unfolding validate_alert refers_to
  unreferenced_kept alert h =
      let unrelated =
        ||-eq-false (webhook_related changed.name alert.spec.webhook)
          (feishu_related changed.name alert.spec.feishu) h in
      rw (
        webhook_kept alert.namespace alert.spec.webhook unrelated.0,
        feishu_kept alert.namespace alert.spec.feishu unrelated.1,
      )

  -- Of the listed alerts, each one whose validation a change of one secret can alter is among the
  -- requests for that secret's name.
  pub alert_requests_complete :
      (alert : Alert) (alerts : List Alert)
      → Member alert alerts
      → (validate_alert get alert ≡ validate_alert get' alert)
        ⊎ Member
            (record { name = alert.name; namespace = alert.namespace })
            (requests_for changed.name alerts)
  unfolding requests_for
  alert_requests_complete alert [] m = elim m [ ]
  alert_requests_complete alert (a ∷ rest) (inl e) = elim (Bool-cases (refers_to changed.name a)) [
    | inl hit ↦ inr (rw hit (inl (λ i. record { name = (e i).name; namespace = (e i).namespace })))
    | inr miss ↦ inl (unreferenced_kept alert (rw e miss))
  ]
  alert_requests_complete alert (a ∷ rest) (inr m) = elim (alert_requests_complete alert rest m) [
    | inl same ↦ inl same
    | inr listed ↦ inr (Member-if (refers_to changed.name a) _ _ _ listed)
  ]
