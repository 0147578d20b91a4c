-- ===== src/Alerts.antt =====
-- internal/controller/alert_controller.go: the reconciler of `Alert`.
pub mod Valid
pub mod Ready
pub mod Watch
use mathlib.Core.Logic.{ite}
use smart_log.Base.{ℕ, String, ◌<>◌, ◌==◌, Bool, true, false, ◌&&◌, ◌||◌, Option, none, some, List}
use smart_log.Base.{[], ◌∷◌, if◌then◌else◌}
use smart_log.Base.Dict
use smart_log.Errors.{Error, message, wrapped, is_not_found, error_text, Result, ok, err, ◌>>=◌}
use smart_log.Api.{NamespacedName, SecretKeySelector, Alert, AlertStatus-discrete, Condition}
use smart_log.Api.{condition_true, condition_false, Secret, WebhookSpec, FeishuSpec}
use smart_log.Secrets.{GetSecret, secret_key}
use smart_log.Conditions.{ready_condition}
use smart_log.Cluster.{Cluster}

-- `secret.Data[selector.Key]`
unfoldable pub check_key : SecretKeySelector → Secret → Result (Unit {0})
check_key selector secret = elim (Dict.lookup selector.key secret.entries) [
  | some value ↦ ok tt
  | none ↦
      err (
        message
          ("key '" <> (selector.key <> ("' not found in secret '" <> (selector.name <> "'")))))
]

unfoldable pub validate_secret_ref : GetSecret → String → SecretKeySelector → Result (Unit {0})
unfolding check_key
validate_secret_ref get namespace selector = elim (get (secret_key namespace selector)) [
  | ok secret ↦ check_key selector secret
  | err e ↦
      if is_not_found e
      then err (message ("referenced secret '" <> (selector.name <> "' not found")))
      else err (wrapped ("failed to get referenced secret '" <> (selector.name <> "': ")) e "")
]

validate_webhook : GetSecret → String → Option WebhookSpec → Result (Unit {0})
validate_webhook get namespace none =
    err (message "webhook spec is not defined for alert type Webhook")
validate_webhook get namespace (some webhook) =
    validate_secret_ref get namespace webhook.url_secret_ref

-- The signing secret is checked where one is configured.
validate_signing : GetSecret → String → Option SecretKeySelector → Result (Unit {0})
validate_signing get namespace none = ok tt
validate_signing get namespace (some selector) = validate_secret_ref get namespace selector

validate_feishu : GetSecret → String → Option FeishuSpec → Result (Unit {0})
unfolding validate_signing
validate_feishu get namespace none =
    err (message "feishu spec is not defined for alert type Feishu")
validate_feishu get namespace (some feishu) = do
  _ ← validate_secret_ref get namespace feishu.url_secret_ref
  validate_signing get namespace feishu.secret_key_secret_ref

unfoldable pub validate_alert : GetSecret → Alert → Result (Unit {0})
unfolding validate_webhook validate_feishu
validate_alert get alert =
    if alert.spec.kind == "Webhook"
    then validate_webhook get alert.namespace alert.spec.webhook
    else if alert.spec.kind == "Feishu"
    then validate_feishu get alert.namespace alert.spec.feishu
    else err (message ("unsupported alert type: " <> alert.spec.kind))

unfoldable pub webhook_related : String → Option WebhookSpec → Bool
webhook_related secret none = false
webhook_related secret (some webhook) = webhook.url_secret_ref.name == secret

signing_related : String → Option SecretKeySelector → Bool
signing_related secret none = false
signing_related secret (some selector) = selector.name == secret

unfoldable pub feishu_related : String → Option FeishuSpec → Bool
unfolding signing_related
feishu_related secret none = false
feishu_related secret (some feishu) =
    feishu.url_secret_ref.name == secret || signing_related secret feishu.secret_key_secret_ref

-- Whether the secret of this name is one that the alert refers to, in either section.
unfoldable pub refers_to : String → Alert → Bool
unfolding webhook_related feishu_related
refers_to secret alert =
    webhook_related secret alert.spec.webhook || feishu_related secret alert.spec.feishu

-- The loop of `findAlertsForSecret`.
unfoldable pub requests_for : String → List Alert → List NamespacedName
unfolding refers_to
requests_for secret [] = []
requests_for secret (alert ∷ alerts) =
    let rest = requests_for secret alerts in
    if refers_to secret alert
    then record { name = alert.name; namespace = alert.namespace } ∷ rest
    else rest

module _ (C : Cluster) where
  -- The alert with the condition that its validation gives.
  unfoldable pub with_condition : C.State → Alert → Alert
  unfolding ready_condition
  with_condition s alert = record alert {
    status = record {
      conditions =
          C.set_status_condition (C.clock s) alert.status.conditions (
            ready_condition (validate_alert (C.get_secret s) alert) "Alert configuration is valid");
    };
  }

  -- The function that `Reconcile` hands to `RetryOnConflict`.
  unfoldable pub attempt : NamespacedName → C.State → Option Error × C.State
  unfolding with_condition
  attempt key s = elim (C.get_alert s key) [
    | err e ↦ if is_not_found e then (none, s) else (some e, s)
    | ok alert ↦
        let updated = with_condition s alert in
        ite (AlertStatus-discrete alert.status updated.status) (none, s)
          (C.update_alert_status s updated)
  ]

  unfoldable pub reconcile : NamespacedName → C.State → Option Error × C.State
  reconcile key s = C.retry_on_conflict (attempt key) s

  unfoldable pub find_alerts_for_secret : C.State → Secret → List NamespacedName
  unfolding requests_for
  find_alerts_for_secret s secret = elim (C.list_alerts s secret.namespace) [
    | err e ↦ []
    | ok alerts ↦ requests_for secret.name alerts
  ]
