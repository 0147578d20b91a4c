-- ===== src/Dispatcher/Channels.antt =====
-- From the reconciler of alerts, internal/controller/alert_controller.go, to the channels of a dispatch.
use smart_log.Base.{String, ◌≡◌, refl, ap, ◌∙◌, ◌⊎◌, inl, inr, true, false, none, some, [], ◌∷◌}
use smart_log.Base.Int.{ℤ}
use smart_log.Errors.{Result, ok, Result-cases}
use smart_log.Api.{NamespacedName, Alert, AlertTarget, MonitorPod, Pod, LogRule, AlertRecord}
use smart_log.Cluster.{Cluster, HasHelpers}
use smart_log.Conditions.{succeeded}
use smart_log.Secrets.{GetSecret}
use smart_log.Templates.{Tools}
use smart_log.Http.{Http}
use smart_log.Alerts.{validate_alert, reconcile}
use smart_log.Alerts.Ready.{StoresAlerts, reconcile_alert-Reports}
use smart_log.Alerts.Valid.{CanSend, validate_alert-CanSend}
use smart_log.Targets.{add_ready, get_alerts_from_target}
use smart_log.Dispatcher.{notify_target, notify}

succeeded-CanSend :
    (get : GetSecret) (alert : Alert)
    → (CanSend get alert × (succeeded (validate_alert get alert) ≡ true))
      ⊎ ((CanSend get alert → ⊥) × (succeeded (validate_alert get alert) ≡ false))
succeeded-CanSend get alert =
    let valid = validate_alert-CanSend get alert in
    elim (Result-cases (validate_alert get alert)) [
      | inl (u, e) ↦ inl (valid.0 e, ap succeeded e)
      | inr (x, e) ↦ inr (λ can. cc (valid.1 can, e), ap succeeded e)
    ]

abbrev pub alert_named : String → AlertTarget
alert_named name = record { kind = "Alert"; name = name }

module _ (C : Cluster) where
  target_of :
      (s : C.State) (key : NamespacedName) (alert : Alert)
      → C.get_alert s key ≡ ok alert
      → get_alerts_from_target C s (alert_named key.name) key.namespace ≡ ok (add_ready C alert [])
  unfolding get_alerts_from_target
  target_of s key alert found = rw (get_alerts_from_target, found) refl

module _ (C : Cluster) (helpers : HasHelpers C) (store : StoresAlerts C) (http : Http C.State)
    (ai_http : ℤ → Http C.State) (tools : Tools)
    (set_owner : MonitorPod → AlertRecord → Result AlertRecord) where
  -- A reconcile of an alert ends without an error, and in the state that it leaves a MonitorPod of the
  -- alert's namespace whose target is this alert has an event to send. When the alert has the section
  -- of its type and the secrets that this section refers to are there with their keys, the event goes
  -- to this alert alone; otherwise nothing is sent and the state stays as it is.
  pub reconcile_alert-notify_target :
      (key : NamespacedName) (s t : C.State) (alert : Alert) (mp : MonitorPod) (pod : Pod)
      (rule : LogRule) (container line : String)
      → reconcile C key s ≡ (none, t)
      → C.get_alert t key ≡ ok alert
      → mp.spec.alert_target ≡ alert_named key.name
      → mp.namespace ≡ key.namespace
      → let out = notify_target C http ai_http tools set_owner mp pod rule container line t in
        (CanSend (C.get_secret t) alert
          × (out ≡ notify C http ai_http tools set_owner mp pod rule container line (alert ∷ []) t))
        ⊎ ((CanSend (C.get_secret t) alert → ⊥) × (out ≡ some t))
  unfolding notify_target add_ready
  reconcile_alert-notify_target key s t alert mp pod rule container line ended found at_alert here =
      let ready = reconcile_alert-Reports C helpers store key s t alert ended found in
      let given =
        ap (λ target. get_alerts_from_target C t target mp.namespace) at_alert
        ∙ ap (λ namespace. get_alerts_from_target C t (alert_named key.name) namespace) here
        ∙ target_of C t key alert found in
      elim (succeeded-CanSend (C.get_secret t) alert) [
        | inl (can, e) ↦ inl (can, rw (notify_target, given, add_ready, ready ∙ e) refl)
        | inr (cannot, e) ↦ inr (cannot, rw (notify_target, given, add_ready, ready ∙ e) refl)
      ]
