-- ===== src/Dispatcher/Quiet.antt =====
-- When a dispatch leaves the cluster as it is.
use smart_log.Base.{String, ◌≡◌, refl, ◌⊎◌, inl, inr, true, some, List, [], ◌∷◌, Bool-cases}
use smart_log.Base.Int.{ℤ}
use smart_log.Errors.{Result, ok, Result-cases}
use smart_log.Api.{MonitorPod, Pod, LogRule, AlertRecord, Alert}
use smart_log.Cluster.{Cluster}
use smart_log.RateLimiter.{InMemoryRateLimiter}
use smart_log.Templates.{Tools}
use smart_log.Http.{Http}
use smart_log.Targets.{get_alerts_from_target}
use smart_log.Dispatcher.{check_rate, notify_target, dispatch_alert}

module _ (C : Cluster) (http : Http C.State) (ai_http : ℤ → Http C.State) (tools : Tools)
    (set_owner : MonitorPod → AlertRecord → Result AlertRecord) where
  -- The target gives at least one channel.
  pub HasChannel : MonitorPod → C.State → Type 0
  HasChannel mp s =
      (alert : Alert) × (alerts : List Alert) × (get_alerts_from_target C s mp.spec.alert_target
          mp.namespace
        ≡ ok (alert ∷ alerts))

  notify_target-HasChannel :
      (mp : MonitorPod) (pod : Pod) (rule : LogRule) (container line : String) (s : C.State)
      → (notify_target C http ai_http tools set_owner mp pod rule container line s ≡ some s)
        ⊎ HasChannel mp s
  unfolding notify_target HasChannel
  notify_target-HasChannel mp pod rule container line s =
      elim (Result-cases (get_alerts_from_target C s mp.spec.alert_target mp.namespace)) [
        | inl ([], e) ↦ inl (rw (notify_target, e) refl)
        | inl (alert ∷ alerts, e) ↦ inr (alert, alerts, e)
        | inr (x, e) ↦ inl (rw (notify_target, e) refl)
      ]

  -- A dispatch sends nothing and writes nothing, whatever its end, unless the rate limiter lets the
  -- alert through and the target gives at least one channel.
  pub dispatch_alert_quiet :
      (mp : MonitorPod) (pod : Pod) (rule : LogRule) (container line : String)
      (limiter : InMemoryRateLimiter) (s : C.State)
      → (dispatch_alert C http ai_http tools set_owner mp pod rule container line (limiter, s)
          ≡ some ((check_rate tools mp rule (C.clock s) limiter).0, s))
        ⊎ (((check_rate tools mp rule (C.clock s) limiter).1 ≡ true) × HasChannel mp s)
  unfolding dispatch_alert
  dispatch_alert_quiet mp pod rule container line limiter s =
      elim (Bool-cases (check_rate tools mp rule (C.clock s) limiter).1) [
        | inr e ↦ inl (rw (dispatch_alert, e) refl)
        | inl e ↦ elim (notify_target-HasChannel mp pod rule container line s) [
          | inl p ↦ inl (rw (dispatch_alert, e, p) refl)
          | inr found ↦ inr (e, found)
        ]
      ]
