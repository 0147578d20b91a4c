-- ===== src/Examples/Waking.antt =====
-- The controllers, at concrete data.
use smart_log.Base.{Member, ◌≢◌, ap, arith, inl, refl, [], ◌∷◌}
use smart_log.Base.Dict.{lookup}
use smart_log.Conditions.{succeeded}
use smart_log.Alerts
use smart_log.Startup.{alert_reconciler}
use smart_log.Controllers.{secret_object, controller, requests}
use smart_log.Controllers.Woken.{alert_of_secret, requests-Concerns}
use smart_log.Examples.Memory.{memory}
use smart_log.Examples.Reconciles.{named, hook, ops, dev, server, server_lost, secrets_elsewhere}

validation_differs :
    Alerts.validate_alert (memory.get_secret server) ops
    ≢ Alerts.validate_alert (memory.get_secret server_lost) ops
unfolding Alerts.validate_alert Alerts.validate_secret_ref lookup
validation_differs e = absurd (ground (arith, ap succeeded e))

requests-Concerns_example :
    Member
      (named "ops")
      (requests (controller memory alert_reconciler) server_lost (secret_object hook))
requests-Concerns_example =
    requests-Concerns memory server server_lost (secret_object hook) alert_reconciler (named "ops")
      (alert_of_secret hook ops (ops ∷ dev ∷ []) secrets_elsewhere refl (inl refl)
        validation_differs)
