-- ===== src/Copies/Attempts.antt =====
-- The reconcilers that copy the status before they change it, internal/controller/alert_controller.go
-- and internal/controller/aiprovider_controller.go, against the models on values.
use smart_log.Base.{◌≡◌}
use smart_log.Api.{NamespacedName}
use smart_log.Cluster.{Cluster}
use smart_log.Alerts
use smart_log.AiProviders
use smart_log.Copies.{Memory, attempt}
use smart_log.Copies.Compared.{MemoryLaws}
use smart_log.Copies.Faithful.{attempt_faithful}
use smart_log.Copies.Providers
use smart_log.Copies.Providers.Faithful.{provider_attempt_faithful}

-- The reconcilers of alerts and of providers, which copy the status by `DeepCopy`, set the condition
-- in place and compare the two, do what the models on values do: whether and what they write is the
-- same, as long as setting a condition writes to no array but that of its slice.
pub attempts_faithful :
    (C : Cluster) (M : Memory)
    → MemoryLaws C M
    → (key : NamespacedName) (s : C.State)
    → (attempt C M key s ≡ Alerts.attempt C key s)
      × (Providers.attempt C M key s ≡ AiProviders.attempt C key s)
attempts_faithful C M laws key s =
    (attempt_faithful C M laws key s, provider_attempt_faithful C M laws key s)
