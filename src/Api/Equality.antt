-- ===== src/Api/Equality.antt =====
-- `reflect.DeepEqual` on the status types.
use mathlib.Core.Bool.{Bool-discrete}
use mathlib.Core.Logic.{dite}
use native.Mathlib.Decide.{ℕ_discrete}
use smart_log.Base.{String, ◌==◌, eq_iff, true}
use smart_log.Api.Meta.{Condition}
use smart_log.Api.AlertTypes.{AlertStatus}
use smart_log.Api.AiProviderTypes.{AiProviderStatus}
use smart_log.Api.MonitorPodTypes.{MonitorPodStatus}

unfoldable pub String-discrete : Discrete String
String-discrete s t =
    dite (Bool-discrete (s == t) true) (λ same. yes ((eq_iff s t).0 same))
      (λ differ. no (λ p. differ ((eq_iff s t).1 p)))

unfoldable pub Condition-discrete : Discrete Condition
Condition-discrete = hlevel (String-discrete, ℕ_discrete)

unfoldable pub AlertStatus-discrete : Discrete AlertStatus
AlertStatus-discrete = hlevel Condition-discrete

unfoldable pub AiProviderStatus-discrete : Discrete AiProviderStatus
AiProviderStatus-discrete = hlevel Condition-discrete

unfoldable pub MonitorPodStatus-discrete : Discrete MonitorPodStatus
MonitorPodStatus-discrete = hlevel (Condition-discrete, String-discrete, ℕ_discrete)
