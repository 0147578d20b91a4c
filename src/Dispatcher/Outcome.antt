-- ===== src/Dispatcher/Outcome.antt =====
-- What a dispatch comes to.
use smart_log.Base.{String, ◌≡◌, ◌⊎◌, Option, none, some, List, ◌∷◌}
use smart_log.Base.Int.{ℤ}
use smart_log.Errors.{Result, ok}
use smart_log.Api.{Alert, MonitorPod, Pod, LogRule, AlertRecord}
use smart_log.Cluster.{Cluster}
use smart_log.RateLimiter.{InMemoryRateLimiter}
use smart_log.Templates.{Tools, AiData}
use smart_log.Http.{Http}
use smart_log.Targets.{get_alerts_from_target}
use smart_log.Dispatcher.{enriched}
use smart_log.Dispatcher.Recorded.{RecordedIf, event_values}

module _ (C : Cluster) (http : Http C.State) (ai_http : ℤ → Http C.State) (tools : Tools)
    (set_owner : MonitorPod → AlertRecord → Result AlertRecord) (mp : MonitorPod) (pod : Pod)
    (rule : LogRule) (container line : String) where
  abbrev targets : C.State → Result (List Alert)
  targets s = get_alerts_from_target C s mp.spec.alert_target mp.namespace

  -- The channels are notified, unless the analysis panics.
  abbrev pub Notified : List Alert → C.State → Option C.State → Type 0
  Notified alerts s out =
      let analysis =
        enriched C http ai_http tools set_owner mp
          (event_values C http ai_http tools set_owner pod rule container line s) s in
      ((analysis ≡ none) × (out ≡ none))
      ⊎ ((found : Option AiData) × (t : C.State) × (analysis ≡ some (found, t))
          × RecordedIf C http ai_http tools set_owner mp pod rule container line alerts found s t
              out)

  -- The target gives no channel, and nothing happens, or it gives some, which are notified.
  abbrev pub Targeted : C.State → Option C.State → Type 0
  Targeted s out =
      (((alert : Alert) (alerts : List Alert) → targets s ≡ ok (alert ∷ alerts) → ⊥)
        × (out ≡ some s))
      ⊎ ((alert : Alert) × (alerts : List Alert) × (targets s ≡ ok (alert ∷ alerts))
          × Notified (alert ∷ alerts) s out)

  -- The limiter with the dispatch entered, and the state that the target makes, if it makes one.
  abbrev pub with_limiter :
      InMemoryRateLimiter → Option C.State → Option (InMemoryRateLimiter × C.State)
  with_limiter limiter none = none
  with_limiter limiter (some t) = some (limiter, t)
