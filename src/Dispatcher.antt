-- ===== src/Dispatcher.antt =====
-- internal/controller/monitorpod_controller.go: `dispatchAlert`. The goroutines of the channels run one after
-- the other, in the order of the list; `set_owner` is `ctrl.SetControllerReference`.
pub mod Analysed
pub mod Channels
pub mod Counted
pub mod Keys
pub mod Limited
pub mod PerRule
pub mod Panics
pub mod Quiet
pub mod Recorded
pub mod Outcome
pub mod Threads
use smart_log.Base.{
  ℕ, zero, suc, ◌+◌, String, ◌<>◌, ◌==◌, Bool, true, false, Option, none, some, List, [], ◌∷◌,
  if◌then◌else◌,
}
use smart_log.Base.Int.{ℤ, pos, ltb_ℤ}
use smart_log.Errors.{Error, Result, ok, err}
use smart_log.Api.{
  Alert, MonitorPod, Pod, LogRule, AlertRecord, RateLimitSpec, AiEnrichmentSpec, NamespacedName,
}
use smart_log.Cluster.{Cluster}
use smart_log.RateLimiter.{InMemoryRateLimiter, allow}
use smart_log.Names.{sanitize_for_kubernetes}
use smart_log.Templates.{TemplateData, AiData, Tools}
use smart_log.Http.{Http}
use smart_log.Senders.{send_webhook_alert, send_feishu_alert}
use smart_log.Targets.{get_alerts_from_target}
use smart_log.Enrichment.{enrich_with_ai}

unfoldable pub rate_limit_key : MonitorPod → LogRule → String
rate_limit_key mp rule = mp.namespace <> ("/" <> (mp.name <> ("/" <> rule.name)))

-- The period, or five minutes in nanoseconds.
unfoldable pub limit_period : Tools → RateLimitSpec → ℤ
limit_period tools limit = elim (tools.parse_duration limit.period) [
  | none ↦ pos 300000000000
  | some period ↦ period
]

-- The first check, at a time.
unfoldable pub check_rate :
    Tools → MonitorPod → LogRule → ℕ → InMemoryRateLimiter → InMemoryRateLimiter × Bool
unfolding rate_limit_key limit_period
check_rate tools mp rule now limiter = elim mp.spec.rate_limit [
  | none ↦ (limiter, true)
  | some limit ↦
      if ltb_ℤ (pos 0) limit.limit
      then allow limiter (rate_limit_key mp rule) limit.limit (limit_period tools limit) now now
      else (limiter, true)
]

-- Ten seconds, or the configured timeout where it is a duration.
unfoldable pub ai_timeout : Tools → AiEnrichmentSpec → ℤ
ai_timeout tools ai =
    if ai.timeout == ""
    then pos 10000000000
    else elim (tools.parse_duration ai.timeout) [ none ↦ pos 10000000000 | some timeout ↦ timeout ]

ai_result : Result AiData → Option AiData
ai_result (ok ai) = some ai
ai_result (err e) = none

unfoldable pub new_alert_record :
    Tools → MonitorPod → Pod → LogRule → String → String → ℕ → AlertRecord
new_alert_record tools mp pod rule container line now =
    let sanitized =
      tools.of_runes (sanitize_for_kubernetes tools.unicode_lower (tools.runes rule.name)) in
    record {
      name = "";
      generate_name = mp.name <> ("-" <> (sanitized <> "-"));
      namespace = mp.namespace;
      labels =
          ("smartlog.smart-tools.com/monitorpod", mp.name)
          ∷ ("smartlog.smart-tools.com/rule", sanitized)
          ∷ [];
      annotations =
          if mp.spec.alert_record_ttl == ""
          then []
          else ("smartlog.smart-tools.com/ttl", mp.spec.alert_record_ttl) ∷ [];
      creation_timestamp = 0;
      spec = record {
        monitor_pod_ref = record { name = mp.name; namespace = mp.namespace };
        rule_name = rule.name;
        triggered_at = now;
        source_pod = record { name = pod.name; namespace = pod.namespace; container = container };
        log_snippet = line;
      };
      status = record { state = "" };
    }

-- `http` sends to the channels, `ai_http timeout` to the language model under its timeout.
module _ (C : Cluster) (http : Http C.State) (ai_http : ℤ → Http C.State) (tools : Tools)
    (set_owner : MonitorPod → AlertRecord → Result AlertRecord) where
  unfoldable pub send_to : MonitorPod → TemplateData → Alert → C.State → Bool × C.State
  send_to mp values alert s =
      if alert.spec.kind == "Webhook"
      then send_webhook_alert C http tools mp alert values s
      else if alert.spec.kind == "Feishu"
      then send_feishu_alert C http tools mp alert values s
      else (false, s)

  -- The number of the channels that reported success.
  unfoldable pub send_all : MonitorPod → TemplateData → List Alert → C.State → ℕ × C.State
  unfolding send_to
  send_all mp values [] s = (0, s)
  send_all mp values (alert ∷ alerts) s =
      let sent = send_to mp values alert s in
      let others = send_all mp values alerts sent.1 in
      (if sent.0 then suc others.0 else others.0, others.1)

  -- The analysis of the language model when it is enabled; its errors are logged.
  unfoldable pub enriched : MonitorPod → TemplateData → C.State → Option (Option AiData × C.State)
  unfolding ai_timeout ai_result
  enriched mp values s = elim mp.spec.ai_enrichment [
    | none ↦ some (none, s)
    | some ai ↦
        if ai.enabled
        then elim (enrich_with_ai C (ai_http (ai_timeout tools ai)) tools mp.namespace ai values
            s) [ none ↦ none | some out ↦ some (ai_result out.0, out.1) ]
        else some (none, s)
  ]

  -- The record of an alert, whose errors are logged.
  unfoldable pub save_record : MonitorPod → AlertRecord → C.State → C.State
  save_record mp alert_record s = elim (set_owner mp alert_record) [
    | err e ↦ s
    | ok owned ↦ (C.create_alert_record s owned).1
  ]

  -- The function that is handed to `RetryOnConflict`.
  unfoldable pub count_alert : NamespacedName → C.State → Option Error × C.State
  count_alert key s = elim (C.get_monitor_pod s key) [
    | err e ↦ (some e, s)
    | ok latest ↦ C.update_monitor_pod_status s (record latest {
      status = record latest.status {
        alerts_sent_count = latest.status.alerts_sent_count + 1;
        last_triggered_time = some (C.clock s);
      };
    })
  ]

  -- What follows a success.
  unfoldable pub register : MonitorPod → Pod → LogRule → String → String → C.State → C.State
  unfolding new_alert_record save_record count_alert
  register mp pod rule container line s =
      let saved =
        if mp.spec.record_alerts
        then save_record mp (new_alert_record tools mp pod rule container line (C.clock s)) s
        else s in
      (C.retry_on_conflict (count_alert (record { name = mp.name; namespace = mp.namespace }))
        saved).1

  -- The alert to its channels, from the lookup of the target on.
  unfoldable pub notify :
      MonitorPod → Pod → LogRule → String → String → List Alert → C.State → Option C.State
  unfolding enriched send_all register
  notify mp pod rule container line alerts s =
      let values : TemplateData = record {
        pod_name = pod.name;
        namespace = pod.namespace;
        container_name = container;
        log_line = line;
        rule_name = rule.name;
        timestamp = C.clock s;
        ai = none;
      } in
      elim (enriched mp values s) [
        | none ↦ none
        | some found ↦
            let sent = send_all mp (record values { ai = found.0 }) alerts found.1 in
            some
              (elim sent.0 [ zero ↦ sent.1 | suc n ↦ register mp pod rule container line sent.1 ])
      ]

  unfoldable pub notify_target :
      MonitorPod → Pod → LogRule → String → String → C.State → Option C.State
  unfolding notify
  notify_target mp pod rule container line s =
      elim (get_alerts_from_target C s mp.spec.alert_target mp.namespace) [
        | err e ↦ some s
        | ok [] ↦ some s
        | ok (alert ∷ alerts) ↦ notify mp pod rule container line (alert ∷ alerts) s
      ]

  unfoldable pub dispatch_alert :
      MonitorPod
      → Pod
      → LogRule
      → String
      → String
      → InMemoryRateLimiter × C.State
      → Option (InMemoryRateLimiter × C.State)
  unfolding check_rate notify_target
  dispatch_alert mp pod rule container line (limiter, s) =
      let checked = check_rate tools mp rule (C.clock s) limiter in
      if checked.1
      then elim (notify_target mp pod rule container line s) [
        | none ↦ none
        | some t ↦ some (checked.0, t)
      ]
      else some (checked.0, s)
