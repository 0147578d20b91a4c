-- ===== src/DeepCopy/SpecsCopied.antt =====
-- The specs and the statuses are deeply copied, field by field.
use smart_log.Base.{refl, String, Bool}
use smart_log.Base.Int.{ℤ}
use smart_log.Api.{MonitorPodReference, PodReference, AlertTarget}
use smart_log.DeepCopy.Copying.{Copying, plain, pointer, slice, ◌&◌, struct}
use smart_log.DeepCopy.Structs.{
  Vendored, AiProviderSpecStruct, AiProviderStatusStruct, AlertGroupSpecStruct,
  AlertGroupStatusStruct, AlertRecordSpecStruct, AlertSpecStruct, AlertStatusStruct,
  FeishuSpecStruct, GeminiProviderSpecStruct, MonitorPodSpecStruct, MonitorPodStatusStruct,
  OpenAiProviderSpecStruct, WebhookSpecStruct,
}
use smart_log.DeepCopy.Held.{
  own, Cell, kind, string_type, secret_ref_type, condition_type, webhook_header_type, log_rule_type,
  rate_limit_spec_type, multiline_spec_type, ai_enrichment_spec_type, gemini_provider_spec_type,
  open_ai_provider_spec_type, webhook_spec_type, feishu_spec_type,
}
use smart_log.DeepCopy.Specs.{
  Libraries, copy_gemini_provider_spec, copy_open_ai_provider_spec, copy_ai_provider_spec,
  copy_ai_provider_status, copy_webhook_spec, copy_feishu_spec, copy_alert_spec, copy_alert_status,
  copy_alert_group_spec, copy_alert_group_status, copy_alert_record_spec, copy_monitor_pod_spec,
  copy_monitor_pod_status,
}

module _ (V : Vendored) (L : Libraries V) where
  unfoldable pub gemini_provider_spec : Copying (Cell V) (GeminiProviderSpecStruct V)
  unfolding copy_gemini_provider_spec
  gemini_provider_spec =
      struct (λ x. ((x.base_url, x.model), x.api_key_secret_ref))
        (plain {A = String × String} & L.secret_key_selector) (copy_gemini_provider_spec V L)
        (λ x m. refl)

  unfoldable pub open_ai_provider_spec : Copying (Cell V) (OpenAiProviderSpecStruct V)
  unfolding copy_open_ai_provider_spec
  open_ai_provider_spec =
      struct (λ x. ((x.base_url, x.model), x.api_key_secret_ref))
        (plain {A = String × String} & L.secret_key_selector) (copy_open_ai_provider_spec V L)
        (λ x m. refl)

  unfoldable pub ai_provider_spec : Copying (Cell V) AiProviderSpecStruct
  unfolding copy_ai_provider_spec gemini_provider_spec open_ai_provider_spec
  ai_provider_spec =
      struct (λ x. (x.kind, (x.gemini, x.open_ai)))
        (plain {A = String}
          & pointer (kind V (own gemini_provider_spec_type)) gemini_provider_spec
          & pointer (kind V (own open_ai_provider_spec_type)) open_ai_provider_spec)
        (copy_ai_provider_spec V L) (λ x m. refl)

  unfoldable pub ai_provider_status : Copying (Cell V) AiProviderStatusStruct
  unfolding copy_ai_provider_status
  ai_provider_status =
      struct (λ x. x.conditions) (slice (kind V condition_type) L.condition)
        (copy_ai_provider_status V L) (λ x m. refl)

  unfoldable pub webhook_spec : Copying (Cell V) (WebhookSpecStruct V)
  unfolding copy_webhook_spec
  webhook_spec =
      struct (λ x. (x.body_template, (x.url_secret_ref, x.headers)))
        (plain {A = String}
          & L.secret_key_selector
          & slice (kind V (own webhook_header_type)) plain)
        (copy_webhook_spec V L) (λ x m. refl)

  unfoldable pub feishu_spec : Copying (Cell V) (FeishuSpecStruct V)
  unfolding copy_feishu_spec
  feishu_spec =
      struct (λ x. (x.url_secret_ref, x.secret_key_secret_ref))
        (L.secret_key_selector & pointer (kind V secret_ref_type) L.secret_key_selector)
        (copy_feishu_spec V L) (λ x m. refl)

  unfoldable pub alert_spec : Copying (Cell V) AlertSpecStruct
  unfolding copy_alert_spec webhook_spec feishu_spec
  alert_spec =
      struct (λ x. (x.kind, (x.webhook, x.feishu)))
        (plain {A = String}
          & pointer (kind V (own webhook_spec_type)) webhook_spec
          & pointer (kind V (own feishu_spec_type)) feishu_spec)
        (copy_alert_spec V L) (λ x m. refl)

  unfoldable pub alert_status : Copying (Cell V) AlertStatusStruct
  unfolding copy_alert_status
  alert_status =
      struct (λ x. x.conditions) (slice (kind V condition_type) L.condition) (copy_alert_status V L)
        (λ x m. refl)

  unfoldable pub alert_group_spec : Copying (Cell V) AlertGroupSpecStruct
  unfolding copy_alert_group_spec
  alert_group_spec =
      struct (λ x. x.alert_names) (slice (kind V string_type) plain) (copy_alert_group_spec V L)
        (λ x m. refl)

  unfoldable pub alert_group_status : Copying (Cell V) AlertGroupStatusStruct
  unfolding copy_alert_group_status
  alert_group_status =
      struct (λ x. ((x.total_alerts, x.ready_alerts), x.conditions))
        (plain {A = ℤ × ℤ} & slice (kind V condition_type) L.condition)
        (copy_alert_group_status V L) (λ x m. refl)

  unfoldable pub alert_record_spec : Copying (Cell V) (AlertRecordSpecStruct V)
  unfolding copy_alert_record_spec
  alert_record_spec =
      struct (λ x. ((x.monitor_pod_ref, x.rule_name, x.source_pod, x.log_snippet), x.triggered_at))
        (plain {A = MonitorPodReference × String × PodReference × String} & L.time)
        (copy_alert_record_spec V L) (λ x m. refl)

  unfoldable pub monitor_pod_spec : Copying (Cell V) (MonitorPodSpecStruct V)
  unfolding copy_monitor_pod_spec
  monitor_pod_spec =
      struct
        (λ x. (
          (x.alert_target, x.alert_template, x.record_alerts, x.alert_record_ttl),
          (
            x.selector,
            (x.container_names, (x.rules, (x.rate_limit, (x.multiline, x.ai_enrichment)))),
          ),
        ))
        (plain {A = AlertTarget × String × Bool × String}
          & L.label_selector
          & slice (kind V string_type) plain
          & slice (kind V (own log_rule_type)) plain
          & pointer (kind V (own rate_limit_spec_type)) plain
          & pointer (kind V (own multiline_spec_type)) plain
          & pointer (kind V (own ai_enrichment_spec_type)) plain)
        (copy_monitor_pod_spec V L) (λ x m. refl)

  unfoldable pub monitor_pod_status : Copying (Cell V) MonitorPodStatusStruct
  unfolding copy_monitor_pod_status
  monitor_pod_status =
      struct
        (λ x. (
          (x.monitored_pods_count, x.alerts_sent_count),
          (x.monitored_pods, (x.last_triggered_time, x.conditions)),
        ))
        (plain {A = ℤ × ℤ}
          & slice (kind V string_type) plain
          & L.time_pointer
          & slice (kind V condition_type) L.condition)
        (copy_monitor_pod_status V L) (λ x m. refl)
