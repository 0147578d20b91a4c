-- ===== src/DeepCopy/Specs.antt =====
-- api/v1alpha1/zz_generated.deepcopy.go: the methods DeepCopyInto of the specs and the statuses. Those of
-- structs without pointers assign, which is `assign`.
use smart_log.DeepCopy.{Copier, assign, copy_pointer, copy_slice}
use smart_log.DeepCopy.Copying.{Copying}
use smart_log.DeepCopy.Structs.{
  Vendored, Pointer, AiProviderSpecStruct, AiProviderStatusStruct, AlertGroupSpecStruct,
  AlertGroupStatusStruct, AlertRecordSpecStruct, AlertSpecStruct, AlertStatusStruct,
  FeishuSpecStruct, GeminiProviderSpecStruct, MonitorPodSpecStruct, MonitorPodStatusStruct,
  OpenAiProviderSpecStruct, WebhookSpecStruct,
}
use smart_log.DeepCopy.Held.{
  own, Cell, kind, string_type, secret_ref_type, condition_type, webhook_header_type, log_rule_type,
  rate_limit_spec_type, multiline_spec_type, ai_enrichment_spec_type, gemini_provider_spec_type,
  open_ai_provider_spec_type, webhook_spec_type, feishu_spec_type,
}

-- The copiers of the libraries, each with what it copies and that it copies deeply.
pub record Libraries (V : Vendored) : Type 1 where
  pub object_meta : Copying (Cell V) V.ObjectMeta
  pub list_meta : Copying (Cell V) V.ListMeta
  pub label_selector : Copying (Cell V) V.LabelSelector
  pub secret_key_selector : Copying (Cell V) V.SecretKeySelector
  pub condition : Copying (Cell V) V.Condition
  pub time : Copying (Cell V) V.Time
  pub time_pointer : Copying (Cell V) Pointer

module _ (V : Vendored) (L : Libraries V) where
  unfoldable pub copy_gemini_provider_spec : Copier (Cell V) (GeminiProviderSpecStruct V)
  copy_gemini_provider_spec x h =
      let (api_key_secret_ref, h₁) = L.secret_key_selector.copy x.api_key_secret_ref h in
      (record x { api_key_secret_ref = api_key_secret_ref }, h₁)

  unfoldable pub copy_open_ai_provider_spec : Copier (Cell V) (OpenAiProviderSpecStruct V)
  copy_open_ai_provider_spec x h =
      let (api_key_secret_ref, h₁) = L.secret_key_selector.copy x.api_key_secret_ref h in
      (record x { api_key_secret_ref = api_key_secret_ref }, h₁)

  unfoldable pub copy_ai_provider_spec : Copier (Cell V) AiProviderSpecStruct
  unfolding copy_gemini_provider_spec copy_open_ai_provider_spec
  copy_ai_provider_spec x h =
      let (gemini, h₁) =
        copy_pointer (kind V (own gemini_provider_spec_type)) copy_gemini_provider_spec x.gemini
          h in
      let (open_ai, h₂) =
        copy_pointer (kind V (own open_ai_provider_spec_type)) copy_open_ai_provider_spec x.open_ai
          h₁ in
      (record x { gemini = gemini; open_ai = open_ai }, h₂)

  unfoldable pub copy_ai_provider_status : Copier (Cell V) AiProviderStatusStruct
  copy_ai_provider_status x h =
      let (conditions, h₁) = copy_slice (kind V condition_type) L.condition.copy x.conditions h in
      (record x { conditions = conditions }, h₁)

  unfoldable pub copy_webhook_spec : Copier (Cell V) (WebhookSpecStruct V)
  copy_webhook_spec x h =
      let (url_secret_ref, h₁) = L.secret_key_selector.copy x.url_secret_ref h in
      let (headers, h₂) = copy_slice (kind V (own webhook_header_type)) assign x.headers h₁ in
      (record x { url_secret_ref = url_secret_ref; headers = headers }, h₂)

  unfoldable pub copy_feishu_spec : Copier (Cell V) (FeishuSpecStruct V)
  copy_feishu_spec x h =
      let (url_secret_ref, h₁) = L.secret_key_selector.copy x.url_secret_ref h in
      let (secret_key_secret_ref, h₂) =
        copy_pointer (kind V secret_ref_type) L.secret_key_selector.copy x.secret_key_secret_ref
          h₁ in
      (
        record x { url_secret_ref = url_secret_ref; secret_key_secret_ref = secret_key_secret_ref },
        h₂,
      )

  unfoldable pub copy_alert_spec : Copier (Cell V) AlertSpecStruct
  unfolding copy_webhook_spec copy_feishu_spec
  copy_alert_spec x h =
      let (webhook, h₁) =
        copy_pointer (kind V (own webhook_spec_type)) copy_webhook_spec x.webhook h in
      let (feishu, h₂) =
        copy_pointer (kind V (own feishu_spec_type)) copy_feishu_spec x.feishu h₁ in
      (record x { webhook = webhook; feishu = feishu }, h₂)

  unfoldable pub copy_alert_status : Copier (Cell V) AlertStatusStruct
  copy_alert_status x h =
      let (conditions, h₁) = copy_slice (kind V condition_type) L.condition.copy x.conditions h in
      (record x { conditions = conditions }, h₁)

  unfoldable pub copy_alert_group_spec : Copier (Cell V) AlertGroupSpecStruct
  copy_alert_group_spec x h =
      let (alert_names, h₁) = copy_slice (kind V string_type) assign x.alert_names h in
      (record x { alert_names = alert_names }, h₁)

  unfoldable pub copy_alert_group_status : Copier (Cell V) AlertGroupStatusStruct
  copy_alert_group_status x h =
      let (conditions, h₁) = copy_slice (kind V condition_type) L.condition.copy x.conditions h in
      (record x { conditions = conditions }, h₁)

  unfoldable pub copy_alert_record_spec : Copier (Cell V) (AlertRecordSpecStruct V)
  copy_alert_record_spec x h =
      let (triggered_at, h₁) = L.time.copy x.triggered_at h in
      (record x { triggered_at = triggered_at }, h₁)

  unfoldable pub copy_monitor_pod_spec : Copier (Cell V) (MonitorPodSpecStruct V)
  copy_monitor_pod_spec x h =
      let (selector, h₁) = L.label_selector.copy x.selector h in
      let (container_names, h₂) = copy_slice (kind V string_type) assign x.container_names h₁ in
      let (rules, h₃) = copy_slice (kind V (own log_rule_type)) assign x.rules h₂ in
      let (rate_limit, h₄) =
        copy_pointer (kind V (own rate_limit_spec_type)) assign x.rate_limit h₃ in
      let (multiline, h₅) = copy_pointer (kind V (own multiline_spec_type)) assign x.multiline h₄ in
      let (ai_enrichment, h₆) =
        copy_pointer (kind V (own ai_enrichment_spec_type)) assign x.ai_enrichment h₅ in
      (
        record x {
          selector = selector;
          container_names = container_names;
          rules = rules;
          rate_limit = rate_limit;
          multiline = multiline;
          ai_enrichment = ai_enrichment;
        },
        h₆,
      )

  unfoldable pub copy_monitor_pod_status : Copier (Cell V) MonitorPodStatusStruct
  copy_monitor_pod_status x h =
      let (monitored_pods, h₁) = copy_slice (kind V string_type) assign x.monitored_pods h in
      let (last_triggered_time, h₂) = L.time_pointer.copy x.last_triggered_time h₁ in
      let (conditions, h₃) = copy_slice (kind V condition_type) L.condition.copy x.conditions h₂ in
      (
        record x {
          monitored_pods = monitored_pods;
          last_triggered_time = last_triggered_time;
          conditions = conditions;
        },
        h₃,
      )
