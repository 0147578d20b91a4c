-- ===== src/DeepCopy/Pointed.antt =====
-- api/v1alpha1/zz_generated.deepcopy.go: the methods DeepCopy, which give a pointer to a copy, or nil for
-- nil.
use smart_log.DeepCopy.{Copier, assign, copy_pointer}
use smart_log.DeepCopy.Structs.{Vendored, Pointer}
use smart_log.DeepCopy.Held.{
  own, Cell, kind, webhook_header_type, log_rule_type, alert_target_type, rate_limit_spec_type,
  multiline_spec_type, ai_enrichment_spec_type, provider_reference_type, monitor_pod_reference_type,
  pod_reference_type, alert_record_status_type, gemini_provider_spec_type,
  open_ai_provider_spec_type, ai_provider_spec_type, ai_provider_status_type, webhook_spec_type,
  feishu_spec_type, alert_spec_type, alert_status_type, alert_group_spec_type,
  alert_group_status_type, alert_record_spec_type, monitor_pod_spec_type, monitor_pod_status_type,
  ai_provider_type, alert_type, alert_group_type, alert_record_type, monitor_pod_type,
  ai_provider_list_type, alert_list_type, alert_group_list_type, alert_record_list_type,
  monitor_pod_list_type,
}
use smart_log.DeepCopy.Specs.{
  Libraries, copy_gemini_provider_spec, copy_open_ai_provider_spec, copy_ai_provider_spec,
  copy_ai_provider_status, copy_webhook_spec, copy_feishu_spec, copy_alert_spec, copy_alert_status,
  copy_alert_group_spec, copy_alert_group_status, copy_alert_record_spec, copy_monitor_pod_spec,
  copy_monitor_pod_status,
}
use smart_log.DeepCopy.Objects.{
  copy_ai_provider, copy_ai_provider_list, copy_alert, copy_alert_list, copy_alert_group,
  copy_alert_group_list, copy_alert_record, copy_alert_record_list, copy_monitor_pod,
  copy_monitor_pod_list,
}

module _ (V : Vendored) (L : Libraries V) where
  unfoldable pub deep_copy_webhook_header : Copier (Cell V) Pointer
  deep_copy_webhook_header = copy_pointer (kind V (own webhook_header_type)) assign

  unfoldable pub deep_copy_log_rule : Copier (Cell V) Pointer
  deep_copy_log_rule = copy_pointer (kind V (own log_rule_type)) assign

  unfoldable pub deep_copy_alert_target : Copier (Cell V) Pointer
  deep_copy_alert_target = copy_pointer (kind V (own alert_target_type)) assign

  unfoldable pub deep_copy_rate_limit_spec : Copier (Cell V) Pointer
  deep_copy_rate_limit_spec = copy_pointer (kind V (own rate_limit_spec_type)) assign

  unfoldable pub deep_copy_multiline_spec : Copier (Cell V) Pointer
  deep_copy_multiline_spec = copy_pointer (kind V (own multiline_spec_type)) assign

  unfoldable pub deep_copy_ai_enrichment_spec : Copier (Cell V) Pointer
  deep_copy_ai_enrichment_spec = copy_pointer (kind V (own ai_enrichment_spec_type)) assign

  unfoldable pub deep_copy_provider_reference : Copier (Cell V) Pointer
  deep_copy_provider_reference = copy_pointer (kind V (own provider_reference_type)) assign

  unfoldable pub deep_copy_monitor_pod_reference : Copier (Cell V) Pointer
  deep_copy_monitor_pod_reference = copy_pointer (kind V (own monitor_pod_reference_type)) assign

  unfoldable pub deep_copy_pod_reference : Copier (Cell V) Pointer
  deep_copy_pod_reference = copy_pointer (kind V (own pod_reference_type)) assign

  unfoldable pub deep_copy_alert_record_status : Copier (Cell V) Pointer
  deep_copy_alert_record_status = copy_pointer (kind V (own alert_record_status_type)) assign

  unfoldable pub deep_copy_gemini_provider_spec : Copier (Cell V) Pointer
  unfolding copy_gemini_provider_spec
  deep_copy_gemini_provider_spec =
      copy_pointer (kind V (own gemini_provider_spec_type)) (copy_gemini_provider_spec V L)

  unfoldable pub deep_copy_open_ai_provider_spec : Copier (Cell V) Pointer
  unfolding copy_open_ai_provider_spec
  deep_copy_open_ai_provider_spec =
      copy_pointer (kind V (own open_ai_provider_spec_type)) (copy_open_ai_provider_spec V L)

  unfoldable pub deep_copy_ai_provider_spec : Copier (Cell V) Pointer
  unfolding copy_ai_provider_spec
  deep_copy_ai_provider_spec =
      copy_pointer (kind V (own ai_provider_spec_type)) (copy_ai_provider_spec V L)

  unfoldable pub deep_copy_ai_provider_status : Copier (Cell V) Pointer
  unfolding copy_ai_provider_status
  deep_copy_ai_provider_status =
      copy_pointer (kind V (own ai_provider_status_type)) (copy_ai_provider_status V L)

  unfoldable pub deep_copy_webhook_spec : Copier (Cell V) Pointer
  unfolding copy_webhook_spec
  deep_copy_webhook_spec = copy_pointer (kind V (own webhook_spec_type)) (copy_webhook_spec V L)

  unfoldable pub deep_copy_feishu_spec : Copier (Cell V) Pointer
  unfolding copy_feishu_spec
  deep_copy_feishu_spec = copy_pointer (kind V (own feishu_spec_type)) (copy_feishu_spec V L)

  unfoldable pub deep_copy_alert_spec : Copier (Cell V) Pointer
  unfolding copy_alert_spec
  deep_copy_alert_spec = copy_pointer (kind V (own alert_spec_type)) (copy_alert_spec V L)

  unfoldable pub deep_copy_alert_status : Copier (Cell V) Pointer
  unfolding copy_alert_status
  deep_copy_alert_status = copy_pointer (kind V (own alert_status_type)) (copy_alert_status V L)

  unfoldable pub deep_copy_alert_group_spec : Copier (Cell V) Pointer
  unfolding copy_alert_group_spec
  deep_copy_alert_group_spec =
      copy_pointer (kind V (own alert_group_spec_type)) (copy_alert_group_spec V L)

  unfoldable pub deep_copy_alert_group_status : Copier (Cell V) Pointer
  unfolding copy_alert_group_status
  deep_copy_alert_group_status =
      copy_pointer (kind V (own alert_group_status_type)) (copy_alert_group_status V L)

  unfoldable pub deep_copy_alert_record_spec : Copier (Cell V) Pointer
  unfolding copy_alert_record_spec
  deep_copy_alert_record_spec =
      copy_pointer (kind V (own alert_record_spec_type)) (copy_alert_record_spec V L)

  unfoldable pub deep_copy_monitor_pod_spec : Copier (Cell V) Pointer
  unfolding copy_monitor_pod_spec
  deep_copy_monitor_pod_spec =
      copy_pointer (kind V (own monitor_pod_spec_type)) (copy_monitor_pod_spec V L)

  unfoldable pub deep_copy_monitor_pod_status : Copier (Cell V) Pointer
  unfolding copy_monitor_pod_status
  deep_copy_monitor_pod_status =
      copy_pointer (kind V (own monitor_pod_status_type)) (copy_monitor_pod_status V L)

  unfoldable pub deep_copy_ai_provider : Copier (Cell V) Pointer
  unfolding copy_ai_provider
  deep_copy_ai_provider = copy_pointer (kind V (own ai_provider_type)) (copy_ai_provider V L)

  unfoldable pub deep_copy_ai_provider_list : Copier (Cell V) Pointer
  unfolding copy_ai_provider_list
  deep_copy_ai_provider_list =
      copy_pointer (kind V (own ai_provider_list_type)) (copy_ai_provider_list V L)

  unfoldable pub deep_copy_alert : Copier (Cell V) Pointer
  unfolding copy_alert
  deep_copy_alert = copy_pointer (kind V (own alert_type)) (copy_alert V L)

  unfoldable pub deep_copy_alert_list : Copier (Cell V) Pointer
  unfolding copy_alert_list
  deep_copy_alert_list = copy_pointer (kind V (own alert_list_type)) (copy_alert_list V L)

  unfoldable pub deep_copy_alert_group : Copier (Cell V) Pointer
  unfolding copy_alert_group
  deep_copy_alert_group = copy_pointer (kind V (own alert_group_type)) (copy_alert_group V L)

  unfoldable pub deep_copy_alert_group_list : Copier (Cell V) Pointer
  unfolding copy_alert_group_list
  deep_copy_alert_group_list =
      copy_pointer (kind V (own alert_group_list_type)) (copy_alert_group_list V L)

  unfoldable pub deep_copy_alert_record : Copier (Cell V) Pointer
  unfolding copy_alert_record
  deep_copy_alert_record = copy_pointer (kind V (own alert_record_type)) (copy_alert_record V L)

  unfoldable pub deep_copy_alert_record_list : Copier (Cell V) Pointer
  unfolding copy_alert_record_list
  deep_copy_alert_record_list =
      copy_pointer (kind V (own alert_record_list_type)) (copy_alert_record_list V L)

  unfoldable pub deep_copy_monitor_pod : Copier (Cell V) Pointer
  unfolding copy_monitor_pod
  deep_copy_monitor_pod = copy_pointer (kind V (own monitor_pod_type)) (copy_monitor_pod V L)

  unfoldable pub deep_copy_monitor_pod_list : Copier (Cell V) Pointer
  unfolding copy_monitor_pod_list
  deep_copy_monitor_pod_list =
      copy_pointer (kind V (own monitor_pod_list_type)) (copy_monitor_pod_list V L)
