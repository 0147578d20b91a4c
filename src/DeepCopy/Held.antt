-- ===== src/DeepCopy/Held.antt =====
-- The cells of the heap: a value of any type that is pointed to or stands in a slice.
use mathlib.Core.HLevel.{hedberg}
use mathlib.Core.Path.{subst_refl}
use smart_log.Base.{subst, String, ◌≡◌, refl, ap, ◌∙◌, Option, none, some}
use smart_log.Api.{
  WebhookHeader, LogRule, AlertTarget, RateLimitSpec, MultilineSpec, AiEnrichmentSpec,
  ProviderReference, MonitorPodReference, PodReference, AlertRecordStatus,
}
use smart_log.DeepCopy.{Storage}
use smart_log.DeepCopy.Structs.{
  Vendored, GeminiProviderSpecStruct, OpenAiProviderSpecStruct, AiProviderSpecStruct,
  AiProviderStatusStruct, WebhookSpecStruct, FeishuSpecStruct, AlertSpecStruct, AlertStatusStruct,
  AlertGroupSpecStruct, AlertGroupStatusStruct, AlertRecordSpecStruct, MonitorPodSpecStruct,
  MonitorPodStatusStruct, ObjectStruct, ListStruct,
}

-- The types of the file whose methods are modelled.
pub data OwnType : Type 0 where
  webhook_header_type log_rule_type alert_target_type : OwnType
  rate_limit_spec_type multiline_spec_type ai_enrichment_spec_type : OwnType
  provider_reference_type monitor_pod_reference_type pod_reference_type : OwnType
  alert_record_status_type gemini_provider_spec_type open_ai_provider_spec_type : OwnType
  ai_provider_spec_type ai_provider_status_type webhook_spec_type : OwnType
  feishu_spec_type alert_spec_type alert_status_type : OwnType
  alert_group_spec_type alert_group_status_type alert_record_spec_type : OwnType
  monitor_pod_spec_type monitor_pod_status_type ai_provider_type : OwnType
  alert_type alert_group_type alert_record_type : OwnType
  monitor_pod_type ai_provider_list_type alert_list_type : OwnType
  alert_group_list_type alert_record_list_type monitor_pod_list_type : OwnType

pub data CellType : Type 0 where
  own : OwnType → CellType
  string_type secret_ref_type condition_type other_type : CellType

unfoldable pub OwnType-discrete : Discrete OwnType
OwnType-discrete = hlevel

unfoldable pub CellType-discrete : Discrete CellType
CellType-discrete = hlevel OwnType-discrete

abbrev pub Held : Vendored → CellType → Type 0
Held V (own webhook_header_type) = WebhookHeader
Held V (own log_rule_type) = LogRule
Held V (own alert_target_type) = AlertTarget
Held V (own rate_limit_spec_type) = RateLimitSpec
Held V (own multiline_spec_type) = MultilineSpec
Held V (own ai_enrichment_spec_type) = AiEnrichmentSpec
Held V (own provider_reference_type) = ProviderReference
Held V (own monitor_pod_reference_type) = MonitorPodReference
Held V (own pod_reference_type) = PodReference
Held V (own alert_record_status_type) = AlertRecordStatus
Held V (own gemini_provider_spec_type) = GeminiProviderSpecStruct V
Held V (own open_ai_provider_spec_type) = OpenAiProviderSpecStruct V
Held V (own ai_provider_spec_type) = AiProviderSpecStruct
Held V (own ai_provider_status_type) = AiProviderStatusStruct
Held V (own webhook_spec_type) = WebhookSpecStruct V
Held V (own feishu_spec_type) = FeishuSpecStruct V
Held V (own alert_spec_type) = AlertSpecStruct
Held V (own alert_status_type) = AlertStatusStruct
Held V (own alert_group_spec_type) = AlertGroupSpecStruct
Held V (own alert_group_status_type) = AlertGroupStatusStruct
Held V (own alert_record_spec_type) = AlertRecordSpecStruct V
Held V (own monitor_pod_spec_type) = MonitorPodSpecStruct V
Held V (own monitor_pod_status_type) = MonitorPodStatusStruct
Held V (own ai_provider_type) = ObjectStruct V AiProviderSpecStruct AiProviderStatusStruct
Held V (own alert_type) = ObjectStruct V AlertSpecStruct AlertStatusStruct
Held V (own alert_group_type) = ObjectStruct V AlertGroupSpecStruct AlertGroupStatusStruct
Held V (own alert_record_type) = ObjectStruct V (AlertRecordSpecStruct V) AlertRecordStatus
Held V (own monitor_pod_type) = ObjectStruct V (MonitorPodSpecStruct V) MonitorPodStatusStruct
Held V (own ai_provider_list_type) = ListStruct V
Held V (own alert_list_type) = ListStruct V
Held V (own alert_group_list_type) = ListStruct V
Held V (own alert_record_list_type) = ListStruct V
Held V (own monitor_pod_list_type) = ListStruct V
Held V string_type = String
Held V secret_ref_type = V.SecretKeySelector
Held V condition_type = V.Condition
Held V other_type = V.Other

abbrev pub Cell : Vendored → Type 0
Cell V = (t : CellType) × Held V t

module _ (V : Vendored) where
  unfoldable pub held_as : (t u : CellType) → Held V u → Dec (u ≡ t) → Option (Held V t)
  held_as t u x (yes e) = some (subst (Held V) e x)
  held_as t u x (no differ) = none

  pub held_as-same : (t : CellType) (x : Held V t) (d : Dec (t ≡ t)) → held_as t t x d ≡ some x
  unfolding held_as
  held_as-same t x (yes e) =
      ap some (
        ap (λ q. subst (Held V) q x) (hedberg CellType-discrete t t e refl) ∙ subst_refl (Held V) x)
  held_as-same t x (no differ) = absurd (differ refl)

  unfoldable pub kind : (t : CellType) → Storage (Cell V) (Held V t)
  unfolding held_as
  kind t = record {
    inject = λ x. (t, x);
    project = λ c. held_as t c.0 c.1 (CellType-discrete c.0 t);
    project-inject = λ x. held_as-same t x (CellType-discrete t t);
  }
