-- ===== src/DeepCopy/Objects.antt =====
-- api/v1alpha1/zz_generated.deepcopy.go: the methods DeepCopyInto of the five kinds and of their lists.
use smart_log.Api.{AlertRecordStatus}
use smart_log.DeepCopy.{Storage, Copier, assign, copy_slice}
use smart_log.DeepCopy.Structs.{
  Vendored, ObjectStruct, ListStruct, AiProviderSpecStruct, AiProviderStatusStruct,
  AlertGroupSpecStruct, AlertGroupStatusStruct, AlertRecordSpecStruct, AlertSpecStruct,
  AlertStatusStruct, MonitorPodSpecStruct, MonitorPodStatusStruct,
}
use smart_log.DeepCopy.Held.{
  own, Cell, kind, ai_provider_type, alert_type, alert_group_type, alert_record_type,
  monitor_pod_type,
}
use smart_log.DeepCopy.Specs.{
  Libraries, copy_ai_provider_spec, copy_ai_provider_status, copy_alert_spec, copy_alert_status,
  copy_alert_group_spec, copy_alert_group_status, copy_alert_record_spec, copy_monitor_pod_spec,
  copy_monitor_pod_status,
}

module _ (V : Vendored) (L : Libraries V) where
  -- `out.TypeMeta = in.TypeMeta`, and the three other fields by their own methods.
  unfoldable pub copy_object :
      {Spec Status : Type 0}
      → Copier (Cell V) Spec
      → Copier (Cell V) Status
      → Copier (Cell V) (ObjectStruct V Spec Status)
  copy_object copy_spec copy_status x h =
      let (object_meta, h₁) = L.object_meta.copy x.object_meta h in
      let (spec, h₂) = copy_spec x.spec h₁ in
      let (status, h₃) = copy_status x.status h₂ in
      (record x { object_meta = object_meta; spec = spec; status = status }, h₃)

  unfoldable pub copy_list :
      {A : Type 0} → Storage (Cell V) A → Copier (Cell V) A → Copier (Cell V) (ListStruct V)
  copy_list K copy x h =
      let (list_meta, h₁) = L.list_meta.copy x.list_meta h in
      let (items, h₂) = copy_slice K copy x.items h₁ in
      (record x { list_meta = list_meta; items = items }, h₂)

  unfoldable pub copy_ai_provider :
      Copier (Cell V) (ObjectStruct V AiProviderSpecStruct AiProviderStatusStruct)
  unfolding copy_object copy_ai_provider_spec copy_ai_provider_status
  copy_ai_provider = copy_object (copy_ai_provider_spec V L) (copy_ai_provider_status V L)

  unfoldable pub copy_ai_provider_list : Copier (Cell V) (ListStruct V)
  unfolding copy_list copy_ai_provider
  copy_ai_provider_list = copy_list (kind V (own ai_provider_type)) copy_ai_provider

  unfoldable pub copy_alert : Copier (Cell V) (ObjectStruct V AlertSpecStruct AlertStatusStruct)
  unfolding copy_object copy_alert_spec copy_alert_status
  copy_alert = copy_object (copy_alert_spec V L) (copy_alert_status V L)

  unfoldable pub copy_alert_list : Copier (Cell V) (ListStruct V)
  unfolding copy_list copy_alert
  copy_alert_list = copy_list (kind V (own alert_type)) copy_alert

  unfoldable pub copy_alert_group :
      Copier (Cell V) (ObjectStruct V AlertGroupSpecStruct AlertGroupStatusStruct)
  unfolding copy_object copy_alert_group_spec copy_alert_group_status
  copy_alert_group = copy_object (copy_alert_group_spec V L) (copy_alert_group_status V L)

  unfoldable pub copy_alert_group_list : Copier (Cell V) (ListStruct V)
  unfolding copy_list copy_alert_group
  copy_alert_group_list = copy_list (kind V (own alert_group_type)) copy_alert_group

  unfoldable pub copy_alert_record :
      Copier (Cell V) (ObjectStruct V (AlertRecordSpecStruct V) AlertRecordStatus)
  unfolding copy_object copy_alert_record_spec
  copy_alert_record = copy_object (copy_alert_record_spec V L) assign

  unfoldable pub copy_alert_record_list : Copier (Cell V) (ListStruct V)
  unfolding copy_list copy_alert_record
  copy_alert_record_list = copy_list (kind V (own alert_record_type)) copy_alert_record

  unfoldable pub copy_monitor_pod :
      Copier (Cell V) (ObjectStruct V (MonitorPodSpecStruct V) MonitorPodStatusStruct)
  unfolding copy_object copy_monitor_pod_spec copy_monitor_pod_status
  copy_monitor_pod = copy_object (copy_monitor_pod_spec V L) (copy_monitor_pod_status V L)

  unfoldable pub copy_monitor_pod_list : Copier (Cell V) (ListStruct V)
  unfolding copy_list copy_monitor_pod
  copy_monitor_pod_list = copy_list (kind V (own monitor_pod_type)) copy_monitor_pod
