-- ===== src/DeepCopy/ObjectsCopied.antt =====
-- The kinds and their lists are deeply copied.
use smart_log.Base.{refl}
use smart_log.Api.{AlertRecordStatus}
use smart_log.DeepCopy.{Storage}
use smart_log.DeepCopy.Copying.{Copying, plain, slice, ◌&◌, struct}
use smart_log.DeepCopy.Structs.{
  Vendored, ObjectStruct, ListStruct, AiProviderSpecStruct, AiProviderStatusStruct, AlertSpecStruct,
  AlertStatusStruct, AlertGroupSpecStruct, AlertGroupStatusStruct, AlertRecordSpecStruct,
  MonitorPodSpecStruct, MonitorPodStatusStruct,
}
use smart_log.DeepCopy.Held.{
  own, Cell, kind, ai_provider_type, alert_type, alert_group_type, alert_record_type,
  monitor_pod_type,
}
use smart_log.DeepCopy.Specs.{Libraries}
use smart_log.DeepCopy.Objects.{copy_object, copy_list}
use smart_log.DeepCopy.SpecsCopied.{
  ai_provider_spec, ai_provider_status, alert_spec, alert_status, alert_group_spec,
  alert_group_status, monitor_pod_spec, monitor_pod_status, alert_record_spec,
}

module _ (V : Vendored) (L : Libraries V) where
  unfoldable pub object :
      {Spec Status : Type 0}
      → Copying (Cell V) Spec
      → Copying (Cell V) Status
      → Copying (Cell V) (ObjectStruct V Spec Status)
  unfolding copy_object
  object spec status =
      struct (λ x. (x.type_meta, (x.object_meta, (x.spec, x.status))))
        (plain {A = V.TypeMeta} & L.object_meta & spec & status)
        (copy_object V L spec.copy status.copy) (λ x m. refl)

  unfoldable list_of :
      {A : Type 0} → Storage (Cell V) A → Copying (Cell V) A → Copying (Cell V) (ListStruct V)
  unfolding copy_list
  list_of K item =
      struct (λ x. (x.type_meta, (x.list_meta, x.items)))
        (plain {A = V.TypeMeta} & L.list_meta & slice K item) (copy_list V L K item.copy)
        (λ x m. refl)

  unfoldable pub ai_provider :
      Copying (Cell V) (ObjectStruct V AiProviderSpecStruct AiProviderStatusStruct)
  unfolding object
  ai_provider = object (ai_provider_spec V L) (ai_provider_status V L)

  unfoldable pub ai_provider_list : Copying (Cell V) (ListStruct V)
  unfolding list_of ai_provider
  ai_provider_list = list_of (kind V (own ai_provider_type)) ai_provider

  unfoldable pub alert : Copying (Cell V) (ObjectStruct V AlertSpecStruct AlertStatusStruct)
  unfolding object
  alert = object (alert_spec V L) (alert_status V L)

  unfoldable pub alert_list : Copying (Cell V) (ListStruct V)
  unfolding list_of alert
  alert_list = list_of (kind V (own alert_type)) alert

  unfoldable pub alert_group :
      Copying (Cell V) (ObjectStruct V AlertGroupSpecStruct AlertGroupStatusStruct)
  unfolding object
  alert_group = object (alert_group_spec V L) (alert_group_status V L)

  unfoldable pub alert_group_list : Copying (Cell V) (ListStruct V)
  unfolding list_of alert_group
  alert_group_list = list_of (kind V (own alert_group_type)) alert_group

  unfoldable pub alert_record :
      Copying (Cell V) (ObjectStruct V (AlertRecordSpecStruct V) AlertRecordStatus)
  unfolding object
  alert_record = object (alert_record_spec V L) plain

  unfoldable pub alert_record_list : Copying (Cell V) (ListStruct V)
  unfolding list_of alert_record
  alert_record_list = list_of (kind V (own alert_record_type)) alert_record

  unfoldable pub monitor_pod :
      Copying (Cell V) (ObjectStruct V (MonitorPodSpecStruct V) MonitorPodStatusStruct)
  unfolding object
  monitor_pod = object (monitor_pod_spec V L) (monitor_pod_status V L)

  unfoldable pub monitor_pod_list : Copying (Cell V) (ListStruct V)
  unfolding list_of monitor_pod
  monitor_pod_list = list_of (kind V (own monitor_pod_type)) monitor_pod
