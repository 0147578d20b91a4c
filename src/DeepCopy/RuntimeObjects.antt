-- ===== src/DeepCopy/RuntimeObjects.antt =====
-- api/v1alpha1/zz_generated.deepcopy.go: the methods DeepCopyObject of the kinds and of their lists.
use smart_log.Base.{Option, none, some}
use smart_log.Slices.{Heap}
use smart_log.DeepCopy.Structs.{Vendored, Pointer}
use smart_log.DeepCopy.Held.{
  Cell, OwnType, ai_provider_type, ai_provider_list_type, alert_type, alert_list_type,
  alert_group_type, alert_group_list_type, alert_record_type, alert_record_list_type,
  monitor_pod_type, monitor_pod_list_type,
}
use smart_log.DeepCopy.Specs.{Libraries}
use smart_log.DeepCopy.Pointed.{
  deep_copy_ai_provider, deep_copy_ai_provider_list, deep_copy_alert, deep_copy_alert_list,
  deep_copy_alert_group, deep_copy_alert_group_list, deep_copy_alert_record,
  deep_copy_alert_record_list, deep_copy_monitor_pod, deep_copy_monitor_pod_list,
}

-- The types that implement `runtime.Object`.
pub data ObjectType : Type 0 where
  ai_provider_object ai_provider_list_object alert_object alert_list_object alert_group_object
        alert_group_list_object alert_record_object alert_record_list_object monitor_pod_object
        monitor_pod_list_object :
      ObjectType

abbrev pub own_type : ObjectType → OwnType
own_type ai_provider_object = ai_provider_type
own_type ai_provider_list_object = ai_provider_list_type
own_type alert_object = alert_type
own_type alert_list_object = alert_list_type
own_type alert_group_object = alert_group_type
own_type alert_group_list_object = alert_group_list_type
own_type alert_record_object = alert_record_type
own_type alert_record_list_object = alert_record_list_type
own_type monitor_pod_object = monitor_pod_type
own_type monitor_pod_list_object = monitor_pod_list_type

-- A value of the interface that is not nil: its type, and a pointer, which may be nil.
pub record RuntimeObject : Type 0 where
  pub dynamic_type : ObjectType
  pub pointer : Pointer

-- `if c := in.DeepCopy(); c != nil { return c }; return nil`
unfoldable pub as_object :
    {C : Type 0} → ObjectType → Pointer × Heap C → Option RuntimeObject × Heap C
as_object o (none, h) = (none, h)
as_object o (some p, h) = (some (record { dynamic_type = o; pointer = some p }), h)

module _ (V : Vendored) (L : Libraries V) where
  abbrev pub ObjectCopier : Type 0
  ObjectCopier = Pointer → Heap (Cell V) → Option RuntimeObject × Heap (Cell V)

  unfoldable pub deep_copy_object_ai_provider : ObjectCopier
  unfolding as_object
  deep_copy_object_ai_provider p h = as_object ai_provider_object (deep_copy_ai_provider V L p h)

  unfoldable pub deep_copy_object_ai_provider_list : ObjectCopier
  unfolding as_object
  deep_copy_object_ai_provider_list p h =
      as_object ai_provider_list_object (deep_copy_ai_provider_list V L p h)

  unfoldable pub deep_copy_object_alert : ObjectCopier
  unfolding as_object
  deep_copy_object_alert p h = as_object alert_object (deep_copy_alert V L p h)

  unfoldable pub deep_copy_object_alert_list : ObjectCopier
  unfolding as_object
  deep_copy_object_alert_list p h = as_object alert_list_object (deep_copy_alert_list V L p h)

  unfoldable pub deep_copy_object_alert_group : ObjectCopier
  unfolding as_object
  deep_copy_object_alert_group p h = as_object alert_group_object (deep_copy_alert_group V L p h)

  unfoldable pub deep_copy_object_alert_group_list : ObjectCopier
  unfolding as_object
  deep_copy_object_alert_group_list p h =
      as_object alert_group_list_object (deep_copy_alert_group_list V L p h)

  unfoldable pub deep_copy_object_alert_record : ObjectCopier
  unfolding as_object
  deep_copy_object_alert_record p h = as_object alert_record_object (deep_copy_alert_record V L p h)

  unfoldable pub deep_copy_object_alert_record_list : ObjectCopier
  unfolding as_object
  deep_copy_object_alert_record_list p h =
      as_object alert_record_list_object (deep_copy_alert_record_list V L p h)

  unfoldable pub deep_copy_object_monitor_pod : ObjectCopier
  unfolding as_object
  deep_copy_object_monitor_pod p h = as_object monitor_pod_object (deep_copy_monitor_pod V L p h)

  unfoldable pub deep_copy_object_monitor_pod_list : ObjectCopier
  unfolding as_object
  deep_copy_object_monitor_pod_list p h =
      as_object monitor_pod_list_object (deep_copy_monitor_pod_list V L p h)

  -- The method of the value's type.
  unfoldable pub method : ObjectType → ObjectCopier
  unfolding deep_copy_object_ai_provider deep_copy_object_ai_provider_list deep_copy_object_alert
      deep_copy_object_alert_list deep_copy_object_alert_group deep_copy_object_alert_group_list
      deep_copy_object_alert_record deep_copy_object_alert_record_list deep_copy_object_monitor_pod
      deep_copy_object_monitor_pod_list
  method ai_provider_object = deep_copy_object_ai_provider
  method ai_provider_list_object = deep_copy_object_ai_provider_list
  method alert_object = deep_copy_object_alert
  method alert_list_object = deep_copy_object_alert_list
  method alert_group_object = deep_copy_object_alert_group
  method alert_group_list_object = deep_copy_object_alert_group_list
  method alert_record_object = deep_copy_object_alert_record
  method alert_record_list_object = deep_copy_object_alert_record_list
  method monitor_pod_object = deep_copy_object_monitor_pod
  method monitor_pod_list_object = deep_copy_object_monitor_pod_list

  unfoldable pub deep_copy_object :
      RuntimeObject → Heap (Cell V) → Option RuntimeObject × Heap (Cell V)
  unfolding method
  deep_copy_object x h = method x.dynamic_type x.pointer h
