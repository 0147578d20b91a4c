-- ===== src/Api/AlertRecordTypes.antt =====
-- api/v1alpha1/alertrecord_types.go
use smart_log.Base.{ℕ, String}
use smart_log.Base.Dict.{Dict}

pub record MonitorPodReference : Type 0 where
  pub name : String
  pub namespace : String

pub record PodReference : Type 0 where
  pub name : String
  pub namespace : String
  pub container : String

pub record AlertRecordSpec : Type 0 where
  pub monitor_pod_ref : MonitorPodReference
  pub rule_name : String
  pub triggered_at : ℕ
  pub source_pod : PodReference
  pub log_snippet : String

pub record AlertRecordStatus : Type 0 where
  pub state : String

-- Of the metadata, what the program writes or reads: the server completes `generate_name` to a name
-- and sets `creation_timestamp`.
pub record AlertRecord : Type 0 where
  pub name : String
  pub generate_name : String
  pub namespace : String
  pub labels : Dict String
  pub annotations : Dict String
  pub creation_timestamp : ℕ
  pub spec : AlertRecordSpec
  pub status : AlertRecordStatus
