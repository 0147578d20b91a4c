-- ===== src/DeepCopy/Structs.antt =====
-- api/v1alpha1: the structs as they lie in memory, in the order and with the pointers of the `*_types.go`.
-- The types of the Kubernetes libraries are parameters; structs without pointers are those of Api.

use smart_log.Base.{ℕ, String, Bool, Option}
use smart_log.Base.Int.{ℤ}
use smart_log.Api.{AlertTarget, MonitorPodReference, PodReference}
use smart_log.Slices.{Slice}

-- The types of the libraries, and what else their values may point to.
pub record Vendored : Type 1 where
  pub TypeMeta : Type 0
  pub ObjectMeta : Type 0
  pub ListMeta : Type 0
  pub LabelSelector : Type 0
  pub SecretKeySelector : Type 0
  pub Condition : Type 0
  pub Time : Type 0
  pub Other : Type 0

-- The pointer to a struct, or nil.
abbrev pub Pointer : Type 0
Pointer = Option ℕ

pub record GeminiProviderSpecStruct (V : Vendored) : Type 0 where
  pub api_key_secret_ref : V.SecretKeySelector
  pub base_url : String
  pub model : String

pub record OpenAiProviderSpecStruct (V : Vendored) : Type 0 where
  pub api_key_secret_ref : V.SecretKeySelector
  pub base_url : String
  pub model : String

pub record AiProviderSpecStruct : Type 0 where
  pub kind : String
  pub gemini : Pointer
  pub open_ai : Pointer

pub record AiProviderStatusStruct : Type 0 where
  pub conditions : Option Slice

pub record WebhookSpecStruct (V : Vendored) : Type 0 where
  pub url_secret_ref : V.SecretKeySelector
  pub headers : Option Slice
  pub body_template : String

pub record FeishuSpecStruct (V : Vendored) : Type 0 where
  pub url_secret_ref : V.SecretKeySelector
  pub secret_key_secret_ref : Pointer

pub record AlertSpecStruct : Type 0 where
  pub kind : String
  pub webhook : Pointer
  pub feishu : Pointer

pub record AlertStatusStruct : Type 0 where
  pub conditions : Option Slice

pub record AlertGroupSpecStruct : Type 0 where
  pub alert_names : Option Slice

pub record AlertGroupStatusStruct : Type 0 where
  pub total_alerts : ℤ
  pub ready_alerts : ℤ
  pub conditions : Option Slice

pub record AlertRecordSpecStruct (V : Vendored) : Type 0 where
  pub monitor_pod_ref : MonitorPodReference
  pub rule_name : String
  pub triggered_at : V.Time
  pub source_pod : PodReference
  pub log_snippet : String

pub record MonitorPodSpecStruct (V : Vendored) : Type 0 where
  pub selector : V.LabelSelector
  pub container_names : Option Slice
  pub rules : Option Slice
  pub alert_target : AlertTarget
  pub alert_template : String
  pub rate_limit : Pointer
  pub multiline : Pointer
  pub record_alerts : Bool
  pub alert_record_ttl : String
  pub ai_enrichment : Pointer

pub record MonitorPodStatusStruct : Type 0 where
  pub monitored_pods_count : ℤ
  pub monitored_pods : Option Slice
  pub last_triggered_time : Pointer
  pub alerts_sent_count : ℤ
  pub conditions : Option Slice

-- The five kinds and their lists have the same fields.
pub record ObjectStruct (V : Vendored) (Spec Status : Type 0) : Type 0 where
  pub type_meta : V.TypeMeta
  pub object_meta : V.ObjectMeta
  pub spec : Spec
  pub status : Status

pub record ListStruct (V : Vendored) : Type 0 where
  pub type_meta : V.TypeMeta
  pub list_meta : V.ListMeta
  pub items : Option Slice
