-- ===== src/Api/MonitorPodTypes.antt =====
-- api/v1alpha1/monitorpod_types.go
use smart_log.Base.{ℕ, String, List, Option, Bool}
use smart_log.Base.Int.{ℤ}
use smart_log.Api.Meta.{LabelSelector, Condition}

pub record ProviderReference : Type 0 where
  pub name : String

pub record AiEnrichmentSpec : Type 0 where
  pub enabled : Bool
  pub provider_ref : ProviderReference
  pub prompt : String
  pub timeout : String

pub record MultilineSpec : Type 0 where
  pub pattern : String
  pub negate : Bool

pub record LogRule : Type 0 where
  pub name : String
  pub regex : String
  pub exclude_regex : String

pub record AlertTarget : Type 0 where
  pub kind : String
  pub name : String

pub record RateLimitSpec : Type 0 where
  pub period : String
  pub limit : ℤ

pub record MonitorPodSpec : Type 0 where
  pub selector : LabelSelector
  pub container_names : List String
  pub rules : List LogRule
  pub alert_target : AlertTarget
  pub alert_template : String
  pub rate_limit : Option RateLimitSpec
  pub multiline : Option MultilineSpec
  pub record_alerts : Bool
  pub alert_record_ttl : String
  pub ai_enrichment : Option AiEnrichmentSpec

-- `alerts_sent_count` is an `int64` that starts at 0 and is only incremented.
pub record MonitorPodStatus : Type 0 where
  pub monitored_pods_count : ℕ
  pub monitored_pods : List String
  pub last_triggered_time : Option ℕ
  pub alerts_sent_count : ℕ
  pub conditions : List Condition

pub record MonitorPod : Type 0 where
  pub name : String
  pub namespace : String
  pub spec : MonitorPodSpec
  pub status : MonitorPodStatus
