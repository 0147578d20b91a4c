-- ===== src/Api/AlertGroupTypes.antt =====
-- api/v1alpha1/alertgroup_types.go
use smart_log.Base.{ℕ, String, List}
use smart_log.Api.Meta.{Condition}

pub record AlertGroupSpec : Type 0 where
  pub alert_names : List String

pub record AlertGroupStatus : Type 0 where
  pub total_alerts : ℕ
  pub ready_alerts : ℕ
  pub conditions : List Condition

pub record AlertGroup : Type 0 where
  pub name : String
  pub namespace : String
  pub spec : AlertGroupSpec
  pub status : AlertGroupStatus
