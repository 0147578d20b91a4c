-- ===== src/Api/AlertTypes.antt =====
-- api/v1alpha1/alert_types.go
use smart_log.Base.{String, List, Option}
use smart_log.Api.Meta.{SecretKeySelector, Condition}

pub record WebhookHeader : Type 0 where
  pub name : String
  pub value : String

pub record WebhookSpec : Type 0 where
  pub url_secret_ref : SecretKeySelector
  pub headers : List WebhookHeader
  pub body_template : String

pub record FeishuSpec : Type 0 where
  pub url_secret_ref : SecretKeySelector
  pub secret_key_secret_ref : Option SecretKeySelector

pub record AlertSpec : Type 0 where
  pub kind : String
  pub webhook : Option WebhookSpec
  pub feishu : Option FeishuSpec

pub record AlertStatus : Type 0 where
  pub conditions : List Condition

pub record Alert : Type 0 where
  pub name : String
  pub namespace : String
  pub spec : AlertSpec
  pub status : AlertStatus
