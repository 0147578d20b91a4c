-- ===== src/Api/AiProviderTypes.antt =====
-- api/v1alpha1/aiprovider_types.go
use smart_log.Base.{String, List, Option}
use smart_log.Api.Meta.{SecretKeySelector, Condition}

pub record GeminiProviderSpec : Type 0 where
  pub api_key_secret_ref : SecretKeySelector
  pub base_url : String
  pub model : String

pub record OpenAiProviderSpec : Type 0 where
  pub api_key_secret_ref : SecretKeySelector
  pub base_url : String
  pub model : String

pub record AiProviderSpec : Type 0 where
  pub kind : String
  pub gemini : Option GeminiProviderSpec
  pub open_ai : Option OpenAiProviderSpec

pub record AiProviderStatus : Type 0 where
  pub conditions : List Condition

pub record AiProvider : Type 0 where
  pub name : String
  pub namespace : String
  pub spec : AiProviderSpec
  pub status : AiProviderStatus
