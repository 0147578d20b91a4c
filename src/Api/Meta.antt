-- ===== src/Api/Meta.antt =====
-- The types of the Kubernetes API that the resources use: names, conditions, secrets, selectors, pods.
use smart_log.Base.{ℕ, String, ◌<>◌, List}
use smart_log.Base.Dict.{Dict}

pub record NamespacedName : Type 0 where
  pub name : String
  pub namespace : String

-- `NamespacedName.String`
unfoldable pub key_string : NamespacedName → String
key_string n = n.namespace <> ("/" <> n.name)

pub data ConditionStatus : Type 0 where
  condition_true condition_false condition_unknown : ConditionStatus

pub record Condition : Type 0 where
  pub kind : String
  pub status : ConditionStatus
  pub reason : String
  pub text : String
  pub last_transition_time : ℕ

pub record SecretKeySelector : Type 0 where
  pub name : String
  pub key : String

pub record Secret : Type 0 where
  pub name : String
  pub namespace : String
  pub entries : Dict String

pub record LabelSelectorRequirement : Type 0 where
  pub key : String
  pub operator : String
  pub values : List String

pub record LabelSelector : Type 0 where
  pub match_labels : Dict String
  pub match_expressions : List LabelSelectorRequirement

pub data PodPhase : Type 0 where
  pending running succeeded failed unknown : PodPhase

pub record Pod : Type 0 where
  pub name : String
  pub namespace : String
  pub labels : Dict String
  pub containers : List String
  pub phase : PodPhase
