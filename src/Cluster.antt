-- ===== src/Cluster.antt =====
-- What the controllers use and do not implement: the API server behind `client.Client`, and the
-- helpers of k8s.io/apimachinery (`meta`) and k8s.io/client-go (`retry`). A read is a function of the
-- server's state; a write gives the state that follows it, on a failure too, when other clients may
-- have written.
use smart_log.Base.{
  ℕ, suc, String, Bool, true, false, Option, none, some, List, ◌≡◌, if◌then◌else◌, ◌==◌,
}
use smart_log.Base.Dict.{Dict}
use smart_log.Errors.{Error, Result, is_conflict}
use smart_log.Api.{NamespacedName, Condition, ConditionStatus, condition_true, condition_false}
use smart_log.Api.{condition_unknown, Secret, LabelSelector, Pod, Alert, AlertGroup, AiProvider}
use smart_log.Api.{MonitorPod, AlertRecord}

-- A `labels.Selector`, by its method `Matches`.
abbrev pub Selector : Type 0
Selector = Dict String → Bool

pub record Cluster : Type 1 where
  pub State : Type 0
  -- `time.Now`
  pub clock : State → ℕ
  pub get_alert : State → NamespacedName → Result Alert
  pub get_alert_group : State → NamespacedName → Result AlertGroup
  pub get_ai_provider : State → NamespacedName → Result AiProvider
  pub get_monitor_pod : State → NamespacedName → Result MonitorPod
  pub get_secret : State → NamespacedName → Result Secret
  -- The lists of a namespace.
  pub list_alerts : State → String → Result (List Alert)
  pub list_alert_groups : State → String → Result (List AlertGroup)
  pub list_ai_providers : State → String → Result (List AiProvider)
  pub list_monitor_pods : State → String → Result (List MonitorPod)
  pub list_pods : State → String → Selector → Result (List Pod)
  -- The list of all namespaces.
  pub list_alert_records : State → Result (List AlertRecord)
  pub update_alert_status : State → Alert → Option Error × State
  pub update_alert_group_status : State → AlertGroup → Option Error × State
  pub update_ai_provider_status : State → AiProvider → Option Error × State
  pub update_monitor_pod_status : State → MonitorPod → Option Error × State
  pub create_alert_record : State → AlertRecord → Option Error × State
  pub delete_alert_record : State → AlertRecord → Option Error × State
  -- `retry.RetryOnConflict(retry.DefaultRetry, fn)`
  pub retry_on_conflict : (State → Option Error × State) → State → Option Error × State
  -- `meta.SetStatusCondition`, with its reading of the clock, and `meta.IsStatusConditionTrue`.
  pub set_status_condition : ℕ → List Condition → Condition → List Condition
  pub is_status_condition_true : List Condition → String → Bool
  -- `metav1.LabelSelectorAsSelector`
  pub label_selector_as_selector : LabelSelector → Result Selector

-- At most `n` runs of a function, each after a conflict of the one before it, and the last one's end.
pub data Attempts {S : Type 0} (f : S → Option Error × S) : ℕ → S → Option Error × S → Type 0 where
  last : {n : ℕ} {s : S} {out : Option Error × S} → f s ≡ out → Attempts f (suc n) s out
  again :
      {n : ℕ} {s t : S} {e : Error} {out : Option Error × S}
      → f s ≡ (some e, t)
      → is_conflict e ≡ true
      → Attempts f n t out
      → Attempts f (suc n) s out

abbrev pub is_true : ConditionStatus → Bool
is_true condition_true = true
is_true condition_false = false
is_true condition_unknown = false

-- The documented behaviour of the helpers.
pub record HasHelpers (C : Cluster) : Type 0 where
  -- `retry.DefaultRetry` allows five attempts.
  pub retries :
      (f : C.State → Option Error × C.State) (s : C.State)
      → Attempts f 5 s (C.retry_on_conflict f s)
  pub is_true-set :
      (now : ℕ) (conditions : List Condition) (c : Condition) (kind : String)
      → C.is_status_condition_true (C.set_status_condition now conditions c) kind
        ≡ (if c.kind == kind then is_true c.status else C.is_status_condition_true conditions kind)

-- A run that ends without an error ends by a run of the function without an error.
pub Attempts-none :
    {S : Type 0} {f : S → Option Error × S} {n : ℕ} {s : S} {out : Option Error × S}
    → Attempts f n s out
    → out.0 ≡ none
    → (t : S) × (f t ≡ out)
Attempts-none (last {s = s} e) h = (s, e)
Attempts-none (again e c rest) h = Attempts-none rest h
