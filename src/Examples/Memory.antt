-- ===== src/Examples/Memory.antt =====
-- The cluster: an API server that keeps lists, and the helpers as their documents describe them.
use smart_log.Base.{
  ℕ, zero, suc, String, ◌==◌, eq_iff, ◌≡◌, refl, Bool, true, false, Option, none, some,
}
use smart_log.Base.{List, [], ◌∷◌, arith, inl, inr, Bool-cases, if◌then◌else◌, ◌++◌}
use smart_log.Errors.{Error, ok, is_conflict}
use smart_log.Api.{NamespacedName, Condition, ConditionStatus, condition_true, condition_false}
use smart_log.Api.{condition_unknown, Secret, Pod, Alert, AlertGroup, AiProvider}
use smart_log.Api.{MonitorPod, AlertRecord}
use smart_log.Base.Dict
use smart_log.Cluster.{Cluster, Selector, Attempts, last, again, HasHelpers, is_true}
use smart_log.Examples.Shelf.{get, put}

pub record Server : Type 0 where
  pub alerts : List Alert
  pub groups : List AlertGroup
  pub providers : List AiProvider
  pub monitors : List MonitorPod
  pub secrets : List Secret
  pub pods : List Pod
  pub records : List AlertRecord
  pub time : ℕ

abbrev pub empty_server : Server
empty_server = record {
  alerts = [];
  groups = [];
  providers = [];
  monitors = [];
  secrets = [];
  pods = [];
  records = [];
  time = 0;
}

abbrev pub alert_key : Alert → NamespacedName
alert_key a = record { name = a.name; namespace = a.namespace }

abbrev pub group_key : AlertGroup → NamespacedName
group_key a = record { name = a.name; namespace = a.namespace }

abbrev pub provider_key : AiProvider → NamespacedName
provider_key a = record { name = a.name; namespace = a.namespace }

abbrev pub monitor_key : MonitorPod → NamespacedName
monitor_key a = record { name = a.name; namespace = a.namespace }

abbrev pub secret_key : Secret → NamespacedName
secret_key a = record { name = a.name; namespace = a.namespace }

abbrev pub within : {A : Type 0} → (A → String) → String → List A → List A
within namespace_of namespace [] = []
within namespace_of namespace (a ∷ rest) =
    let others = within namespace_of namespace rest in
    if namespace_of a == namespace then a ∷ others else others

abbrev pub running_on : String → Selector → List Pod → List Pod
running_on namespace selector [] = []
running_on namespace selector (p ∷ rest) =
    let others = running_on namespace selector rest in
    if p.namespace == namespace then (if selector p.labels then p ∷ others else others) else others

-- What follows a run of the function: its end, or another run after a conflict.
abbrev retry_after : {S : Type 0} → (S → Option Error × S) → Option Error × S → Option Error × S
retry_after more (none, t) = (none, t)
retry_after more (some e, t) = if is_conflict e then more t else (some e, t)

abbrev retry : {S : Type 0} → ℕ → (S → Option Error × S) → S → Option Error × S
retry zero f s = f s
retry (suc n) f s = retry_after (retry n f) (f s)

retry_after-Attempts :
    {S : Type 0} (n : ℕ) (f more : S → Option Error × S) (s : S) (out : Option Error × S)
    → f s ≡ out
    → ((t : S) → Attempts f (suc n) t (more t))
    → Attempts f (suc (suc n)) s (retry_after more out)
retry_after-Attempts n f more s (none, t) e rest = last e
retry_after-Attempts n f more s (some x, t) e rest = elim (Bool-cases (is_conflict x)) [
  | inl c ↦ rw c (again e c (rest t))
  | inr c ↦ rw c (last e)
]

retry-Attempts :
    {S : Type 0} (n : ℕ) (f : S → Option Error × S) (s : S) → Attempts f (suc n) s (retry n f s)
retry-Attempts zero f s = last refl
retry-Attempts (suc n) f s =
    retry_after-Attempts n f (retry n f) s (f s) refl (λ t. retry-Attempts n f t)

abbrev merged : ℕ → Condition → Condition → Condition
merged now old c = record c {
  last_transition_time =
      elim old.status as (λ _. ConditionStatus → ℕ) [
        | condition_true ↦ elim [ condition_true ↦ old.last_transition_time | _ ↦ now ]
        | condition_false ↦ elim [ condition_false ↦ old.last_transition_time | _ ↦ now ]
        | condition_unknown ↦ elim [ condition_unknown ↦ old.last_transition_time | _ ↦ now ]
      ]
        c.status;
}

abbrev set_condition : ℕ → List Condition → Condition → List Condition
set_condition now [] c = record c { last_transition_time = now } ∷ []
set_condition now (d ∷ rest) c =
    if d.kind == c.kind then merged now d c ∷ rest else d ∷ set_condition now rest c

abbrev condition_holds : List Condition → String → Bool
condition_holds [] kind = false
condition_holds (c ∷ rest) kind =
    if c.kind == kind then is_true c.status else condition_holds rest kind

condition_holds-set :
    (now : ℕ) (conditions : List Condition) (c : Condition) (kind : String)
    → condition_holds (set_condition now conditions c) kind
      ≡ (if c.kind == kind then is_true c.status else condition_holds conditions kind)
condition_holds-set now [] c kind = refl
condition_holds-set now (d ∷ rest) c kind = ground (
  arith,
  eq_iff d.kind c.kind,
  eq_iff d.kind kind,
  eq_iff c.kind kind,
  condition_holds-set now rest c kind,
)

abbrev matches_all : Dict.Dict String → Dict.Dict String → Bool
matches_all [] labels = true
matches_all ((k, v) ∷ rest) labels = elim (Dict.lookup k labels) [
  | none ↦ false
  | some w ↦ if w == v then matches_all rest labels else false
]

abbrev with_alerts : Server → Option Error × List Alert → Option Error × Server
with_alerts s (e, alerts) = (e, record s { alerts = alerts })

abbrev with_groups : Server → Option Error × List AlertGroup → Option Error × Server
with_groups s (e, groups) = (e, record s { groups = groups })

abbrev with_providers : Server → Option Error × List AiProvider → Option Error × Server
with_providers s (e, providers) = (e, record s { providers = providers })

abbrev with_monitors : Server → Option Error × List MonitorPod → Option Error × Server
with_monitors s (e, monitors) = (e, record s { monitors = monitors })

abbrev without : String → List AlertRecord → List AlertRecord
without name [] = []
without name (r ∷ rest) =
    let others = without name rest in if r.name == name then others else r ∷ others

abbrev pub memory : Cluster
memory = record {
  State = Server;
  clock = λ s. s.time;
  get_alert = λ s. get alert_key s.alerts;
  get_alert_group = λ s. get group_key s.groups;
  get_ai_provider = λ s. get provider_key s.providers;
  get_monitor_pod = λ s. get monitor_key s.monitors;
  get_secret = λ s. get secret_key s.secrets;
  list_alerts = λ s namespace. ok (within (λ a. a.namespace) namespace s.alerts);
  list_alert_groups = λ s namespace. ok (within (λ a. a.namespace) namespace s.groups);
  list_ai_providers = λ s namespace. ok (within (λ a. a.namespace) namespace s.providers);
  list_monitor_pods = λ s namespace. ok (within (λ a. a.namespace) namespace s.monitors);
  list_pods = λ s namespace selector. ok (running_on namespace selector s.pods);
  list_alert_records = λ s. ok s.records;
  update_alert_status = λ s a. with_alerts s (put alert_key a s.alerts);
  update_alert_group_status = λ s g. with_groups s (put group_key g s.groups);
  update_ai_provider_status = λ s p. with_providers s (put provider_key p s.providers);
  update_monitor_pod_status = λ s m. with_monitors s (put monitor_key m s.monitors);
  create_alert_record = λ s r. (none, record s { records = s.records ++ r ∷ [] });
  delete_alert_record = λ s r. (none, record s { records = without r.name s.records });
  retry_on_conflict = λ f s. retry 4 f s;
  set_status_condition = set_condition;
  is_status_condition_true = condition_holds;
  label_selector_as_selector = λ selector. ok (matches_all selector.match_labels);
}

pub memory-HasHelpers : HasHelpers memory
memory-HasHelpers = record {
  retries = λ f s. retry-Attempts 4 f s;
  is_true-set = condition_holds-set;
}
