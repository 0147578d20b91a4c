-- ===== src/Controllers.antt =====
-- internal/controller/*_controller.go: the `SetupWithManager` methods. A controller is for the objects of
-- one kind, and watches those of another kind with a function that gives the requests of a change.
pub mod Woken
use smart_log.Base.{String, List, [], ◌∷◌, ◌++◌}
use smart_log.Api.{NamespacedName, Alert, AlertGroup, AiProvider, MonitorPod, Secret, Pod}
use smart_log.Cluster.{Cluster}
use smart_log.Alerts.{find_alerts_for_secret}
use smart_log.AlertGroups.{find_alert_groups_for_alert}
use smart_log.AiProviders.{find_ai_providers_for_secret}
use smart_log.Monitors.{find_monitor_pods_for_pod}
use smart_log.Startup.{
  Reconciler, alert_reconciler, alert_group_reconciler, monitor_pod_reconciler,
  ai_provider_reconciler,
}

-- A changed object, by its state after the change or, where it is deleted, its last one.
pub data Object : Type 0 where
  alert_object : Alert → Object
  group_object : AlertGroup → Object
  provider_object : AiProvider → Object
  monitor_object : MonitorPod → Object
  secret_object : Secret → Object
  pod_object : Pod → Object

pub data Kind : Type 0 where
  alerts alert_groups ai_providers monitor_pods : Kind

-- `Watches` with `handler.EnqueueRequestsFromMapFunc`; the type assertions of the functions hold, as
-- each is called for the objects of its kind.
pub data Watch (S : Type 0) : Type 0 where
  watches_secrets : (S → Secret → List NamespacedName) → Watch S
  watches_alerts : (S → Alert → List NamespacedName) → Watch S
  watches_pods : (S → Pod → List NamespacedName) → Watch S

pub record Controller (S : Type 0) : Type 0 where
  pub for_kind : Kind
  pub watch : Watch S

module _ (C : Cluster) where
  -- `SetupWithManager` of each reconciler.
  unfoldable pub alert_controller : Controller C.State
  unfolding find_alerts_for_secret
  alert_controller = record {
    for_kind = alerts;
    watch = watches_secrets (find_alerts_for_secret C);
  }

  unfoldable pub alert_group_controller : Controller C.State
  unfolding find_alert_groups_for_alert
  alert_group_controller = record {
    for_kind = alert_groups;
    watch = watches_alerts (find_alert_groups_for_alert C);
  }

  unfoldable pub monitor_pod_controller : Controller C.State
  unfolding find_monitor_pods_for_pod
  monitor_pod_controller = record {
    for_kind = monitor_pods;
    watch = watches_pods (find_monitor_pods_for_pod C);
  }

  unfoldable pub ai_provider_controller : Controller C.State
  unfolding find_ai_providers_for_secret
  ai_provider_controller = record {
    for_kind = ai_providers;
    watch = watches_secrets (find_ai_providers_for_secret C);
  }

  unfoldable pub controller : Reconciler → Controller C.State
  unfolding alert_controller alert_group_controller monitor_pod_controller ai_provider_controller
  controller alert_reconciler = alert_controller
  controller alert_group_reconciler = alert_group_controller
  controller monitor_pod_reconciler = monitor_pod_controller
  controller ai_provider_reconciler = ai_provider_controller

-- What the builder's documentation promises for `For`: a request for the object itself.
unfoldable pub own_requests : Kind → Object → List NamespacedName
own_requests alerts (alert_object a) = record { name = a.name; namespace = a.namespace } ∷ []
own_requests alert_groups (group_object g) = record { name = g.name; namespace = g.namespace } ∷ []
own_requests ai_providers (provider_object p) =
    record { name = p.name; namespace = p.namespace } ∷ []
own_requests monitor_pods (monitor_object m) =
    record { name = m.name; namespace = m.namespace } ∷ []
own_requests _ _ = []

-- And for `Watches`: the requests that the function gives for an object of the kind.
unfoldable pub watched_requests : {S : Type 0} → Watch S → S → Object → List NamespacedName
watched_requests (watches_secrets find) s (secret_object secret) = find s secret
watched_requests (watches_alerts find) s (alert_object alert) = find s alert
watched_requests (watches_pods find) s (pod_object pod) = find s pod
watched_requests _ s _ = []

abbrev pub requests : {S : Type 0} → Controller S → S → Object → List NamespacedName
requests c s object = own_requests c.for_kind object ++ watched_requests c.watch s object
