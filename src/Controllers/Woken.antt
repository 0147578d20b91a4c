-- ===== src/Controllers/Woken.antt =====
-- Which changes wake which reconciler.
use smart_log.Base.{
  String, ◌≡◌, ◌≢◌, ◌⊎◌, false, Bool-cases, inl, inr, refl, sym, subst, List, Member,
}
use smart_log.Errors.{ok, Result-cases}
use smart_log.Api.{NamespacedName, Alert, AlertGroup, AiProvider, MonitorPod, Secret, Pod}
use smart_log.Cluster.{Cluster, Selector}
use smart_log.Alerts
use smart_log.Alerts.{validate_alert, find_alerts_for_secret}
use smart_log.Alerts.Watch.{alert_requests_complete}
use smart_log.AlertGroups
use smart_log.AlertGroups.{validate_members, is_ready, find_alert_groups_for_alert}
use smart_log.AlertGroups.Watch.{group_requests_complete}
use smart_log.AiProviders
use smart_log.AiProviders.{validate_ai_provider, find_ai_providers_for_secret}
use smart_log.AiProviders.Valid.{provider_requests_complete}
use smart_log.Monitors
use smart_log.Monitors.{find_monitor_pods_for_pod}
use smart_log.Monitors.Ready.{selected}
use smart_log.Monitors.Watch.{Selects, Wanted, monitor_requests_exact}
use smart_log.Startup.{
  Reconciler, alert_reconciler, alert_group_reconciler, monitor_pod_reconciler,
  ai_provider_reconciler,
}
use smart_log.Controllers.{
  Object, alert_object, group_object, provider_object, monitor_object, secret_object, pod_object,
  controller, own_requests, watched_requests, requests,
}

module _ (C : Cluster) (s : C.State) where
  find_alerts_for_secret-listed :
      (secret : Secret) (alerts : List Alert)
      → C.list_alerts s secret.namespace ≡ ok alerts
      → find_alerts_for_secret C s secret ≡ Alerts.requests_for secret.name alerts
  unfolding find_alerts_for_secret
  find_alerts_for_secret-listed secret alerts e = rw (find_alerts_for_secret, e) refl

  find_ai_providers_for_secret-listed :
      (secret : Secret) (providers : List AiProvider)
      → C.list_ai_providers s secret.namespace ≡ ok providers
      → find_ai_providers_for_secret C s secret ≡ AiProviders.requests_for secret.name providers
  unfolding find_ai_providers_for_secret
  find_ai_providers_for_secret-listed secret providers e = rw (find_ai_providers_for_secret, e) refl

  find_alert_groups_for_alert-listed :
      (alert : Alert) (groups : List AlertGroup)
      → C.list_alert_groups s alert.namespace ≡ ok groups
      → find_alert_groups_for_alert C s alert ≡ AlertGroups.requests_for alert.name groups
  unfolding find_alert_groups_for_alert
  find_alert_groups_for_alert-listed alert groups e = rw (find_alert_groups_for_alert, e) refl

  find_monitor_pods_for_pod-listed :
      (pod : Pod) (monitors : List MonitorPod)
      → C.list_monitor_pods s pod.namespace ≡ ok monitors
      → find_monitor_pods_for_pod C s pod ≡ Monitors.requests_for C pod monitors
  unfolding find_monitor_pods_for_pod
  find_monitor_pods_for_pod-listed pod monitors e = rw (find_monitor_pods_for_pod, e) refl

module _ (C : Cluster) where
  -- The states before and after differ at most in the secret.
  abbrev pub OnlySecret : C.State → C.State → Secret → Type 0
  OnlySecret s s' secret =
      (key : NamespacedName)
      → key ≢ record { name = secret.name; namespace = secret.namespace }
      → C.get_secret s key ≡ C.get_secret s' key

  abbrev pub OnlyAlert : C.State → C.State → Alert → Type 0
  OnlyAlert s s' alert =
      (key : NamespacedName)
      → key ≢ record { name = alert.name; namespace = alert.namespace }
      → C.get_alert s key ≡ C.get_alert s' key

  -- The states before and after give the same list of pods for each namespace and selector, but for
  -- the pod's namespace with a selector that matches its labels.
  abbrev pub OnlyPod : C.State → C.State → Pod → Type 0
  OnlyPod s s' pod =
      (namespace : String) (selector : Selector)
      → (namespace ≢ pod.namespace) ⊎ (selector pod.labels ≡ false)
      → C.list_pods s namespace selector ≡ C.list_pods s' namespace selector

  Selects-selected :
      (s s' : C.State) (pod : Pod) (m : MonitorPod)
      → OnlyPod s s' pod
      → selected C s m ≢ selected C s' m
      → Selects C m pod
  unfolding selected Selects
  Selects-selected s s' pod m only differs =
      elim (Result-cases (C.label_selector_as_selector m.spec.selector)) [
        | inr (x, e) ↦ absurd (differs (rw (selected, e) refl))
        | inl (selector, e) ↦ elim (Bool-cases (selector pod.labels)) [
          | inl matches ↦ (selector, e, matches)
          | inr misses ↦
              absurd (differs (rw (selected, e, only m.namespace selector (inr misses)) refl))
        ]
      ]

  -- A change of an object from one state to another concerns what a reconciler makes of a name: the
  -- object is the reconciler's own; or it alone changes and with it the result of a validation, or the
  -- pods that a MonitorPod selects, and the reconciler's objects in its namespace can be listed.
  pub data Concerns (s s' : C.State) : Object → Reconciler → NamespacedName → Type 0 where
    own_alert :
        (a : Alert)
        → Concerns s s'
            (alert_object a)
            alert_reconciler
            (record { name = a.name; namespace = a.namespace })
    own_group :
        (g : AlertGroup)
        → Concerns s s'
            (group_object g)
            alert_group_reconciler
            (record { name = g.name; namespace = g.namespace })
    own_provider :
        (p : AiProvider)
        → Concerns s s'
            (provider_object p)
            ai_provider_reconciler
            (record { name = p.name; namespace = p.namespace })
    own_monitor :
        (m : MonitorPod)
        → Concerns s s'
            (monitor_object m)
            monitor_pod_reconciler
            (record { name = m.name; namespace = m.namespace })
    alert_of_secret :
        (secret : Secret) (a : Alert) (alerts : List Alert)
        → OnlySecret s s' secret
        → C.list_alerts s' secret.namespace ≡ ok alerts
        → Member a alerts
        → validate_alert (C.get_secret s) a ≢ validate_alert (C.get_secret s') a
        → Concerns s s'
            (secret_object secret)
            alert_reconciler
            (record { name = a.name; namespace = a.namespace })
    provider_of_secret :
        (secret : Secret) (p : AiProvider) (providers : List AiProvider)
        → OnlySecret s s' secret
        → C.list_ai_providers s' secret.namespace ≡ ok providers
        → Member p providers
        → validate_ai_provider (C.get_secret s) p ≢ validate_ai_provider (C.get_secret s') p
        → Concerns s s'
            (secret_object secret)
            ai_provider_reconciler
            (record { name = p.name; namespace = p.namespace })
    group_of_alert :
        (alert : Alert) (g : AlertGroup) (groups : List AlertGroup)
        → OnlyAlert s s' alert
        → C.list_alert_groups s' alert.namespace ≡ ok groups
        → Member g groups
        → validate_members (C.get_alert s) (is_ready C) g.namespace g.spec.alert_names 0
          ≢ validate_members (C.get_alert s') (is_ready C) g.namespace g.spec.alert_names 0
        → Concerns s s'
            (alert_object alert)
            alert_group_reconciler
            (record { name = g.name; namespace = g.namespace })
    monitor_of_pod :
        (pod : Pod) (m : MonitorPod) (monitors : List MonitorPod)
        → OnlyPod s s' pod
        → C.list_monitor_pods s' pod.namespace ≡ ok monitors
        → Member m monitors
        → selected C s m ≢ selected C s' m
        → Concerns s s'
            (pod_object pod)
            monitor_pod_reconciler
            (record { name = m.name; namespace = m.namespace })

  -- The changes that give a request to a reconciler's controller, for a name. A change of an object of
  -- the reconciler's own kind gives one for the object. A change of a secret alone gives one for each
  -- alert, and for each provider, whose validation it changes; a change of an alert alone gives one for
  -- each group whose validation it changes; and a change of a pod alone, which keeps its labels, gives
  -- one for each MonitorPod whose selected pods it changes: each of these for the objects that a list
  -- of the changed object's namespace has, when the server gives that list.
  pub requests-Concerns :
      (s s' : C.State) (object : Object) (r : Reconciler) (name : NamespacedName)
      → Concerns s s' object r name
      → Member name (requests (controller C r) s' object)
  unfolding controller own_requests watched_requests find_alerts_for_secret
      find_alert_groups_for_alert find_monitor_pods_for_pod find_ai_providers_for_secret Wanted
  requests-Concerns s s' _ _ _ (own_alert a) = inl refl
  requests-Concerns s s' _ _ _ (own_group g) = inl refl
  requests-Concerns s s' _ _ _ (own_provider p) = inl refl
  requests-Concerns s s' _ _ _ (own_monitor m) = inl refl
  requests-Concerns s s' _ _ _ (alert_of_secret secret a alerts only listed m differs) =
      subst (Member _) (sym (find_alerts_for_secret-listed C s' secret alerts listed))
        (elim (alert_requests_complete (record { name = secret.name; namespace = secret.namespace })
          (C.get_secret s) (C.get_secret s') only a alerts m) [
            | inl same ↦ absurd (differs same)
            | inr found ↦ found
          ])
  requests-Concerns s s' _ _ _ (provider_of_secret secret p providers only listed m differs) =
      subst (Member _) (sym (find_ai_providers_for_secret-listed C s' secret providers listed))
        (elim (provider_requests_complete
          (record { name = secret.name; namespace = secret.namespace }) (C.get_secret s)
          (C.get_secret s') only p providers m) [
            | inl same ↦ absurd (differs same)
            | inr found ↦ found
          ])
  requests-Concerns s s' _ _ _ (group_of_alert alert g groups only listed m differs) =
      subst (Member _) (sym (find_alert_groups_for_alert-listed C s' alert groups listed))
        (elim (group_requests_complete (record { name = alert.name; namespace = alert.namespace })
          (C.get_alert s) (C.get_alert s') only (is_ready C) g groups m) [
            | inl same ↦ absurd (differs same)
            | inr found ↦ found
          ])
  requests-Concerns s s' _ _ _ (monitor_of_pod pod m monitors only listed member differs) =
      subst (Member _) (sym (find_monitor_pods_for_pod-listed C s' pod monitors listed)) (
        (monitor_requests_exact C pod monitors _).1
          (m, member, Selects-selected s s' pod m only differs, refl))
