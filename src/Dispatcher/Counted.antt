-- ===== src/Dispatcher/Counted.antt =====
-- What a sent alert leaves in the status, and when the dispatch panics.
use smart_log.Base.{ℕ, ◌+◌, String, ◌≡◌, refl, sym, ap, ◌∙◌, ◌⊎◌, inl, inr}
use smart_log.Base.{Option, none, some, Option-cases}
use smart_log.Base.Int.{ℤ}
use smart_log.Errors.{Error, Result, ok, err, Result-cases}
use smart_log.Api.{MonitorPod, Pod, LogRule, AlertRecord, NamespacedName}
use smart_log.Cluster.{Cluster, Attempts, last, again, HasHelpers}
use smart_log.Templates.{Tools}
use smart_log.Http.{Http}
use smart_log.Dispatcher.{count_alert, register}

module _ (C : Cluster) (http : Http C.State) (ai_http : ℤ → Http C.State) (tools : Tools)
    (set_owner : MonitorPod → AlertRecord → Result AlertRecord) where
  -- The status of the MonitorPod that the server had was written, without an error, with one alert more
  -- and the time of the write as that of the latest alert.
  pub Counted : NamespacedName → C.State → Type 0
  Counted key end =
      (t : C.State) × (latest : MonitorPod) × (C.get_monitor_pod t key ≡ ok latest)
      × (C.update_monitor_pod_status t (record latest {
        status = record latest.status {
          alerts_sent_count = latest.status.alerts_sent_count + 1;
          last_triggered_time = some (C.clock t);
        };
      })
          ≡ (none, end))

  last_run :
      {S : Type 0} {f : S → Option Error × S} {n : ℕ} {s : S} {out : Option Error × S}
      → Attempts f n s out
      → (t : S) × (f t ≡ out)
  last_run (last {s = s} e) = (s, e)
  last_run (again e c rest) = last_run rest

  no_monitor :
      (key : NamespacedName) (t : C.State) (x : Error)
      → C.get_monitor_pod t key ≡ err x
      → (count_alert C http ai_http tools set_owner key t).0 ≡ some x
  unfolding count_alert
  no_monitor key t x e = rw (count_alert, e) refl

  run-Counted :
      (key : NamespacedName) (t end : C.State)
      → count_alert C http ai_http tools set_owner key t ≡ (none, end)
      → Counted key end
  unfolding Counted count_alert
  run-Counted key t end h = elim (Result-cases (C.get_monitor_pod t key)) [
    | inl (latest, e) ↦ (t, latest, e, sym (rw (count_alert, e) refl) ∙ h)
    | inr (x, e) ↦ absurd (cc (h, no_monitor key t x e))
  ]

  -- With the helpers as documented, after an alert that was sent the count of the alerts is one higher than the server had it when
  -- it was written, or the last of the allowed attempts to write it failed.
  pub register-Counted :
      HasHelpers C
      → (mp : MonitorPod) (pod : Pod) (rule : LogRule) (container line : String) (s : C.State)
      → Counted
          (record { name = mp.name; namespace = mp.namespace })
          (register C http ai_http tools set_owner mp pod rule container line s)
        ⊎ ((e : Error) × (t : C.State) × (count_alert C http ai_http tools set_owner
                (record { name = mp.name; namespace = mp.namespace })
                t
              ≡ (some e, register C http ai_http tools set_owner mp pod rule container line s)))
  unfolding register
  register-Counted helpers mp pod rule container line s =
      let key : NamespacedName = record { name = mp.name; namespace = mp.namespace } in
      let end = register C http ai_http tools set_owner mp pod rule container line s in
      let (t, run) =
        last_run (helpers.retries (count_alert C http ai_http tools set_owner key) _) in
      elim (Option-cases
        (C.retry_on_conflict (count_alert C http ai_http tools set_owner key) _).0) [
          | inl e ↦ inl (run-Counted key t end (run ∙ ap (λ x. (x, end)) e))
          | inr (x, e) ↦ inr (x, t, run ∙ ap (λ y. (y, end)) e)
        ]
