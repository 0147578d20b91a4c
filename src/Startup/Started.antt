-- ===== src/Startup/Started.antt =====
-- When the manager starts.
use smart_log.Base.{
  ◌≡◌, refl, ap, sym, subst, ◌⊎◌, inl, inr, Option, none, some, Option-cases, List, [], ◌∷◌, ◌++◌,
}
use smart_log.Errors.{Error, ok, err, Result-cases}
use smart_log.Startup.Complete.{Complete, registrations-Complete}
use smart_log.Startup.{
  Flags, CertWatcher, Framework, Step, start_manager, Exit, returned, exit_one, registrations,
  cert_watcher, manager_options, run_steps, start_up, main,
}

module _ (F : Framework) where
  -- The steps succeed one after the other.
  pub data Succeed : List Step → F.State → F.State → Type 0 where
    finished : {s : F.State} → Succeed [] s s
    succeeded :
        {step : Step} {steps : List Step} {s t u : F.State}
        → F.run step s ≡ (none, t)
        → Succeed steps t u
        → Succeed (step ∷ steps) s u

  -- Some steps succeed and the next one fails.
  abbrev pub Fails : List Step → F.State → F.State → Type 0
  Fails steps s u =
      (done : List Step) × (step : Step) × (rest : List Step) × (t : F.State) × (e : Error) × (steps
        ≡ done ++ step ∷ rest)
      × Succeed done s t
      × (F.run step t ≡ (some e, u))

  abbrev pub Outcome : List Step → F.State → Exit × F.State → Type 0
  Outcome steps s out =
      ((out.0 ≡ returned) × Succeed steps s out.1) ⊎ ((out.0 ≡ exit_one) × Fails steps s out.1)

  path_to : {x : Option Error × F.State} {o : Option Error} → x.0 ≡ o → x ≡ (o, x.1)
  path_to {x = x} e = λ i. (e i, x.1)

  Outcome-succeeded :
      (step : Step) (steps : List Step) (s t : F.State) (out : Exit × F.State)
      → F.run step s ≡ (none, t)
      → Outcome steps t out
      → Outcome (step ∷ steps) s out
  Outcome-succeeded step steps s t out e (inl (exit, rest)) = inl (exit, succeeded e rest)
  Outcome-succeeded step steps s t out e (inr (exit, (done, failed, rest, u, x, split, run, end))) =
      inr (exit, (step ∷ done, failed, rest, u, x, ap (λ l. step ∷ l) split, succeeded e run, end))

  run_steps-Outcome : (steps : List Step) (s : F.State) → Outcome steps s (run_steps F steps s)
  unfolding run_steps
  run_steps-Outcome [] s = inl (refl, finished)
  run_steps-Outcome (step ∷ steps) s = elim (Option-cases (F.run step s).0) [
    | inl e ↦
        rw (run_steps, e)
          (Outcome-succeeded step steps s (F.run step s).1 _ (path_to e)
            (run_steps-Outcome steps (F.run step s).1))
    | inr (x, e) ↦
        rw (run_steps, e) (inr (refl, ([], step, steps, s, x, refl, finished, path_to e)))
  ]

  -- The watchers that the flags ask for.
  abbrev pub Watchers : Flags → F.State → Option CertWatcher → Option CertWatcher → Type 0
  Watchers flags s webhook metrics =
      (cert_watcher F s flags.webhook_cert_path flags.webhook_cert_name flags.webhook_cert_key
        ≡ ok webhook)
      × (cert_watcher F s flags.metrics_cert_path flags.metrics_cert_name flags.metrics_cert_key
          ≡ ok metrics)

  -- There is no watcher for one of the servers, and nothing is done.
  abbrev pub Unwatched : Flags → F.State → Exit × F.State → Type 0
  Unwatched flags s out =
      (out ≡ (exit_one, s))
      × (e : Error) × ((cert_watcher F s flags.webhook_cert_path flags.webhook_cert_name
              flags.webhook_cert_key
            ≡ err e)
          ⊎ (cert_watcher F s flags.metrics_cert_path flags.metrics_cert_name flags.metrics_cert_key
              ≡ err e))

  abbrev pub Managed : Flags → F.State → Exit × F.State → Type 0
  Managed flags s out =
      (webhook : Option CertWatcher) × (metrics : Option CertWatcher) × Watchers flags s webhook
        metrics
      × (((e : Error) × (F.new_manager s (manager_options F flags webhook metrics)
              ≡ (some e, out.1))
            × (out.0 ≡ exit_one))
          ⊎ ((t : F.State) × (steps : List Step) × (F.new_manager s
                  (manager_options F flags webhook metrics)
                ≡ (none, t))
              × Complete webhook metrics steps
              × Outcome steps t out))

  start_up-Managed :
      (flags : Flags) (s : F.State) (webhook metrics : Option CertWatcher)
      → Watchers flags s webhook metrics
      → Managed flags s (start_up F flags webhook metrics s)
  unfolding start_up
  start_up-Managed flags s webhook metrics watchers =
      let made = F.new_manager s (manager_options F flags webhook metrics) in
      elim (Option-cases made.0) [
        | inl e ↦
            rw (start_up, e)
              (
                webhook,
                metrics,
                watchers,
                inr (
                  made.1,
                  registrations webhook metrics ++ start_manager ∷ [],
                  path_to e,
                  registrations-Complete webhook metrics,
                  run_steps-Outcome _ made.1,
                ),
              )
        | inr (x, e) ↦ rw (start_up, e) (webhook, metrics, watchers, inl (x, path_to e, refl))
      ]

  -- `main` stops without a call when a certificate cannot be watched; otherwise it makes the manager,
  -- and exits if that fails. Else it runs some steps one after the other, and it returns when all of
  -- them succeeded, and exits after the first that failed, everything before it having succeeded. The
  -- steps set up each of the four reconcilers, that of MonitorPods after the MonitorManager is made, add
  -- the cleaner with an interval of three minutes, each certificate watcher that there is, and the two
  -- checks, and all of this comes before the start of the manager, which is the last step.
  pub main-Managed :
      (flags : Flags) (s : F.State)
      → Unwatched flags s (main F flags s) ⊎ Managed flags s (main F flags s)
  unfolding main
  main-Managed flags s =
      elim (Result-cases
        (cert_watcher F s flags.webhook_cert_path flags.webhook_cert_name flags.webhook_cert_key)) [
          | inr (x, e) ↦ inl (rw (main, e) (refl, x, inl refl))
          | inl (webhook, e) ↦
              elim (Result-cases (
                cert_watcher F s flags.metrics_cert_path flags.metrics_cert_name
                  flags.metrics_cert_key)) [
                    | inr (x, q) ↦ inl (rw (main, e, q) (refl, x, inr refl))
                    | inl (metrics, q) ↦ inr (
                        subst (Managed flags s) (sym (rw (main, e, q) refl))
                          (start_up-Managed flags s webhook metrics (e, q)))
                  ]
        ]
