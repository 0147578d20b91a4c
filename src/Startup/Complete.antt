-- ===== src/Startup/Complete.antt =====
-- What has to be done before the manager starts, apart from the order in which `main` in cmd/main.go does it.
use mathlib.Core.Option.{some-injective}
use smart_log.Base.{
  ◌≡◌, refl, ap, sym, subst, inl, inr, Bool, true, false, ◌||◌, Option, none, some, List, [], ◌∷◌,
  ◌++◌, Member, ◌*◌, arith,
}
use smart_log.Startup.{
  CertWatcher, Reconciler, Step, start_manager, set_up, new_monitor_manager, add_cleaner,
  add_cert_watcher, add_healthz_check, add_readyz_check, alert_reconciler, alert_group_reconciler,
  monitor_pod_reconciler, ai_provider_reconciler, watcher_step, registrations,
}

-- A step comes before another in a list.
pub data Before (a b : Step) : List Step → Type 0 where
  here : {steps : List Step} → Member b steps → Before a b (a ∷ steps)
  there : {step : Step} {steps : List Step} → Before a b steps → Before a b (step ∷ steps)

-- What has to be done once there is a manager: every reconciler is set up, the one of MonitorPods after the
-- manager that it hands them to; the cleaner is added, with three minutes; so is each watcher that there
-- is, and both checks; and the start comes once, after everything.
pub record Complete (webhook metrics : Option CertWatcher) (steps : List Step) : Type 0 where
  pub set_up_all : (r : Reconciler) → Before (set_up r) start_manager steps
  pub manager_first : Before new_monitor_manager (set_up monitor_pod_reconciler) steps
  pub cleaner_added : Before (add_cleaner (180 * 1000000000)) start_manager steps
  pub metrics_watched :
      (w : CertWatcher) → metrics ≡ some w → Before (add_cert_watcher w) start_manager steps
  pub webhook_watched :
      (w : CertWatcher) → webhook ≡ some w → Before (add_cert_watcher w) start_manager steps
  pub healthz_added : Before add_healthz_check start_manager steps
  pub readyz_added : Before add_readyz_check start_manager steps
  pub started_last :
      (others : List Step) × (steps ≡ others ++ start_manager ∷ [])
      × (Member start_manager others → ⊥)

Member-last : (a : Step) (steps : List Step) → Member a (steps ++ a ∷ [])
Member-last a [] = inl refl
Member-last a (step ∷ steps) = inr (Member-last a steps)

-- What is among the steps before the start.
Member-Before :
    (a : Step) (steps : List Step)
    → Member a steps
    → Before a start_manager (steps ++ start_manager ∷ [])
Member-Before a [] m = elim m [ ]
Member-Before a (step ∷ steps) (inl e) =
    subst (λ s. Before a start_manager (s ∷ (steps ++ start_manager ∷ []))) e
      (here (Member-last start_manager steps))
Member-Before a (step ∷ steps) (inr m) = there (Member-Before a steps m)

watched :
    (w : CertWatcher) (o : Option CertWatcher)
    → o ≡ some w
    → Member (add_cert_watcher w) (watcher_step o)
unfolding watcher_step
watched w none e = absurd (ground (arith, e))
watched w (some v) e = inl (ap add_cert_watcher (sym (some-injective v w e)))

Member-front : (a : Step) (xs ys : List Step) → Member a xs → Member a (xs ++ ys)
Member-front a [] ys m = elim m [ ]
Member-front a (x ∷ xs) ys (inl e) = inl e
Member-front a (x ∷ xs) ys (inr m) = inr (Member-front a xs ys m)

Member-back : (a : Step) (xs ys : List Step) → Member a ys → Member a (xs ++ ys)
Member-back a [] ys m = m
Member-back a (x ∷ xs) ys m = inr (Member-back a xs ys m)

registered-set_up :
    (webhook metrics : Option CertWatcher) (r : Reconciler)
    → Member (set_up r) (registrations webhook metrics)
unfolding registrations
registered-set_up webhook metrics alert_reconciler = inl refl
registered-set_up webhook metrics alert_group_reconciler = inr (inl refl)
registered-set_up webhook metrics monitor_pod_reconciler = inr (inr (inr (inl refl)))
registered-set_up webhook metrics ai_provider_reconciler = inr (inr (inr (inr (inr (inl refl)))))

is_start : Step → Bool
is_start start_manager = true
is_start (set_up r) = false
is_start new_monitor_manager = false
is_start add_healthz_check = false
is_start add_readyz_check = false
is_start (add_cleaner interval) = false
is_start (add_cert_watcher w) = false

starts : List Step → Bool
starts [] = false
starts (step ∷ steps) = is_start step || starts steps

Member-starts : (steps : List Step) → Member start_manager steps → starts steps ≡ true
unfolding starts is_start
Member-starts [] m = elim m [ ]
Member-starts (step ∷ steps) (inl e) = ap (λ s. is_start s || starts steps) (sym e)
Member-starts (step ∷ steps) (inr m) = ground (arith, Member-starts steps m)

registrations_unstarted :
    (webhook metrics : Option CertWatcher) → starts (registrations webhook metrics) ≡ false
unfolding registrations watcher_step starts is_start
registrations_unstarted none none = refl
registrations_unstarted none (some m) = refl
registrations_unstarted (some w) none = refl
registrations_unstarted (some w) (some m) = refl

not_started :
    (webhook metrics : Option CertWatcher)
    → Member start_manager (registrations webhook metrics)
    → ⊥
not_started webhook metrics m =
    cc (registrations_unstarted webhook metrics, Member-starts (registrations webhook metrics) m)

pub registrations-Complete :
    (webhook metrics : Option CertWatcher)
    → Complete webhook metrics (registrations webhook metrics ++ start_manager ∷ [])
unfolding registrations
registrations-Complete webhook metrics =
    let checks = add_healthz_check ∷ add_readyz_check ∷ [] in
    let last =
      λ (a : Step) (m : Member a (watcher_step metrics ++ (watcher_step webhook ++ checks))).
        Member-Before a (registrations webhook metrics) (inr (inr (inr (inr (inr (inr m)))))) in
    let after_metrics = λ (a : Step) (m : Member a (watcher_step webhook ++ checks)).
      last a (Member-back a (watcher_step metrics) _ m) in
    let check = λ (a : Step) (m : Member a checks).
      after_metrics a (Member-back a (watcher_step webhook) _ m) in
    record {
      set_up_all = λ r.
          Member-Before (set_up r) (registrations webhook metrics)
            (registered-set_up webhook metrics r);
      manager_first = there (there (here (inl refl)));
      cleaner_added =
          Member-Before _ (registrations webhook metrics) (inr (inr (inr (inr (inl refl)))));
      metrics_watched =
          λ w e. last _ (Member-front _ (watcher_step metrics) _ (watched w metrics e));
      webhook_watched =
          λ w e. after_metrics _ (Member-front _ (watcher_step webhook) _ (watched w webhook e));
      healthz_added = check add_healthz_check (inl refl);
      readyz_added = check add_readyz_check (inr (inl refl));
      started_last = (registrations webhook metrics, refl, not_started webhook metrics);
    }
