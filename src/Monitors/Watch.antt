-- ===== src/Monitors/Watch.antt =====
-- The watch on pods asks for the MonitorPods that select the pod.
use smart_log.Base.{
  ◌≡◌, refl, ◌⊎◌, inl, inr, ◌↔◌, true, false, List, [], ◌∷◌, Member, Bool-cases, subst, ap, ◌∙◌,
}
use smart_log.Errors.{Error, ok, err, Result-cases}
use smart_log.Api.{NamespacedName, MonitorPod, Pod}
use smart_log.Cluster.{Cluster, Selector}
use smart_log.Monitors.{monitor_name, requests_for}

module _ (C : Cluster) where
  -- The MonitorPod has a valid selector, and it matches the labels of the pod.
  unfoldable pub Selects : MonitorPod → Pod → Type 0
  Selects mp pod =
      (selector : Selector) × (C.label_selector_as_selector mp.spec.selector ≡ ok selector)
      × (selector pod.labels ≡ true)

  -- A name of a MonitorPod of the list that selects the pod.
  unfoldable pub Wanted : Pod → List MonitorPod → NamespacedName → Type 0
  Wanted pod monitors name =
      (mp : MonitorPod) × Member mp monitors × Selects mp pod × (name ≡ monitor_name mp)

  Wanted-more :
      (pod : Pod) (mp : MonitorPod) (monitors : List MonitorPod) (name : NamespacedName)
      → Wanted pod monitors name
      → Wanted pod (mp ∷ monitors) name
  unfolding Wanted
  Wanted-more pod mp monitors name (x, m, sel, p) = (x, inr m, sel, p)

  Wanted-less :
      (pod : Pod) (mp : MonitorPod) (monitors : List MonitorPod) (name : NamespacedName)
      → Wanted pod (mp ∷ monitors) name
      → (Selects mp pod × (name ≡ monitor_name mp)) ⊎ Wanted pod monitors name
  unfolding Wanted
  Wanted-less pod mp monitors name (x, inl e, sel, p) =
      inl (subst (λ y. Selects y pod) e sel, p ∙ ap monitor_name e)
  Wanted-less pod mp monitors name (x, inr m, sel, p) = inr (x, m, sel, p)

  invalid :
      (mp : MonitorPod) (pod : Pod) {x : Error}
      → C.label_selector_as_selector mp.spec.selector ≡ err x
      → Selects mp pod
      → ⊥
  unfolding Selects
  invalid mp pod e (selector, f, g) = cc

  unmatched :
      (mp : MonitorPod) (pod : Pod) {selector : Selector}
      → C.label_selector_as_selector mp.spec.selector ≡ ok selector
      → selector pod.labels ≡ false
      → Selects mp pod
      → ⊥
  unfolding Selects
  unmatched mp pod e miss (other, f, g) = cc

  -- The watch asks for the reconcile of a name exactly when a MonitorPod of that name is among
  -- those of the list that select the pod.
  pub monitor_requests_exact :
      (pod : Pod) (monitors : List MonitorPod) (name : NamespacedName)
      → Member name (requests_for C pod monitors) ↔ Wanted pod monitors name
  unfolding requests_for Selects Wanted
  monitor_requests_exact pod [] name = (λ m. elim m [ ], λ x. elim x.1 [ ])
  monitor_requests_exact pod (mp ∷ monitors) name =
      let rest = monitor_requests_exact pod monitors name in
      let more = Wanted-more pod mp monitors name in
      let less = Wanted-less pod mp monitors name in
      elim (Result-cases (C.label_selector_as_selector mp.spec.selector)) [
        | inl (selector, e) ↦ elim (Bool-cases (selector pod.labels)) [
          | inl f ↦
              rw (requests_for, e, f)
                (
                  elim [ inl p ↦ (mp, inl refl, (selector, e, f), p) | inr m ↦ more (rest.0 m) ],
                  λ w. elim (less w) [ inl x ↦ inl x.1 | inr y ↦ inr (rest.1 y) ],
                )
          | inr f ↦
              rw (requests_for, e, f)
                (
                  λ m. more (rest.0 m),
                  λ w. elim (less w) [
                    | inl x ↦ absurd (unmatched mp pod e f x.0)
                    | inr y ↦ rest.1 y
                  ],
                )
        ]
        | inr (x, e) ↦
            rw (requests_for, e)
              (
                λ m. more (rest.0 m),
                λ w. elim (less w) [ inl y ↦ absurd (invalid mp pod e y.0) | inr y ↦ rest.1 y ],
              )
      ]
