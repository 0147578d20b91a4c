-- ===== src/MonitorLoop/Follow.antt =====
-- What a tick makes of the streams, and the runs of the loop.
use smart_log.Base.{
  ℕ, suc, ◌≤◌, String, ◌==◌, eq_iff, ◌≡◌, refl, sym, ap, ◌∙◌, Bool, true, false, Option, none, some,
}
use smart_log.Base.{
  List, [], ◌∷◌, if◌then◌else◌, contains, arith, inl, inr, eq_cases, Bool-cases, subst, length,
}
use smart_log.Base.Dict
use smart_log.Errors.{Result-cases}
use smart_log.Api.{Pod, MonitorPod}
use smart_log.Cluster.{Cluster}
use smart_log.Tasks.{Registry, Task, cancel_entry, empty_registry}
use smart_log.Tasks.Sound.{
  WellFormed, Loose, live, payloads, cancel_entry-Loose, start-WellFormed, live-start, to_list,
  handles, empty-WellFormed,
}
use smart_log.MonitorLoop.{
  is_running, pod_key, current_pods, start_missing, start_new, follow_pods, keys, loop_tick,
}
use smart_log.MonitorLoop.Streams.{
  drop_stale-WellFormed, live-dropped, no_task, or_first, or_first_assoc, or_first_nil, candidate,
  first_running,
}

free-Loose :
    (k : String) (r : Registry Pod) → WellFormed r → Dict.lookup k r.cancels ≡ none → Loose k r
unfolding cancel_entry
free-Loose k r w e = subst (λ o. Loose k (cancel_entry o r)) e (cancel_entry-Loose k r w)

single : (h : ℕ) (ts : List (Task Pod)) → handles ts ≡ h ∷ [] → (t : Task Pod) × (ts ≡ t ∷ [])
single h [] p = absurd cc
single h (t ∷ []) p = (t, refl)
single h (t ∷ u ∷ ts) p = absurd cc

-- A key with an entry has one stream.
one_task :
    (k : String) (h : ℕ) (r : Registry Pod)
    → WellFormed r
    → Dict.lookup k r.cancels ≡ some h
    → (t : Task Pod) × (live k r.tasks ≡ t ∷ [])
one_task k h r w e = single h (live k r.tasks) (w.fits k ∙ ap to_list e)

at_key : String → Pod → List Pod
at_key k pod = if pod_key pod == k then pod ∷ [] else []

start_missing-Sound :
    (o : Option ℕ) (k : String) (pod : Pod) (r : Registry Pod)
    → Dict.lookup (pod_key pod) r.cancels ≡ o
    → WellFormed r
    → WellFormed (start_missing o pod r)
      × (payloads (live k (start_missing o pod r).tasks)
          ≡ or_first (payloads (live k r.tasks)) (at_key k pod))
unfolding start_missing at_key
start_missing-Sound none k pod r e w = (
  start-WellFormed _ pod r (free-Loose _ r w e),
  live-start (pod_key pod) k pod r (no_task _ r w e) ∙ elim (eq_cases (pod_key pod) k) [
    | inl p ↦
        rw ((eq_iff (pod_key pod) k).1 p, subst (λ x. live x r.tasks ≡ []) p (no_task _ r w e)) refl
    | inr p ↦ rw p (sym (or_first_nil _))
  ],
)
start_missing-Sound (some h) k pod r e w = (
  w,
  elim (eq_cases (pod_key pod) k) [
    | inl p ↦
        let task = one_task (pod_key pod) h r w e in
        rw (subst (λ x. live x r.tasks ≡ task.0 ∷ []) p task.1) refl
    | inr p ↦ rw p (sym (or_first_nil _))
  ],
)

unfoldable pub start_step : Pod → Registry Pod → Registry Pod
start_step pod r =
    if is_running pod.phase then start_missing (Dict.lookup (pod_key pod) r.cancels) pod r else r

start_step-Sound :
    (k : String) (pod : Pod) (r : Registry Pod)
    → WellFormed r
    → WellFormed (start_step pod r)
      × (payloads (live k (start_step pod r).tasks)
          ≡ or_first (payloads (live k r.tasks)) (candidate k pod))
unfolding start_step candidate at_key
start_step-Sound k pod r w = elim (Bool-cases (is_running pod.phase)) [
  | inl e ↦ rw e (start_missing-Sound _ k pod r refl w)
  | inr e ↦ rw e (w, sym (or_first_nil _))
]

start_new-Sound :
    (k : String) (pods : List Pod) (r : Registry Pod)
    → WellFormed r
    → WellFormed (start_new pods r)
      × (payloads (live k (start_new pods r).tasks)
          ≡ or_first (payloads (live k r.tasks)) (first_running k pods))
unfolding start_new first_running start_step
start_new-Sound k [] r w = (w, sym (or_first_nil _))
start_new-Sound k (pod ∷ pods) r w =
    let step = start_step-Sound k pod r w in
    let rest = start_new-Sound k pods (start_step pod r) step.0 in
    (
      rest.0,
      rest.1
          ∙ ap (λ l. or_first l (first_running k pods)) step.1
          ∙ or_first_assoc _ (candidate k pod) _,
    )

-- The streams of a key after a tick: those before it, if a running pod of the list has the key, and
-- else, if there was none, one of the first such pod.
unfoldable pub followed : List Pod → String → List Pod → List Pod
followed pods k before =
    or_first (if contains (current_pods pods) k then before else []) (first_running k pods)

kept_if :
    (b : Bool) (ts : List (Task Pod)) (others : List Pod)
    → or_first (payloads (if b then ts else [])) others
      ≡ or_first (if b then payloads ts else []) others
kept_if true ts others = refl
kept_if false ts others = refl

-- A tick that lists the pods keeps the map in step with the streams that are not cancelled, keeps
-- the stream of a key that a running listed pod has, starts one for the first running pod of a key that
-- has none, and cancels the others.
pub follow_pods-followed :
    (pods : List Pod) (r : Registry Pod)
    → WellFormed r
    → WellFormed (follow_pods pods r)
      × ((k : String)
          → payloads (live k (follow_pods pods r).tasks)
            ≡ followed pods k (payloads (live k r.tasks)))
unfolding follow_pods followed
follow_pods-followed pods r w =
    let dropped = drop_stale-WellFormed (current_pods pods) (keys r.cancels) r w in
    (
      (start_new-Sound "" pods _ dropped).0,
      λ k.
          (start_new-Sound k pods _ dropped).1
          ∙ ap (λ l. or_first (payloads l) (first_running k pods))
              (live-dropped (current_pods pods) k r w)
          ∙ kept_if (contains (current_pods pods) k) (live k r.tasks) (first_running k pods),
    )

count_first :
    (k : String) (pods : List Pod)
    → length (first_running k pods) ≡ (if contains (current_pods pods) k then 1 else 0)
unfolding first_running current_pods candidate
count_first k [] = refl
count_first k (pod ∷ pods) = elim (Bool-cases (is_running pod.phase)) [
  | inl e ↦ elim (Bool-cases (pod_key pod == k)) [
    | inl f ↦ rw (e, f) refl
    | inr f ↦ rw (e, f) (count_first k pods)
  ]
  | inr e ↦ rw e (count_first k pods)
]

length-payloads : (ts : List (Task Pod)) → length (payloads ts) ≡ length ts
length-payloads [] = refl
length-payloads (t ∷ ts) = ap suc (length-payloads ts)

at_most_one : (o : Option ℕ) (ts : List (Task Pod)) → handles ts ≡ to_list o → length ts ≤ 1
at_most_one o [] e = omega arith
at_most_one o (t ∷ []) e = omega arith
at_most_one none (t ∷ u ∷ ts) e = absurd cc
at_most_one (some h) (t ∷ u ∷ ts) e = absurd cc

count_or :
    (b : Bool) (before others : List Pod)
    → length before ≤ 1
    → length others ≡ (if b then 1 else 0)
    → length (or_first (if b then before else []) others) ≡ (if b then 1 else 0)
count_or true [] others h e = e
count_or true (p ∷ before) others h e = omega arith
count_or false before others h e = e

pub follow_pods-count :
    (pods : List Pod) (r : Registry Pod) (k : String)
    → WellFormed r
    → length (live k (follow_pods pods r).tasks) ≡ (if contains (current_pods pods) k then 1 else 0)
unfolding followed
follow_pods-count pods r k w =
    sym (length-payloads _)
    ∙ ap length ((follow_pods-followed pods r w).1 k)
    ∙ count_or (contains (current_pods pods) k) _ _
        (subst (λ n. n ≤ 1) (sym (length-payloads _)) (at_most_one _ _ (w.fits k)))
        (count_first k pods)

module _ (C : Cluster) (mp : MonitorPod) where
  -- The streams of a loop after ticks, the latest first, each in a state of the server of its own.
  pub streams_after : List C.State → Registry Pod
  streams_after [] = empty_registry
  streams_after (s ∷ earlier) = loop_tick C mp s (streams_after earlier)

  pub loop_tick-WellFormed :
      (s : C.State) (r : Registry Pod) → WellFormed r → WellFormed (loop_tick C mp s r)
  unfolding loop_tick
  loop_tick-WellFormed s r w = elim (Result-cases (C.label_selector_as_selector mp.spec.selector)) [
    | inl (selector, e) ↦ elim (Result-cases (C.list_pods s mp.namespace selector)) [
      | inl (pods, f) ↦ rw (loop_tick, e, f) (follow_pods-followed pods r w).0
      | inr (x, f) ↦ rw (loop_tick, e, f) w
    ]
    | inr (x, e) ↦ rw (loop_tick, e) w
  ]

  pub streams_after-WellFormed : (history : List C.State) → WellFormed (streams_after history)
  unfolding streams_after
  streams_after-WellFormed [] = empty-WellFormed
  streams_after-WellFormed (s ∷ earlier) =
      loop_tick-WellFormed s _ (streams_after-WellFormed earlier)
