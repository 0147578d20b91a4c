-- ===== src/Pipeline/Alerted.antt =====
-- What gets through from the logs of a MonitorPod's pods.
use smart_log.Base.{
  ℕ, ◌≤◌, ◌<◌, ◌≡◌, refl, sym, subst, String, Bool, Option, some, List, [], ◌∷◌, map, All, inl, inr,
  ◌⊎◌,
}
use mathlib.Core.List.{Memᴰ}
use smart_log.Base.Int.{ℤ, pos}
use smart_log.Errors.{Result}
use smart_log.Api.{MonitorPod, Pod, LogRule, AlertRecord, RateLimitSpec}
use smart_log.Cluster.{Cluster}
use smart_log.RateLimiter.{new_in_memory_rate_limiter}
use smart_log.RateLimiter.Window.{within}
use smart_log.Templates.{Tools}
use smart_log.Http.{Http}
use smart_log.Stream.{Dispatch, stream_pod_logs}
use smart_log.Stream.Justified.{Justified, All-++, stream_pod_logs-Justified}
use smart_log.Dispatcher.{rate_limit_key, limit_period}
use smart_log.Dispatcher.Keys.{Named}
use smart_log.Dispatcher.Limited.{Timed, let_through}
use smart_log.Dispatcher.PerRule.{Agrees, rule-within-limit}
use smart_log.Pipeline.{Followed, Goroutine, started_by, goroutines, call_of}

All-Memᴰ : {A : Type 0} (P : A → Type 0) {x : A} {xs : List A} → Memᴰ x xs → All P xs → P x
All-Memᴰ P (Memᴰ.head e) h = subst P (sym e) h.0
All-Memᴰ P (Memᴰ.tail m) h = All-Memᴰ P m h.1

containers_cases :
    (xs : List String)
    → (xs ≡ []) ⊎ ((container : String) × (others : List String) × (xs ≡ container ∷ others))
containers_cases [] = inl refl
containers_cases (x ∷ xs) = inr (x, xs, refl)

module _ (compile : String → Option (String → Bool)) (mp : MonitorPod) where
  -- The goroutine's event has text, and its rule is the first that fits.
  abbrev pub Founded : Goroutine → Type 0
  Founded g = Justified compile mp.spec.rules g.dispatch

  sent_off-Founded :
      (pod : Pod) (container : String) (sent_off : List Dispatch)
      → All (Justified compile mp.spec.rules) sent_off
      → All Founded (map (λ d. record { pod = pod; container = container; dispatch = d }) sent_off)
  sent_off-Founded pod container [] h = tt
  sent_off-Founded pod container (d ∷ rest) (here, h) =
      (here, sent_off-Founded pod container rest h)

  started_by-Founded : (f : Followed) → All Founded (started_by compile mp f)
  unfolding started_by stream_pod_logs
  started_by-Founded f = elim (containers_cases f.pod.containers) [
    | inl e ↦ rw (started_by, stream_pod_logs, e) tt
    | inr (container, others, e) ↦
        let (sent_off, ran, justified) =
          stream_pod_logs-Justified compile mp f.pod f.stream container others e in
        rw (started_by, ran) (sent_off-Founded f.pod container sent_off justified)
  ]

  goroutines-Founded : (followed : List Followed) → All Founded (goroutines compile mp followed)
  unfolding goroutines
  goroutines-Founded [] = tt
  goroutines-Founded (f ∷ rest) =
      All-++ Founded (started_by compile mp f) (goroutines compile mp rest) (started_by-Founded f)
        (goroutines-Founded rest)

module _ (compile : String → Option (String → Bool)) (C : Cluster) (http : Http C.State)
    (ai_http : ℤ → Http C.State) (tools : Tools)
    (set_owner : MonitorPod → AlertRecord → Result AlertRecord) where
  calls-Agree :
      (mp : MonitorPod)
      → Named mp
      → (runs : List (Goroutine × C.State))
      → All
          (Agrees C http ai_http tools set_owner mp)
          (map (call_of C http ai_http tools set_owner mp) runs)
  unfolding call_of
  calls-Agree mp named [] = tt
  calls-Agree mp named (run ∷ runs) = ((named, λ _ _. refl), calls-Agree mp named runs)

  runs-Founded :
      (mp : MonitorPod) (gs : List Goroutine)
      → All (Founded compile mp) gs
      → (runs : List (Goroutine × C.State)) → All (λ run. Memᴰ run.0 gs) runs
      → All (λ run. Founded compile mp run.0) runs
  runs-Founded mp gs founded [] h = tt
  runs-Founded mp gs founded (run ∷ runs) (here, h) =
      (All-Memᴰ (Founded compile mp) here founded, runs-Founded mp gs founded runs h)

  -- Whatever the logs of a MonitorPod's pods hold, in whatever order the goroutines that their streams
  -- start come to run, and whatever happens in the cluster in between: each of them carries an event
  -- with text under the first of the rules that fits it, and of those for one rule with the positive
  -- limit `n` and the period `p`, the limiter lets at most `n` through in any window of length `p`,
  -- when the MonitorPod's namespace and name have no slash.
  pub runs_within_limit :
      (mp : MonitorPod) (rule : LogRule) (limit : RateLimitSpec) (n p : ℕ)
      (followed : List Followed) (runs : List (Goroutine × C.State)) (t : ℕ)
      → Named mp
      → mp.spec.rate_limit ≡ some limit
      → limit.limit ≡ pos n
      → limit_period tools limit ≡ pos p
      → 0 < n
      → All (λ run. Memᴰ run.0 (goroutines compile mp followed)) runs
      → Timed C http ai_http tools set_owner 0
          (map (call_of C http ai_http tools set_owner mp) runs)
      → All (λ run. Founded compile mp run.0) runs
        × (within t p (
              let_through C http ai_http tools set_owner
                (rate_limit_key mp rule)
                new_in_memory_rate_limiter
                (map (call_of C http ai_http tools set_owner mp) runs))
            ≤ n)
  runs_within_limit mp rule limit n p followed runs t named is_limit limit_eq period_eq some_left
        started timed =
      (
        runs-Founded mp _ (goroutines-Founded compile mp followed) runs started,
        rule-within-limit C http ai_http tools set_owner mp rule limit n p
            (map (call_of C http ai_http tools set_owner mp) runs) t named is_limit limit_eq
            period_eq some_left (calls-Agree mp named runs) timed,
      )
