-- ===== src/Dispatcher/Limited.antt =====
-- The rate limit over a run of dispatches, whatever comes between them.
use smart_log.Base.{
  ℕ, ◌+◌, ◌≤◌, ◌<◌, ◌≡◌, refl, sym, ◌∙◌, String, Bool, Option, none, some, List, [], ◌∷◌, ◌&&◌,
  arith, ◌==◌, if◌then◌else◌, Bool-cases, Option-cases, eq_cases, ◌⊎◌, inl, inr, ap,
}
use mathlib.Core.Option.{some-injective}
use smart_log.Base.Int.{ℤ, pos, ltb_ℤ}
use smart_log.Base.Dict.{lookup}
use smart_log.Errors.{Result}
use smart_log.Api.{MonitorPod, Pod, LogRule, AlertRecord, RateLimitSpec}
use smart_log.Cluster.{Cluster}
use smart_log.RateLimiter.{InMemoryRateLimiter, new_in_memory_rate_limiter}
use smart_log.RateLimiter.Window.{
  within, CellTracks, seen_after, allow-CellTracks, CellTracks-few, CellTracks-mono, within_branch,
}
use smart_log.Templates.{Tools}
use smart_log.Http.{Http}
use smart_log.Dispatcher.{rate_limit_key, limit_period, check_rate, notify_target, dispatch_alert}

module _ (C : Cluster) (http : Http C.State) (ai_http : ℤ → Http C.State) (tools : Tools)
    (set_owner : MonitorPod → AlertRecord → Result AlertRecord) where
  -- A call of `dispatchAlert`, by the stream of any pod, with the state the world is in by then.
  pub record Call : Type 0 where
    pub mp : MonitorPod
    pub pod : Pod
    pub rule : LogRule
    pub container : String
    pub line : String
    pub state : C.State

  abbrev pub checked : Call → InMemoryRateLimiter → InMemoryRateLimiter × Bool
  checked c limiter = check_rate tools c.mp c.rule (C.clock c.state) limiter

  abbrev pub dispatched : Call → InMemoryRateLimiter → Option (InMemoryRateLimiter × C.State)
  dispatched c limiter =
      dispatch_alert C http ai_http tools set_owner c.mp c.pod c.rule c.container c.line
        (limiter, c.state)

  -- The instants of the calls for `key` that the limiter lets through, in a run of calls which share
  -- the limiter; a call that panics ends the run.
  unfoldable pub let_through : String → InMemoryRateLimiter → List Call → List ℕ
  let_through key limiter [] = []
  let_through key limiter (c ∷ rest) =
      let later : List ℕ = elim (dispatched c limiter) [
        | none ↦ []
        | some out ↦ let_through key out.0 rest
      ] in
      if rate_limit_key c.mp c.rule == key && (checked c limiter).1
      then C.clock c.state ∷ later
      else later

  -- The clock does not run back from one call to the next.
  abbrev pub Timed : ℕ → List Call → Type 0
  Timed clock [] = Unit
  Timed clock (c ∷ rest) = (clock ≤ C.clock c.state) × Timed (C.clock c.state) rest

  abbrev LimitedTo : ℕ → ℕ → MonitorPod → Type 0
  LimitedTo n p mp =
      (limit : RateLimitSpec) × (mp.spec.rate_limit ≡ some limit)
      × (limit.limit ≡ pos n)
      × (limit_period tools limit ≡ pos p)

  -- The calls for `key` are under a limit of `n` in a period of `p`.
  abbrev pub AllLimited : String → ℕ → ℕ → List Call → Type 0
  AllLimited key n p [] = Unit
  AllLimited key n p (c ∷ rest) =
      (rate_limit_key c.mp c.rule ≡ key → LimitedTo n p c.mp) × AllLimited key n p rest

  dispatched-cases :
      (c : Call) (limiter : InMemoryRateLimiter)
      → (dispatched c limiter ≡ none)
        ⊎ ((t : C.State) × (dispatched c limiter ≡ some ((checked c limiter).0, t)))
  unfolding dispatch_alert
  dispatched-cases c limiter = elim (Bool-cases (checked c limiter).1) [
    | inr e ↦ inr (c.state, rw (dispatch_alert, e) refl)
    | inl e ↦
        elim (Option-cases (
          notify_target C http ai_http tools set_owner c.mp c.pod c.rule c.container c.line
            c.state)) [
              | inl q ↦ inl (rw (dispatch_alert, e, q) refl)
              | inr (t, q) ↦ inr (t, rw (dispatch_alert, e, q) refl)
            ]
  ]

  module _ (key : String) (n p : ℕ) (some_left : 0 < n) where
    -- The one of a call whose rule has some limit.
    limited_by :
        (c : Call) (lim : RateLimitSpec)
        → (rate_limit_key c.mp c.rule ≡ key → LimitedTo n p c.mp)
        → c.mp.spec.rate_limit ≡ some lim
        → rate_limit_key c.mp c.rule ≡ key
        → (lim.limit ≡ pos n) × (limit_period tools lim ≡ pos p)
    limited_by c lim limited e same =
        let (own, is_own, limit_eq, period_eq) = limited same in
        let one : own ≡ lim = some-injective own lim (sym is_own ∙ e) in
        (ap (λ l. l.limit) (sym one) ∙ limit_eq, ap (limit_period tools) (sym one) ∙ period_eq)

    checked-CellTracks :
        (c : Call) (clock : ℕ) (seen : ℕ → ℕ) (limiter : InMemoryRateLimiter)
        → (rate_limit_key c.mp c.rule ≡ key → LimitedTo n p c.mp)
        → clock ≤ C.clock c.state
        → CellTracks n p seen clock (lookup key limiter.infos)
        → CellTracks n p
            (seen_after p
              (C.clock c.state)
              seen
              (rate_limit_key c.mp c.rule == key && (checked c limiter).1))
            (C.clock c.state)
            (lookup key (checked c limiter).0.infos)
    unfolding check_rate
    checked-CellTracks c clock seen limiter limited o h = elim (Option-cases c.mp.spec.rate_limit) [
      | inl e ↦ elim (eq_cases (rate_limit_key c.mp c.rule) key) [
        | inl same ↦ absurd (ground (arith, e, (limited same).1))
        | inr other ↦
            rw (check_rate, e, other) (CellTracks-mono n p seen clock (C.clock c.state) _ o h)
      ]
      | inr (lim, e) ↦ elim (Bool-cases (ltb_ℤ (pos 0) lim.limit)) [
        | inl some_limit ↦
            rw (check_rate, e, some_limit)
              (allow-CellTracks key (rate_limit_key c.mp c.rule) n p (C.clock c.state)
                (C.clock c.state) clock seen lim.limit (limit_period tools lim) limiter
                (limited_by c lim limited e) some_left o (omega arith) h)
        | inr no_limit ↦ elim (eq_cases (rate_limit_key c.mp c.rule) key) [
          | inl same ↦
              absurd (ground (arith, no_limit, (limited_by c lim limited e same).0, some_left))
          | inr other ↦
              rw (check_rate, e, no_limit, other)
                (CellTracks-mono n p seen clock (C.clock c.state) _ o h)
        ]
      ]
    ]

    within-let_through_onto :
        (calls : List Call) (limiter : InMemoryRateLimiter) (clock : ℕ) (seen : ℕ → ℕ)
        → CellTracks n p seen clock (lookup key limiter.infos)
        → AllLimited key n p calls
        → Timed clock calls
        → (t : ℕ) → within t p (let_through key limiter calls) + seen t ≤ n
    unfolding let_through within
    within-let_through_onto [] limiter clock seen h limited o t =
        omega (arith, CellTracks-few n p clock seen (lookup key limiter.infos) t h)
    within-let_through_onto (c ∷ rest) limiter clock seen h (limited, all) (o, timed) t =
        let tracks = checked-CellTracks c clock seen limiter limited o h in
        within_branch p n (C.clock c.state) t seen _
          (rate_limit_key c.mp c.rule == key && (checked c limiter).1)
          (elim (dispatched-cases c limiter) [
            | inl e ↦ rw e (omega (arith, CellTracks-few n p (C.clock c.state) _ _ t tracks))
            | inr (u, e) ↦
                rw e (within-let_through_onto rest _ (C.clock c.state) _ tracks all timed t)
          ])

  -- Of the dispatches for a key whose MonitorPods give it the positive limit `n` and the period `p`,
  -- whatever dispatches for this and other keys come in what order, and whatever happens in the
  -- cluster between them, the limiter lets at most `n` through in any window of length `p`, both of
  -- its ends included.
  pub within-let_through :
      (key : String) (n p : ℕ) (calls : List Call) (t : ℕ)
      → 0 < n
      → AllLimited key n p calls
      → Timed 0 calls
      → within t p (let_through key new_in_memory_rate_limiter calls) ≤ n
  unfolding new_in_memory_rate_limiter lookup
  within-let_through key n p calls t some_left limited o = omega (
    arith,
    within-let_through_onto key n p some_left calls new_in_memory_rate_limiter 0 (λ _. 0)
        (λ _. refl) limited o t,
  )
