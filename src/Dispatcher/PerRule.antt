-- ===== src/Dispatcher/PerRule.antt =====
-- The rate limit of a rule of a MonitorPod.
use smart_log.Base.{ℕ, ◌≤◌, ◌<◌, ◌≡◌, ◌∙◌, some, List, [], ◌∷◌, All}
use smart_log.Base.Int.{ℤ, pos}
use smart_log.Errors.{Result}
use smart_log.Api.{MonitorPod, LogRule, AlertRecord, RateLimitSpec}
use smart_log.Cluster.{Cluster}
use smart_log.RateLimiter.{new_in_memory_rate_limiter}
use smart_log.RateLimiter.Window.{within}
use smart_log.Templates.{Tools}
use smart_log.Http.{Http}
use smart_log.Dispatcher.{rate_limit_key, limit_period}
use smart_log.Dispatcher.Keys.{Named, rate_limit_key-injective}
use smart_log.Dispatcher.Limited.{Call, Timed, AllLimited, let_through, within-let_through}

module _ (C : Cluster) (http : Http C.State) (ai_http : ℤ → Http C.State) (tools : Tools)
    (set_owner : MonitorPod → AlertRecord → Result AlertRecord) where
  -- The call's MonitorPod has names without slashes and, if it is the given one in some version, its
  -- rate limit.
  abbrev pub Agrees : MonitorPod → Call C http ai_http tools set_owner → Type 0
  Agrees mp c =
      Named c.mp
      × ((c.mp.namespace ≡ mp.namespace)
          → (c.mp.name ≡ mp.name)
          → c.mp.spec.rate_limit ≡ mp.spec.rate_limit)

  Agrees-AllLimited :
      (mp : MonitorPod) (rule : LogRule) (limit : RateLimitSpec) (n p : ℕ)
      → Named mp
      → mp.spec.rate_limit ≡ some limit
      → limit.limit ≡ pos n
      → limit_period tools limit ≡ pos p
      → (calls : List (Call C http ai_http tools set_owner)) → All (Agrees mp) calls
      → AllLimited C http ai_http tools set_owner (rate_limit_key mp rule) n p calls
  Agrees-AllLimited mp rule limit n p named is_limit limit_eq period_eq [] h = tt
  Agrees-AllLimited mp rule limit n p named is_limit limit_eq period_eq (c ∷ calls)
        ((own, agrees), h) =
      (
        λ same.
            let parts = rate_limit_key-injective c.mp c.rule mp rule own named same in
            (limit, agrees parts.0 parts.1 ∙ is_limit, limit_eq, period_eq),
        Agrees-AllLimited mp rule limit n p named is_limit limit_eq period_eq calls h,
      )

  -- Of the dispatches for one rule of a MonitorPod with the positive limit `n` and the period `p`,
  -- whatever dispatches for this and other rules and MonitorPods come in what order, and whatever
  -- happens in the cluster between them, the limiter lets at most `n` through in any window of length
  -- `p`, both of its ends included, while the MonitorPod keeps its limit and no namespace or name has
  -- a slash.
  pub rule-within-limit :
      (mp : MonitorPod) (rule : LogRule) (limit : RateLimitSpec) (n p : ℕ)
      (calls : List (Call C http ai_http tools set_owner)) (t : ℕ)
      → Named mp
      → mp.spec.rate_limit ≡ some limit
      → limit.limit ≡ pos n
      → limit_period tools limit ≡ pos p
      → 0 < n
      → All (Agrees mp) calls
      → Timed C http ai_http tools set_owner 0 calls
      → within t p (
          let_through C http ai_http tools set_owner
            (rate_limit_key mp rule)
            new_in_memory_rate_limiter
            calls)
        ≤ n
  rule-within-limit mp rule limit n p calls t named is_limit limit_eq period_eq some_left agree
        timed =
      within-let_through C http ai_http tools set_owner (rate_limit_key mp rule) n p calls t
        some_left
        (Agrees-AllLimited mp rule limit n p named is_limit limit_eq period_eq calls agree) timed
