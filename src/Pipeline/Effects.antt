-- ===== src/Pipeline/Effects.antt =====
-- What the goroutines of a MonitorPod do to the world, one after the other.
use smart_log.Base.{ℕ, ◌≡◌, String, Option, none, some, List, [], ◌∷◌, ◌==◌, if◌then◌else◌, false}
use smart_log.Base.Int.{ℤ}
use smart_log.Errors.{Result}
use smart_log.Api.{MonitorPod, AlertRecord}
use smart_log.Cluster.{Cluster}
use smart_log.RateLimiter.{InMemoryRateLimiter}
use smart_log.Templates.{Tools}
use smart_log.Http.{Http}
use smart_log.Dispatcher.{rate_limit_key}
use smart_log.Dispatcher.Limited.{Call, checked, dispatched, let_through}
use smart_log.Dispatcher.Outcome.{Targeted}

module _ (C : Cluster) (http : Http C.State) (ai_http : ℤ → Http C.State) (tools : Tools)
    (set_owner : MonitorPod → AlertRecord → Result AlertRecord) where
  -- The call's target gives no channel, or the event is sent to those that it gives.
  abbrev Sends : Call C http ai_http tools set_owner → Option C.State → Type 0
  Sends c out =
      Targeted C http ai_http tools set_owner c.mp c.pod c.rule c.container c.line c.state out

  -- The instant of a call joins the others, if it is for `key`.
  abbrev pub noted : String → Call C http ai_http tools set_owner → List ℕ → List ℕ
  noted key c instants =
      if rate_limit_key c.mp c.rule == key then C.clock c.state ∷ instants else instants

  -- Calls that share the limiter, and the instants of those for `key` that it does not withhold. A
  -- call that it withholds leaves the world as it is. A panic ends the calls.
  pub data Effects (key : String)
      : InMemoryRateLimiter → List (Call C http ai_http tools set_owner) → List ℕ → Type 0 where
    finished : {limiter : InMemoryRateLimiter} → Effects key limiter [] []
    withheld :
        {limiter left : InMemoryRateLimiter} {c : Call C http ai_http tools set_owner}
        {calls : List (Call C http ai_http tools set_owner)} {instants : List ℕ}
        → (checked C http ai_http tools set_owner c limiter).1 ≡ false
        → dispatched C http ai_http tools set_owner c limiter ≡ some (left, c.state)
        → Effects key left calls instants
        → Effects key limiter (c ∷ calls) instants
    sent :
        {limiter left : InMemoryRateLimiter} {c : Call C http ai_http tools set_owner} {s : C.State}
        {calls : List (Call C http ai_http tools set_owner)} {instants : List ℕ}
        → dispatched C http ai_http tools set_owner c limiter ≡ some (left, s)
        → Sends c (some s)
        → Effects key left calls instants
        → Effects key limiter (c ∷ calls) (noted key c instants)
    panicked :
        {limiter : InMemoryRateLimiter} {c : Call C http ai_http tools set_owner}
        {calls : List (Call C http ai_http tools set_owner)}
        → dispatched C http ai_http tools set_owner c limiter ≡ none
        → Sends c none
        → Effects key limiter (c ∷ calls) (noted key c [])

  module _ (key : String) (c : Call C http ai_http tools set_owner)
      (calls : List (Call C http ai_http tools set_owner)) (limiter : InMemoryRateLimiter) where
    -- What the limiter lets through of the calls after this one.
    abbrev later : Option (InMemoryRateLimiter × C.State) → List ℕ
    later none = []
    later (some out) = let_through C http ai_http tools set_owner key out.0 calls
