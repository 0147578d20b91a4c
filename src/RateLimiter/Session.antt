-- ===== src/RateLimiter/Session.antt =====
-- The limiter counts by sessions, which end only after a quiet period.
use smart_log.Base.{ℕ, ◌+◌, ◌≤◌, ◌≡◌, String, true, some}
use smart_log.Base.{
  List, [], ◌∷◌, ◌++◌, map, ap, arith, eq_refl, eq_iff, tests, ◌∙◌, if◌then◌else◌, length,
}
use smart_log.Base.Int.{ℤ, pos, ltb_ℤ}
use smart_log.Base.Dict.{lookup}
use smart_log.RateLimiter.{RateLimiterInfo, InMemoryRateLimiter, is_stale, allow}
use smart_log.RateLimiter.{new_in_memory_rate_limiter}
use smart_log.RateLimiter.Cell.{admit, allow-admit}
use smart_log.RateLimiter.Window.{Attempt, sent}

-- Attempts for one key, each at most `p` after the one before it.
abbrev pub IsSteady : String → ℕ → ℕ → List Attempt → Type 0
IsSteady key p last [] = Unit
IsSteady key p last (a ∷ rest) =
    (a.key ≡ key) × (last ≤ a.now) × (a.now ≤ last + p) × IsSteady key p a.stamp rest

module _ (limit period : String → ℤ) (key : String) (n p : ℕ) (limit_eq : limit key ≡ pos n)
    (period_eq : period key ≡ pos p) where
  -- One attempt within the session that `info` describes.
  session_step :
      (rl : InMemoryRateLimiter) (info : RateLimiterInfo) (a : Attempt)
      → lookup key rl.infos ≡ some info
      → a.key ≡ key
      → info.last_sent_at ≤ a.now
      → a.now ≤ info.last_sent_at + p
      → let call = allow rl a.key (limit a.key) (period a.key) a.now a.stamp in
        (call.1 ≡ ltb_ℤ (pos info.count) (pos n))
        × (lookup key call.0.infos ≡ (
            if ltb_ℤ (pos info.count) (pos n)
            then some (record { count = info.count + 1; last_sent_at = a.stamp })
            else some info))
  unfolding admit is_stale
  session_step rl info a found same after soon =
      let kept = allow-admit rl a.key (limit a.key) (period a.key) a.now a.stamp in
      rw (kept.0, kept.1 key, same, eq_refl, limit_eq, period_eq, found) (ground arith)

  sent_session :
      (attempts : List Attempt) (b : Attempt) (rl : InMemoryRateLimiter) (info : RateLimiterInfo)
      → lookup key rl.infos ≡ some info
      → info.count + length attempts ≡ n
      → IsSteady key p info.last_sent_at (attempts ++ b ∷ [])
      → sent limit period key rl (attempts ++ b ∷ []) ≡ map (λ a. a.stamp) attempts
  unfolding sent
  sent_session [] b rl info found full (same, after, soon, _) =
      let next = session_step rl info b found same after soon in
      ground (arith, next.0, eq_iff b.key key)
  sent_session (a ∷ rest) b rl info found full (same, after, soon, o) =
      let next = session_step rl info a found same after soon in
      let room : ltb_ℤ (pos info.count) (pos n) ≡ true = omega tests in
      let bumped : RateLimiterInfo = record { count = info.count + 1; last_sent_at = a.stamp } in
      rw (next.0, room, (eq_iff a.key key).1 same)
        (ap (◌∷◌ a.stamp) (sent_session rest b _ bumped (next.1 ∙ rw room) (omega arith) o))

-- A new limiter whose attempts for a key follow one another at most a period apart passes the first
-- `limit` of them and refuses the next one, however long those took.
pub sent_steady :
    (limit period : String → ℤ) (key : String) (n p : ℕ) (first : Attempt) (attempts : List Attempt)
    (next : Attempt)
    → limit key ≡ pos n
    → period key ≡ pos p
    → length (first ∷ attempts) ≡ n
    → first.key ≡ key
    → IsSteady key p first.stamp (attempts ++ next ∷ [])
    → sent limit period key new_in_memory_rate_limiter (first ∷ attempts ++ next ∷ [])
      ≡ map (λ a. a.stamp) (first ∷ attempts)
unfolding sent new_in_memory_rate_limiter lookup admit
sent_steady limit period key n p first attempts next limit_eq period_eq full same o =
    let kept =
      allow-admit new_in_memory_rate_limiter first.key (limit first.key) (period first.key)
        first.now first.stamp in
    rw (kept.0, (eq_iff first.key key).1 same)
      (ap (◌∷◌ first.stamp) (
        sent_session limit period key n p limit_eq period_eq attempts next _
          (record { count = 1; last_sent_at = first.stamp })
          (kept.1 key ∙ rw ((eq_iff first.key key).1 same)) (omega arith) o))
