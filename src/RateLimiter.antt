-- ===== src/RateLimiter.antt =====
-- internal/controller/monitorpod_controller.go: `InMemoryRateLimiter` and its method `Allow`.
-- Instants are nanoseconds of the monotonic clock; durations and limits are signed. The mutex makes
-- each call of `Allow` one step. Its two readings of the clock are the arguments `now` (for
-- `time.Since`) and `stamp` (for the new `LastSentAt`).
pub mod Cell
pub mod Window
pub mod Session
pub mod Bounded
use smart_log.Base.{ℕ, ◌+◌, String, Bool, true, false, Option, none, some, [], if◌then◌else◌}
use smart_log.Base.Int.{ℤ, pos, sub_ℕ, ltb_ℤ}
use smart_log.Base.Dict
use smart_log.Base.Dict.{Dict}

pub record RateLimiterInfo : Type 0 where
  pub count : ℕ
  pub last_sent_at : ℕ

-- The field `data` of the struct.
pub record InMemoryRateLimiter : Type 0 where
  pub infos : Dict RateLimiterInfo

unfoldable pub new_in_memory_rate_limiter : InMemoryRateLimiter
new_in_memory_rate_limiter = record { infos = [] }

-- `exists && time.Since(info.LastSentAt) > period`
unfoldable pub is_stale : Option RateLimiterInfo → ℤ → ℕ → Bool
is_stale none period now = false
is_stale (some info) period now = ltb_ℤ period (sub_ℕ now info.last_sent_at)

-- The body of `Allow`, with the entry that `rl.data[key]` gave.
unfoldable pub allow_found :
    Dict RateLimiterInfo
    → Option RateLimiterInfo
    → String
    → ℤ
    → ℤ
    → ℕ
    → ℕ
    → Dict RateLimiterInfo × Bool
unfolding is_stale
allow_found infos found key limit period now stamp =
    let stale = is_stale found period now in
    let kept = if stale then Dict.erase key infos else infos in
    elim (if stale then none else found) [
      | none ↦ (Dict.insert key (record { count = 1; last_sent_at = stamp }) kept, true)
      | some info ↦
          if ltb_ℤ (pos info.count) limit
          then (
            Dict.insert key (record { count = info.count + 1; last_sent_at = stamp }) kept,
            true,
          )
          else (kept, false)
    ]

unfoldable pub allow : InMemoryRateLimiter → String → ℤ → ℤ → ℕ → ℕ → InMemoryRateLimiter × Bool
unfolding allow_found
allow rl key limit period now stamp =
    let (infos, answer) =
      allow_found rl.infos (Dict.lookup key rl.infos) key limit period now stamp in
    (record { infos = infos }, answer)
