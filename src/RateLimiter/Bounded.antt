-- ===== src/RateLimiter/Bounded.antt =====
-- The counts of the limiter stay small: the `int` behind them never wraps around.
use smart_log.Base.{
  ℕ, suc, ◌≤◌, ◌<◌, sym, subst, String, Bool-cases, Option, none, some, List, [], ◌∷◌, ◌==◌, All,
  arith, inl, inr,
}
use smart_log.Base.Int.{ℤ, pos, ltb_ℤ, ◌<ℤ◌, sub_ℕ}
use smart_log.Base.Dict.{lookup}
use smart_log.RateLimiter.{
  RateLimiterInfo, InMemoryRateLimiter, new_in_memory_rate_limiter, is_stale, allow,
}
use smart_log.RateLimiter.Cell.{admit, allow-admit}

-- A call of `Allow`, with any arguments.
pub record AllowCall : Type 0 where
  pub key : String
  pub limit : ℤ
  pub period : ℤ
  pub now : ℕ
  pub stamp : ℕ

unfoldable pub after : List AllowCall → InMemoryRateLimiter → InMemoryRateLimiter
after [] rl = rl
after (c ∷ calls) rl = after calls (allow rl c.key c.limit c.period c.now c.stamp).0

abbrev pub CountAtMost : ℕ → Option RateLimiterInfo → Type 0
CountAtMost n none = Unit
CountAtMost n (some info) = info.count ≤ n

admit-CountAtMost :
    (n : ℕ) (cell : Option RateLimiterInfo) (limit period : ℤ) (now stamp : ℕ)
    → 0 < n
    → limit <ℤ pos (suc n)
    → CountAtMost n cell
    → CountAtMost n (admit cell limit period now stamp).0
unfolding admit is_stale
admit-CountAtMost n none limit period now stamp some_left small h = omega arith
admit-CountAtMost n (some info) limit period now stamp some_left small h =
    elim (Bool-cases (ltb_ℤ period (sub_ℕ now info.last_sent_at))) [
      | inl e ↦ rw e (omega arith)
      | inr e ↦ rw e (elim (Bool-cases (ltb_ℤ (pos info.count) limit)) [
        | inl r ↦ rw r (ground (arith, small))
        | inr r ↦ rw r h
      ])
    ]

allow-CountAtMost :
    (n : ℕ) (rl : InMemoryRateLimiter) (c : AllowCall)
    → 0 < n
    → c.limit <ℤ pos (suc n)
    → ((key : String) → CountAtMost n (lookup key rl.infos))
    → (key : String)
    → CountAtMost n (lookup key (allow rl c.key c.limit c.period c.now c.stamp).0.infos)
allow-CountAtMost n rl c some_left small h key =
    let kept = (allow-admit rl c.key c.limit c.period c.now c.stamp).1 key in
    subst (CountAtMost n) (sym kept) (elim (Bool-cases (c.key == key)) [
      | inl e ↦ rw e (
          admit-CountAtMost n (lookup c.key rl.infos) c.limit c.period c.now c.stamp some_left small
            (h c.key))
      | inr e ↦ rw e (h key)
    ])

after-CountAtMost :
    (n : ℕ) (calls : List AllowCall) (rl : InMemoryRateLimiter)
    → 0 < n
    → All (λ c. c.limit <ℤ pos (suc n)) calls
    → ((key : String) → CountAtMost n (lookup key rl.infos))
    → (key : String) → CountAtMost n (lookup key (after calls rl).infos)
unfolding after
after-CountAtMost n [] rl some_left small h = h
after-CountAtMost n (c ∷ calls) rl some_left (here, small) h =
    after-CountAtMost n calls _ some_left small (allow-CountAtMost n rl c some_left here h)

-- Whatever calls of `Allow` come, with whatever limits, periods and clock readings, no count in the
-- map exceeds the greatest of the limits, or one if they are all smaller; so a count that a limit of
-- the same width bounds never wraps around.
pub counts_bounded :
    (n : ℕ) (calls : List AllowCall) (key : String)
    → 0 < n
    → All (λ c. c.limit <ℤ pos (suc n)) calls
    → CountAtMost n (lookup key (after calls new_in_memory_rate_limiter).infos)
unfolding new_in_memory_rate_limiter lookup
counts_bounded n calls key some_left small =
    after-CountAtMost n calls new_in_memory_rate_limiter some_left small (λ _. tt) key
