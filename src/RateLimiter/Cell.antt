-- ===== src/RateLimiter/Cell.antt =====
-- `Allow` seen through one key: a cell that is empty or holds a count and an instant.
use smart_log.Base.{ℕ, ◌+◌, ◌≡◌, refl, String, Bool, true, false, Option, none, some, arith}
use smart_log.Base.{◌==◌, eq_iff, if◌then◌else◌}
use smart_log.Base.Int.{ℤ, pos, ltb_ℤ}
use smart_log.Base.Dict.{Dict, lookup, erase, lookup-insert, lookup-erase}
use smart_log.RateLimiter.{RateLimiterInfo, InMemoryRateLimiter, is_stale, allow_found, allow}

-- The cell after a call and the answer, from the cell before it.
unfoldable pub admit : Option RateLimiterInfo → ℤ → ℤ → ℕ → ℕ → Option RateLimiterInfo × Bool
unfolding is_stale
admit none limit period now stamp = (some (record { count = 1; last_sent_at = stamp }), true)
admit (some info) limit period now stamp =
    if is_stale (some info) period now
    then (some (record { count = 1; last_sent_at = stamp }), true)
    else if ltb_ℤ (pos info.count) limit
    then (some (record { count = info.count + 1; last_sent_at = stamp }), true)
    else (some info, false)

module _ (infos : Dict RateLimiterInfo) (key : String) (limit period : ℤ) (now stamp : ℕ) where
  allow_found-admit :
      (cell : Option RateLimiterInfo)
      → lookup key infos ≡ cell
      → ((allow_found infos cell key limit period now stamp).1
          ≡ (admit cell limit period now stamp).1)
        × ((j : String)
            → lookup j (allow_found infos cell key limit period now stamp).0
              ≡ (if key == j then (admit cell limit period now stamp).0 else lookup j infos))
  unfolding allow_found admit
  allow_found-admit none e = (refl, λ j. lookup-insert j key _ infos)
  allow_found-admit (some info) e = (
    ground arith,
    λ j. ground (
      arith,
      eq_iff key j,
      lookup-insert j key (record { count = 1; last_sent_at = stamp }) (erase key infos),
      lookup-insert j key (record { count = info.count + 1; last_sent_at = stamp }) infos,
      lookup-erase j key infos,
    ),
  )

-- `Allow` answers as the cell of its key does, stores the cell's new entry under the key, and leaves
-- the entry of every other key as it was.
pub allow-admit :
    (rl : InMemoryRateLimiter) (key : String) (limit period : ℤ) (now stamp : ℕ)
    → ((allow rl key limit period now stamp).1
        ≡ (admit (lookup key rl.infos) limit period now stamp).1)
      × ((j : String)
          → lookup j (allow rl key limit period now stamp).0.infos ≡ (
              if key == j
              then (admit (lookup key rl.infos) limit period now stamp).0
              else lookup j rl.infos))
unfolding allow
allow-admit rl key limit period now stamp =
    allow_found-admit rl.infos key limit period now stamp (lookup key rl.infos) refl
