-- ===== src/Examples/Limits.antt =====
-- The rate limiter and the names, at concrete data.
use smart_log.Base.{ℕ, String, ◌≡◌, ◌≤◌, refl, zero, suc, false, List, [], ◌∷◌, ◌++◌, true, arith}
use smart_log.Base.{length}
use smart_log.Base.Int.{ℤ, pos, negsuc}
use smart_log.Base.Dict.{lookup, insert, erase}
use smart_log.RateLimiter.{new_in_memory_rate_limiter, allow}
use smart_log.RateLimiter.Window.{Attempt, sent}
use smart_log.RateLimiter.Bounded.{AllowCall, CountAtMost, after, counts_bounded}
use smart_log.RateLimiter.Session.{sent_steady}
use smart_log.Names.{sanitize_for_kubernetes, dash, max_length, is_allowed}
use smart_log.Names.Sanitized.{sanitize_bounds, AllAllowed, starts_with_dash, ends_with_dash}
use smart_log.Names.Long.{sanitize_dash_end}

abbrev key : String
key = "default/app/oom"

-- Two per minute, in seconds.
abbrev limit : String → ℤ
limit _ = pos 2

abbrev period : String → ℤ
period _ = pos 60

abbrev at : ℕ → Attempt
at t = record { key = key; now = t; stamp = t }

abbrev other_at : ℕ → Attempt
other_at t = record { key = "default/app/panic"; now = t; stamp = t }

abbrev burst : List Attempt
burst = at 0 ∷ other_at 5 ∷ at 10 ∷ at 20 ∷ at 50 ∷ at 90 ∷ []

burst-sent : sent limit period key new_in_memory_rate_limiter burst ≡ 0 ∷ 10 ∷ 90 ∷ []
unfolding sent allow new_in_memory_rate_limiter lookup insert erase
burst-sent = refl

abbrev called : ℤ → ℤ → ℕ → AllowCall
called limit period t = record { key = key; limit = limit; period = period; now = t; stamp = t }

-- Two calls of a rule that lets two pass, one after its limit was lowered, and one with a negative
-- limit after the period has ended.
abbrev calls : List AllowCall
calls =
    called (pos 2) (pos 60) 0
    ∷ called (pos 2) (pos 60) 10
    ∷ called (pos 1) (pos 60) 20
    ∷ called (negsuc 0) (pos 60) 90
    ∷ []

counts_bounded_example : CountAtMost 2 (lookup key (after calls new_in_memory_rate_limiter).infos)
counts_bounded_example =
    counts_bounded 2 calls key (omega arith)
      (omega arith, (omega arith, (omega arith, (omega arith, tt))))

-- The attempt at 100 fails, though only the one at 50 passed in the minute before it.
sent_steady_example :
    sent limit period key new_in_memory_rate_limiter (at 0 ∷ at 50 ∷ at 100 ∷ []) ≡ 0 ∷ 50 ∷ []
sent_steady_example =
    sent_steady limit period key 2 60 (at 0) (at 50 ∷ []) (at 100) refl refl (omega arith) refl
      (refl, omega arith, omega arith, (refl, omega arith, omega arith, tt))

-- `unicode.ToLower`, on what the examples hold.
abbrev same : ℕ → ℕ
same c = c

abbrev oom_name : List ℕ
oom_name = b'-' ∷ b'O' ∷ b'O' ∷ b'M' ∷ b' ' ∷ b'_' ∷ 0x6740 ∷ b'!' ∷ []

oom_sanitized : sanitize_for_kubernetes same oom_name ≡ b'o' ∷ b'o' ∷ b'm' ∷ []
unfolding sanitize_for_kubernetes
oom_sanitized = refl

sanitize_bounds_example :
    let s = sanitize_for_kubernetes same oom_name in
    AllAllowed s × (length s ≤ max_length) × (starts_with_dash s ≡ false)
sanitize_bounds_example = sanitize_bounds same oom_name

-- 62 letters.
abbrev letters : ℕ → List ℕ
letters zero = []
letters (suc n) = b'a' ∷ letters n

letters-AllAllowed : (n : ℕ) (rest : List ℕ) → AllAllowed rest → AllAllowed (letters n ++ rest)
unfolding is_allowed
letters-AllAllowed zero rest h = h
letters-AllAllowed (suc n) rest h = (refl, letters-AllAllowed n rest h)

allowed_end : AllAllowed (dash ∷ b'z' ∷ [])
unfolding is_allowed
allowed_end = (refl, (refl, tt))

sanitize_dash_end_example :
    ends_with_dash (sanitize_for_kubernetes same (letters 62 ++ dash ∷ b'z' ∷ [])) ≡ true
sanitize_dash_end_example =
    sanitize_dash_end same (letters 62) b'z' []
      (letters-AllAllowed 62 (dash ∷ b'z' ∷ []) allowed_end) refl refl refl
