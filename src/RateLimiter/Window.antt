-- ===== src/RateLimiter/Window.antt =====
-- The rate limit as a promise: how many notifications pass in any window of the configured length.
use smart_log.Base.{ℕ, ◌+◌, ◌≤◌, ◌<◌, ◌≡◌, String, Bool, true, false, Option, none, some}
use smart_log.Base.{List, [], ◌∷◌, ◌&&◌, arith, ◌==◌, if◌then◌else◌, leb, Bool-cases}
use smart_log.Base.{inl, inr, eq_refl, eq_cases}
use smart_log.Base.Int.{ℤ, pos, ltb_ℤ, sub_ℕ}
use smart_log.Base.Dict.{lookup}
use smart_log.RateLimiter.{RateLimiterInfo, InMemoryRateLimiter, is_stale, allow}
use smart_log.RateLimiter.Cell.{admit, allow-admit}

-- A call of `Allow`, with its two readings of the clock.
pub record Attempt : Type 0 where
  pub key : String
  pub now : ℕ
  pub stamp : ℕ

-- The clock is monotonic.
abbrev pub InOrder : ℕ → List Attempt → Type 0
InOrder clock [] = Unit
InOrder clock (a ∷ rest) = (clock ≤ a.now) × (a.now ≤ a.stamp) × InOrder a.stamp rest

abbrev in_window : ℕ → ℕ → ℕ → ℕ
in_window t p s = if leb t s && leb s (t + p) then 1 else 0

-- How many of the instants lie in the window from `t` to `t + p`, both included.
unfoldable pub within : ℕ → ℕ → List ℕ → ℕ
within t p [] = 0
within t p (s ∷ stamps) = in_window t p s + within t p stamps

module _ (limit period : String → ℤ) where
  -- The instants of the attempts for `key` that pass, in a run from the limiter's state.
  unfoldable pub sent : String → InMemoryRateLimiter → List Attempt → List ℕ
  sent key rl [] = []
  sent key rl (a ∷ rest) =
      let (rl', passed) = allow rl a.key (limit a.key) (period a.key) a.now a.stamp in
      let later = sent key rl' rest in if a.key == key && passed then a.stamp ∷ later else later

-- What a cell knows of the windows over what has passed: `seen t` counts the window from `t`.
pub record Tracks (n p : ℕ) (seen : ℕ → ℕ) (info : RateLimiterInfo) : Type 0 where
  few : (t : ℕ) → seen t ≤ n
  recent : (t : ℕ) → info.last_sent_at ≤ t + p → seen t ≤ info.count
  past : (t : ℕ) → info.last_sent_at < t → seen t ≡ 0
  counted : info.count ≤ n

abbrev pub CellTracks : ℕ → ℕ → (ℕ → ℕ) → ℕ → Option RateLimiterInfo → Type 0
CellTracks n p seen clock none = (t : ℕ) → seen t ≡ 0
CellTracks n p seen clock (some info) = Tracks n p seen info × (info.last_sent_at ≤ clock)

-- The windows after a call that passes at `stamp`, or does not.
abbrev plus : ℕ → ℕ → (ℕ → ℕ) → ℕ → ℕ
plus p stamp seen t = in_window t p stamp + seen t

abbrev pub seen_after : ℕ → ℕ → (ℕ → ℕ) → Bool → ℕ → ℕ
seen_after p stamp seen true = plus p stamp seen
seen_after p stamp seen false = seen

-- One call keeps count.
module _ (n p now stamp : ℕ) (seen : ℕ → ℕ) (some_left : 0 < n) (o : now ≤ stamp) where
  open_session :
      (info : RateLimiterInfo)
      → Tracks n p seen info
      → info.last_sent_at + p < now
      → Tracks n p (plus p stamp seen) (record { count = 1; last_sent_at = stamp })
  open_session info h gap = record {
    few = λ t. ground (arith, h.few t, h.past t);
    recent = λ t q. ground (arith, h.past t);
    past = λ t q. ground (arith, h.past t);
    counted = omega arith;
  }

  extend_session :
      (info : RateLimiterInfo)
      → Tracks n p seen info
      → info.last_sent_at ≤ now
      → info.count < n
      → Tracks n p (plus p stamp seen) (record { count = info.count + 1; last_sent_at = stamp })
  extend_session info h c room = record {
    few = λ t. ground (arith, h.few t, h.recent t);
    recent = λ t q. ground (arith, h.recent t);
    past = λ t q. ground (arith, h.past t);
    counted = omega arith;
  }

  admit-CellTracks :
      (clock : ℕ) (cell : Option RateLimiterInfo)
      → clock ≤ now
      → CellTracks n p seen clock cell
      → CellTracks n p
          (seen_after p stamp seen (admit cell (pos n) (pos p) now stamp).1)
          stamp
          (admit cell (pos n) (pos p) now stamp).0
  unfolding admit is_stale
  admit-CellTracks clock none o₁ h = (
    record {
      few = λ t. ground (arith, h t);
      recent = λ t q. ground (arith, h t);
      past = λ t q. ground (arith, h t);
      counted = omega arith;
    },
    omega arith,
  )
  admit-CellTracks clock (some info) o₁ (h, c) =
      elim (Bool-cases (ltb_ℤ (pos p) (sub_ℕ now info.last_sent_at))) [
        | inl e ↦ rw e (open_session info h (ground arith), omega arith)
        | inr e ↦ rw e (elim (Bool-cases (ltb_ℤ (pos info.count) (pos n))) [
          | inl r ↦ rw r (extend_session info h (omega arith) (ground arith), omega arith)
          | inr r ↦ rw r (h, omega arith)
        ])
      ]

pub CellTracks-mono :
    (n p : ℕ) (seen : ℕ → ℕ) (clock clock' : ℕ) (cell : Option RateLimiterInfo)
    → clock ≤ clock'
    → CellTracks n p seen clock cell
    → CellTracks n p seen clock' cell
CellTracks-mono n p seen clock clock' none o h = h
CellTracks-mono n p seen clock clock' (some info) o (h, c) = (h, omega arith)

-- A call for any key, as the cell of `key` sees it.
pub allow-CellTracks :
    (key k : String) (n p now stamp clock : ℕ) (seen : ℕ → ℕ) (limit period : ℤ)
    (rl : InMemoryRateLimiter)
    → (k ≡ key → (limit ≡ pos n) × (period ≡ pos p))
    → 0 < n
    → clock ≤ now
    → now ≤ stamp
    → CellTracks n p seen clock (lookup key rl.infos)
    → CellTracks n p
        (seen_after p stamp seen (k == key && (allow rl k limit period now stamp).1))
        stamp
        (lookup key (allow rl k limit period now stamp).0.infos)
allow-CellTracks key k n p now stamp clock seen limit period rl same some_left o₁ o₂ h =
    let kept = allow-admit rl k limit period now stamp in
    elim (eq_cases k key) [
      | inl e ↦
          let (limit_eq, period_eq) = same e in
          rw (kept.0, kept.1 key, e, eq_refl, limit_eq, period_eq)
            (admit-CellTracks n p now stamp seen some_left o₂ clock (lookup key rl.infos) o₁ h)
      | inr e ↦
          rw (e, kept.1 key, e)
            (CellTracks-mono n p seen clock stamp (lookup key rl.infos) (omega arith) h)
    ]

pub CellTracks-few :
    (n p clock : ℕ) (seen : ℕ → ℕ) (cell : Option RateLimiterInfo) (t : ℕ)
    → CellTracks n p seen clock cell
    → seen t ≤ n
CellTracks-few n p clock seen none t h = omega (arith, h t)
CellTracks-few n p clock seen (some info) t (h, c) = h.few t

pub within_branch :
    (p n stamp t : ℕ) (seen : ℕ → ℕ) (later : List ℕ) (passed : Bool)
    → within t p later + seen_after p stamp seen passed t ≤ n
    → within t p (if passed then stamp ∷ later else later) + seen t ≤ n
unfolding within
within_branch p n stamp t seen later true h = omega arith
within_branch p n stamp t seen later false h = h

module _ (limit period : String → ℤ) (key : String) (n p : ℕ) (limit_eq : limit key ≡ pos n)
    (period_eq : period key ≡ pos p) (some_left : 0 < n) where
  policy_at : (k : String) → k ≡ key → (limit k ≡ pos n) × (period k ≡ pos p)
  policy_at k e = (rw e limit_eq, rw e period_eq)

  within-sent_onto :
      (attempts : List Attempt) (rl : InMemoryRateLimiter) (clock : ℕ) (seen : ℕ → ℕ)
      → CellTracks n p seen clock (lookup key rl.infos)
      → InOrder clock attempts
      → (t : ℕ) → within t p (sent limit period key rl attempts) + seen t ≤ n
  unfolding sent within
  within-sent_onto [] rl clock seen h o t =
      omega (arith, CellTracks-few n p clock seen (lookup key rl.infos) t h)
  within-sent_onto (a ∷ rest) rl clock seen h (o₁, o₂, o) t =
      within_branch p n a.stamp t seen _ (a.key == key && _) (
        within-sent_onto rest _ a.stamp _
          (allow-CellTracks key a.key n p a.now a.stamp clock seen (limit a.key) (period a.key) rl
            (policy_at a.key) some_left o₁ o₂ h)
          o t)
