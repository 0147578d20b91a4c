-- ===== src/Examples/Rates.antt =====
-- The rate limit of the dispatcher, at concrete data.
use smart_log.Base.{ℕ, ◌≤◌, refl, List, [], ◌∷◌, arith}
use smart_log.Base.Int.{pos}
use smart_log.Base.{◌≡◌, some, eq_iff}
use smart_log.Base.Dict.{lookup}
use smart_log.Api.{LogRule, running}
use smart_log.RateLimiter.{new_in_memory_rate_limiter}
use smart_log.RateLimiter.Window.{within}
use smart_log.Dispatcher.{rate_limit_key, limit_period, check_rate}
use smart_log.Dispatcher.Keys.{Named, split_key, split_key-rate_limit_key, check_rate-Apart}
use smart_log.Dispatcher.Limited.{Call, let_through}
use smart_log.Dispatcher.PerRule.{rule-within-limit}
use smart_log.Examples.Memory.{memory}
use smart_log.Examples.Following.{web}
use smart_log.Examples.Sending.{flaky, ai_http, tools, set_owner, oom, hooked, limited}

-- Three lines of two pods: the limiter lets the first and the last through.
abbrev call_at : ℕ → Call memory flaky ai_http tools set_owner
call_at now = record {
  mp = limited;
  pod = web "web-0" running;
  rule = oom;
  container = "main";
  line = "oom";
  state = record hooked { time = now };
}

abbrev calls : List (Call memory flaky ai_http tools set_owner)
calls = call_at 0 ∷ call_at 7 ∷ call_at 400000000000 ∷ []

-- A rule's name may hold a slash.
abbrev slashed : LogRule
slashed = record { name = "a/b"; regex = "a"; exclude_regex = "" }

abbrev pub limited_Named : Named limited
limited_Named =
    ((refl, (refl, (refl, (refl, (refl, (refl, (refl, tt))))))), (refl, (refl, (refl, tt))))

split_key-rate_limit_key_example :
    split_key (rate_limit_key limited slashed) ≡ some ("default", "app", "a/b")
split_key-rate_limit_key_example = split_key-rate_limit_key limited slashed limited_Named

check_rate-Apart_example :
    lookup
      (rate_limit_key limited oom)
      (check_rate tools limited slashed 3 new_in_memory_rate_limiter).0.infos
    ≡ lookup (rate_limit_key limited oom) new_in_memory_rate_limiter.infos
check_rate-Apart_example =
    check_rate-Apart tools limited slashed limited oom 3 new_in_memory_rate_limiter limited_Named
      limited_Named
      (λ (namespace_eq, name_eq, rule_eq). absurd (ground (arith, (eq_iff "a/b" "oom").1 rule_eq)))

rule-within-limit_example :
    within 5 300000000000 (
      let_through memory flaky ai_http tools set_owner
        (rate_limit_key limited oom)
        new_in_memory_rate_limiter
        calls)
    ≤ 1
unfolding limit_period
rule-within-limit_example =
    rule-within-limit memory flaky ai_http tools set_owner limited oom
      (record { period = "1m"; limit = pos 1 }) 1 300000000000 calls 5 limited_Named refl refl refl
      (omega arith)
      (
        (limited_Named, λ _ _. refl),
        ((limited_Named, λ _ _. refl), ((limited_Named, λ _ _. refl), tt)),
      )
      (omega arith, (omega arith, (omega arith, tt)))
