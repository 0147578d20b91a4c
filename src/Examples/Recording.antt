-- ===== src/Examples/Recording.antt =====
-- An event that the limiter lets through to a channel, at concrete data.
use smart_log.Base.{◌≡◌, some}
use smart_log.Base.{◌↔◌, refl, true}
use smart_log.Base.Int.{pos}
use smart_log.Cleaner.{is_expired}
use smart_log.Cleaner.Created.{Due, is_expired-Due}
use smart_log.Templates.{Tools}
use smart_log.Api.{AlertRecord, running}
use smart_log.Base.Dict.{lookup}
use smart_log.RateLimiter.{allow, new_in_memory_rate_limiter}
use smart_log.Dispatcher.{check_rate, new_alert_record}
use smart_log.Examples.Following.{app, web}
use smart_log.Examples.Sending.{tools, oom, limited}

-- The limiter lets the alert through.
limited_passes : (check_rate tools limited oom 0 new_in_memory_rate_limiter).1 ≡ true
unfolding check_rate allow lookup new_in_memory_rate_limiter
limited_passes = refl

-- Every text is a duration of ten.
abbrev timed_tools : Tools
timed_tools = record tools { parse_duration = λ t. some (pos 10) }

abbrev stored : AlertRecord
stored = record (new_alert_record timed_tools app (web "web-0" running) oom "main" "oom" 3) {
  creation_timestamp = 5;
}

is_expired-Due_example :
    (is_expired timed_tools.parse_duration 20 stored ≡ true)
    ↔ Due timed_tools app (web "web-0" running) oom "main" "oom" 3 5 20
is_expired-Due_example =
    is_expired-Due timed_tools app (web "web-0" running) oom "main" "oom" 3 stored 20 refl
