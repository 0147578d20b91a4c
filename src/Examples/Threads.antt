-- ===== src/Examples/Threads.antt =====
-- The goroutines of a dispatch, at concrete data.
use smart_log.Base.{◌≤◌, ◌*◌, ◌⊎◌, List, [], ◌∷◌, length}
use smart_log.Base.Dict.{lookup}
use smart_log.Api.{Alert}
use smart_log.Http.{Request, is_settled, pause}
use smart_log.Senders.{webhook_request, webhook_body, get_secret_value}
use smart_log.Templates.{render_alert_template, render}
use smart_log.Dispatcher.{send_all}
use smart_log.Dispatcher.Threads.{
  Thread, trying, started, prepared, prepared_webhook, checked_request, opened, answered, settled,
  Run, next, others, rest, here, there, opens, tries,
}
use smart_log.Dispatcher.Threads.Runs.{Run-bounds}
use smart_log.Dispatcher.Threads.Waits.{AllFinished, CanStep, Run-CanStep}
use smart_log.Dispatcher.Threads.Sequential.{Reaches, send_all-Reaches}
use smart_log.Examples.Memory.{memory}
use smart_log.Examples.Following.{app}
use smart_log.Examples.Sending.{flaky, ai_http, tools, set_owner, values, ops, hooked}

abbrev hook_request : Request
hook_request = record {
  url = "http://hook";
  headers = ("Content-Type", "application/json") ∷ [];
  body = "{}";
}

abbrev pair : List Alert
pair = ops ∷ ops ∷ []

abbrev halfway : List Thread
halfway = trying hook_request 2 0 ∷ trying hook_request 1 1 ∷ []

-- The second goroutine goes first, and its first attempt fails.
interleaved : Run memory flaky tools app values 2 (started pair) 0 hooked halfway 0 hooked 3 1
unfolding prepared prepared_webhook checked_request opened answered settled webhook_request
    webhook_body get_secret_value render_alert_template render is_settled pause lookup
interleaved =
    next (there (here opens)) (next (here opens) (others hooked (next (there (here tries)) rest)))

Run-bounds_example : (3 ≤ 5 * length pair) × (1 ≤ 3 * length pair)
Run-bounds_example =
    Run-bounds memory flaky tools app values 2 pair hooked hooked halfway 0 3 1 interleaved

Run-CanStep_example :
    (AllFinished memory flaky tools app values 2 halfway
      ⊎ CanStep memory flaky tools app values 2 halfway 0 hooked)
    × (0 ≤ 2)
Run-CanStep_example =
    Run-CanStep memory flaky tools app values pair hooked hooked halfway 0 3 1 interleaved

send_all-Reaches_example :
    (ts : List Thread) × AllFinished memory flaky tools app values 2 ts
    × Reaches memory flaky tools app values 2
        (started pair)
        0
        hooked
        ts
        (send_all memory flaky ai_http tools set_owner app values pair hooked).0
        (send_all memory flaky ai_http tools set_owner app values pair hooked).1
send_all-Reaches_example =
    send_all-Reaches memory flaky tools app values ai_http set_owner pair hooked
