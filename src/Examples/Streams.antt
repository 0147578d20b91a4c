-- ===== src/Examples/Streams.antt =====
-- The log stream and the response path at concrete data.
use smart_log.Base.{
  String, ◌==◌, ◌≡◌, refl, Bool, false, if◌then◌else◌, ◌||◌, Option, none, some, List, [], ◌∷◌, All,
}
use smart_log.Errors.{ok}
use smart_log.Api.{LogRule}
use smart_log.Stream.{Turn, done, flush, line, StreamState, stream_loop}
use smart_log.Stream.Events.{
  ends, lines_read, split, concat, dispatches, dispatches_by_line, streamed_events,
  stream_pod_logs-by_line,
}
use smart_log.Stream.{Dispatch, stream_pod_logs}
use smart_log.Stream.Justified.{Justified, stream_pod_logs-Justified}
use smart_log.Api.{MonitorPod, running}
use smart_log.Examples.Following.{app, web}

-- Patterns that match the text they are.
abbrev pub compile : String → Option (String → Bool)
compile pattern = some (λ t. t == pattern)

abbrev rules : List LogRule
rules =
    record { name = "trace"; regex = "panic\n at main"; exclude_regex = "" }
    ∷ record { name = "oom"; regex = "oom"; exclude_regex = "oom" }
    ∷ []

abbrev starts : String → Bool
starts t = t == "panic" || t == "oom"

abbrev turns : List Turn
turns = line "panic" ∷ line " at main" ∷ line "oom" ∷ flush ∷ line "panic" ∷ done ∷ []

abbrev start : StreamState
start = record { buffer = ""; dispatched = [] }

turns-events :
    split starts [] turns
    ≡ [] ∷ ("panic" ∷ " at main" ∷ []) ∷ ("oom" ∷ []) ∷ [] ∷ ("panic" ∷ []) ∷ []
unfolding split
turns-events = refl

streamed_events_example :
    ((stream_loop compile rules (some starts) turns start).dispatched
      ≡ dispatches compile rules (split starts [] turns))
    × (concat (split starts [] turns) ≡ lines_read turns)
unfolding ends
streamed_events_example = streamed_events compile rules starts turns refl

abbrev watched : MonitorPod
watched = record app {
  spec = record app.spec {
    rules = rules;
    multiline = some (record { pattern = "panic"; negate = false });
  };
}

-- No pattern compiles but those of the rules.
abbrev rules_only : String → Option (String → Bool)
rules_only pattern = if pattern == "panic" then none else some (λ t. t == pattern)

stream_pod_logs-by_line_example :
    stream_pod_logs rules_only watched (web "web-0" running) (ok turns)
    ≡ some ("main", dispatches_by_line rules_only rules (lines_read turns))
stream_pod_logs-by_line_example =
    stream_pod_logs-by_line rules_only watched (web "web-0" running) turns "main" [] refl refl

stream_pod_logs-Justified_example :
    (sent_off : List Dispatch) × (stream_pod_logs compile watched (web "web-0" running) (ok turns)
      ≡ some ("main", sent_off))
    × All (Justified compile rules) sent_off
stream_pod_logs-Justified_example =
    stream_pod_logs-Justified compile watched (web "web-0" running) (ok turns) "main" [] refl
