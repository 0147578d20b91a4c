-- ===== src/Stream.antt =====
-- internal/controller/monitorpod_controller.go: `streamPodLogs`, the reader of one pod's log.
-- A run is a list of turns of the `select` loop: what the scheduler and the log stream made of each.
-- `compile` is `regexp.Compile`, which gives the matcher of a pattern or an error.
pub mod Events
pub mod Rules
pub mod Justified
use smart_log.Base.{
  String, ◌<>◌, ◌==◌, Bool, true, false, not, Option, none, some, List, [], ◌∷◌, ◌++◌,
}
use smart_log.Base.{if◌then◌else◌}
use smart_log.Errors.{Result, ok, err}
use smart_log.Api.{MonitorPod, MultilineSpec, LogRule, Pod}

-- The context is done, the flush timer has fired, the scanner gave a line, or it gave no more.
pub data Turn : Type 0 where
  done flush stop : Turn
  line : String → Turn

-- An alert that is sent off by `go m.dispatchAlert(ctx, mp, pod, fullLogEvent, rule, containerName)`.
pub record Dispatch : Type 0 where
  pub event : String
  pub rule : LogRule

pub record StreamState : Type 0 where
  pub buffer : String
  pub dispatched : List Dispatch

-- `if buffer.Len() > 0 { buffer.WriteString("\n") }; buffer.WriteString(line)`
unfoldable pub write_line : String → String → String
write_line buffer text = if buffer == "" then text else buffer <> ("\n" <> text)

module _ (compile : String → Option (String → Bool)) where
  -- `regexp.MatchString` with its error ignored.
  unfoldable pub match_string : String → String → Bool
  match_string pattern text = elim (compile pattern) [ none ↦ false | some matcher ↦ matcher text ]

  -- The loop over the rules, which stops at the first match.
  unfoldable pub match_rules : List LogRule → String → List Dispatch
  unfolding match_string
  match_rules [] event = []
  match_rules (rule ∷ rules) event =
      let rest = match_rules rules event in
      if match_string rule.regex event then record { event = event; rule = rule } ∷ [] else rest

  -- The test of a line for the start of an event, or `none` in single-line mode.
  unfoldable pub new_event_test : Option MultilineSpec → Option (String → Bool)
  new_event_test none = none
  new_event_test (some multiline) = elim (compile multiline.pattern) [
    | none ↦ none
    | some matcher ↦ some (λ text. if multiline.negate then not (matcher text) else matcher text)
  ]

  module _ (rules : List LogRule) where
    unfoldable pub process_buffer : StreamState → StreamState
    unfolding match_rules
    process_buffer s =
        if s.buffer == ""
        then s
        else record { buffer = ""; dispatched = s.dispatched ++ match_rules rules s.buffer }

    unfoldable pub on_line : Option (String → Bool) → String → StreamState → StreamState
    unfolding process_buffer write_line
    on_line none text s = process_buffer (record s { buffer = s.buffer <> text })
    on_line (some is_new_event) text s =
        let t = if is_new_event text then process_buffer s else s in
        record t { buffer = write_line t.buffer text }

    -- The loop, up to its return or to the end of the turns so far.
    unfoldable pub stream_loop : Option (String → Bool) → List Turn → StreamState → StreamState
    unfolding on_line
    stream_loop test [] s = s
    stream_loop test (done ∷ turns) s = process_buffer s
    stream_loop test (stop ∷ turns) s = process_buffer s
    stream_loop test (flush ∷ turns) s = stream_loop test turns (process_buffer s)
    stream_loop test (line text ∷ turns) s = stream_loop test turns (on_line test text s)

  -- The container whose log is read and the alerts that the run sends off. `none` is the panic of
  -- `pod.Spec.Containers[0]` on a pod without containers. The stream fails to open, or gives turns.
  unfoldable pub stream_pod_logs :
      MonitorPod → Pod → Result (List Turn) → Option (String × List Dispatch)
  unfolding new_event_test stream_loop
  stream_pod_logs mp pod stream = elim pod.containers [
    | [] ↦ none
    | container ∷ _ ↦ elim stream [
      | err e ↦ some (container, [])
      | ok turns ↦
          let start : StreamState = record { buffer = ""; dispatched = [] } in
          let s = stream_loop mp.spec.rules (new_event_test mp.spec.multiline) turns start in
          some (container, s.dispatched)
    ]
  ]
