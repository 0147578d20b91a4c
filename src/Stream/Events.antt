-- ===== src/Stream/Events.antt =====
-- How the lines of a log become events: every line read goes into exactly one, in order.
use Prim.Native.String.append
use smart_log.Base.{String, ◌==◌, ◌≡◌, refl, ap, ◌∙◌, Bool, true, false, Option, none, some}
use smart_log.Base.{
  List, [], ◌∷◌, ◌++◌, append-nil, append_assoc, if◌then◌else◌, Bool-cases, inl, inr,
}
use smart_log.Base.{eq_iff}
use smart_log.Errors.{ok}
use smart_log.Api.{LogRule, MonitorPod, MultilineSpec, Pod}
use smart_log.Stream.{Turn, done, flush, stop, line, Dispatch, match_rules}
use smart_log.Stream.{
  process_buffer, write_line, on_line, stream_loop, new_event_test, stream_pod_logs,
}

-- The lines that are read before the loop returns.
unfoldable pub lines_read : List Turn → List String
lines_read [] = []
lines_read (done ∷ turns) = []
lines_read (stop ∷ turns) = []
lines_read (flush ∷ turns) = lines_read turns
lines_read (line text ∷ turns) = text ∷ lines_read turns

-- The loop returns within the turns.
unfoldable pub ends : List Turn → Bool
ends [] = false
ends (done ∷ turns) = true
ends (stop ∷ turns) = true
ends (flush ∷ turns) = ends turns
ends (line text ∷ turns) = ends turns

-- The groups of lines: a line that starts an event, and a flush, close the group before it.
unfoldable pub split : (String → Bool) → List String → List Turn → List (List String)
split starts group [] = group ∷ []
split starts group (done ∷ turns) = group ∷ []
split starts group (stop ∷ turns) = group ∷ []
split starts group (flush ∷ turns) = group ∷ split starts [] turns
split starts group (line text ∷ turns) =
    let closed = group ∷ split starts (text ∷ []) turns in
    let open_still = split starts (group ++ text ∷ []) turns in
    if starts text then closed else open_still

unfoldable pub concat : List (List String) → List String
concat [] = []
concat (group ∷ groups) = group ++ concat groups

concat-split_onto :
    (starts : String → Bool) (group : List String) (turns : List Turn)
    → concat (split starts group turns) ≡ group ++ lines_read turns
unfolding split concat lines_read
concat-split_onto starts group [] = refl
concat-split_onto starts group (done ∷ turns) = refl
concat-split_onto starts group (stop ∷ turns) = refl
concat-split_onto starts group (flush ∷ turns) = rw (concat-split_onto starts [] turns)
concat-split_onto starts group (line text ∷ turns) = elim (Bool-cases (starts text)) [
  | inl e ↦ rw (e, concat-split_onto starts (text ∷ []) turns)
  | inr e ↦ rw (e, concat-split_onto starts (group ++ text ∷ []) turns) (append_assoc group _ _)
]

-- The text of a group, as the buffer collects it.
unfoldable pub joined : String → List String → String
joined buffer [] = buffer
joined buffer (text ∷ group) = joined (write_line buffer text) group

joined-snoc :
    (buffer text : String) (group : List String)
    → joined buffer (group ++ text ∷ []) ≡ write_line (joined buffer group) text
unfolding joined
joined-snoc buffer text [] = refl
joined-snoc buffer text (l ∷ group) = joined-snoc (write_line buffer l) text group

module _ (compile : String → Option (String → Bool)) (rules : List LogRule) where
  -- What the rules make of a text; the empty text is no event.
  pub dispatch_event : String → List Dispatch
  dispatch_event event = if event == "" then [] else match_rules compile rules event

  unfoldable pub dispatches : List (List String) → List Dispatch
  dispatches [] = []
  dispatches (group ∷ groups) = dispatch_event (joined "" group) ++ dispatches groups

  -- The state after the buffer is processed.
  flushed :
      (buffer : String) (sent : List Dispatch)
      → process_buffer compile rules (record { buffer = buffer; dispatched = sent })
        ≡ record { buffer = ""; dispatched = sent ++ dispatch_event buffer }
  unfolding process_buffer dispatch_event
  flushed buffer sent = elim (Bool-cases (buffer == "")) [
    | inl e ↦ rw (e, append-nil, (eq_iff buffer "").0 e) refl
    | inr e ↦ rw e refl
  ]

  on_line-new :
      (starts : String → Bool) (text buffer : String) (sent : List Dispatch)
      → starts text ≡ true
      → on_line compile rules (some starts) text (record { buffer = buffer; dispatched = sent })
        ≡ record { buffer = text; dispatched = sent ++ dispatch_event buffer }
  unfolding on_line
  on_line-new starts text buffer sent h = rw (h, flushed buffer sent) refl

  on_line-more :
      (starts : String → Bool) (text buffer : String) (sent : List Dispatch)
      → starts text ≡ false
      → on_line compile rules (some starts) text (record { buffer = buffer; dispatched = sent })
        ≡ record { buffer = write_line buffer text; dispatched = sent }
  unfolding on_line
  on_line-more starts text buffer sent h = rw h refl

  -- The loop sends what the rules make of the groups, after what was sent before.
  streamed_onto :
      (starts : String → Bool) (group : List String) (turns : List Turn) (sent : List Dispatch)
      → ends turns ≡ true
      → (stream_loop compile rules
          (some starts)
          turns
          (record { buffer = joined "" group; dispatched = sent })).dispatched
        ≡ sent ++ dispatches (split starts group turns)
  unfolding ends stream_loop dispatches split joined
  streamed_onto starts group [] sent h = absurd cc
  streamed_onto starts group (done ∷ turns) sent h =
      rw (flushed (joined "" group) sent, append-nil) refl
  streamed_onto starts group (stop ∷ turns) sent h =
      rw (flushed (joined "" group) sent, append-nil) refl
  streamed_onto starts group (flush ∷ turns) sent h =
      ap (λ s. (stream_loop compile rules (some starts) turns s).dispatched)
        (flushed (joined "" group) sent)
      ∙ streamed_onto starts [] turns _ h
      ∙ append_assoc sent _ _
  streamed_onto starts group (line text ∷ turns) sent h = elim (Bool-cases (starts text)) [
    | inl e ↦
        ap (λ s. (stream_loop compile rules (some starts) turns s).dispatched)
          (on_line-new starts text (joined "" group) sent e)
        ∙ streamed_onto starts (text ∷ []) turns _ h
        ∙ append_assoc sent _ _
        ∙ rw e refl
    | inr e ↦
        ap (λ s. (stream_loop compile rules (some starts) turns s).dispatched)
          (on_line-more starts text (joined "" group) sent e ∙ rw (joined-snoc "" text group) refl)
        ∙ streamed_onto starts (group ++ text ∷ []) turns sent h
        ∙ rw e refl
  ]

  -- With a multiline pattern that compiles, a run that ends hands the rules each event of a
  -- division of the lines read into events that loses no line and keeps their order, and sends
  -- what they match.
  pub streamed_events :
      (starts : String → Bool) (turns : List Turn)
      → ends turns ≡ true
      → ((stream_loop compile rules
            (some starts)
            turns
            (record { buffer = ""; dispatched = [] })).dispatched
          ≡ dispatches (split starts [] turns))
        × (concat (split starts [] turns) ≡ lines_read turns)
  unfolding joined
  streamed_events starts turns h =
      (streamed_onto starts [] turns [] h, concat-split_onto starts [] turns)

  -- The alerts of the lines, each line an event.
  pub dispatches_by_line : List String → List Dispatch
  dispatches_by_line [] = []
  dispatches_by_line (text ∷ lines) = dispatch_event text ++ dispatches_by_line lines

  lines_onto :
      (turns : List Turn) (sent : List Dispatch)
      → (stream_loop compile rules none turns
          (record { buffer = ""; dispatched = sent })).dispatched
        ≡ sent ++ dispatches_by_line (lines_read turns)
  unfolding stream_loop on_line lines_read dispatches_by_line process_buffer
  lines_onto [] sent = rw append-nil refl
  lines_onto (done ∷ turns) sent = rw append-nil refl
  lines_onto (stop ∷ turns) sent = rw append-nil refl
  lines_onto (flush ∷ turns) sent = lines_onto turns sent
  lines_onto (line text ∷ turns) sent =
      ap (λ s. (stream_loop compile rules none turns s).dispatched)
        (rw (append.nil text) (flushed text sent))
      ∙ lines_onto turns _
      ∙ append_assoc sent _ _

  -- In single-line mode the loop sends for each line read, in order, what the rules make of that
  -- line alone.
  pub streamed_lines :
      (turns : List Turn)
      → (stream_loop compile rules none turns (record { buffer = ""; dispatched = [] })).dispatched
        ≡ dispatches_by_line (lines_read turns)
  streamed_lines turns = lines_onto turns []

module _ (compile : String → Option (String → Bool)) where
  -- There is no multiline pattern, or it does not compile.
  abbrev pub SingleLine : Option MultilineSpec → Type 0
  SingleLine none = Unit
  SingleLine (some multiline) = compile multiline.pattern ≡ none

  new_event_test-SingleLine :
      (multiline : Option MultilineSpec)
      → SingleLine multiline
      → new_event_test compile multiline ≡ none
  unfolding new_event_test
  new_event_test-SingleLine none h = refl
  new_event_test-SingleLine (some multiline) h = rw (new_event_test, h) refl

  -- When a MonitorPod has no multiline pattern, or has one that does not compile, a stream that opens on a
  -- pod with a first container reads that container's log and sends off for each line read, in order,
  -- what the MonitorPod's rules make of that line alone.
  pub stream_pod_logs-by_line :
      (mp : MonitorPod) (pod : Pod) (turns : List Turn) (container : String) (others : List String)
      → pod.containers ≡ container ∷ others
      → SingleLine mp.spec.multiline
      → stream_pod_logs compile mp pod (ok turns)
        ≡ some (container, dispatches_by_line compile mp.spec.rules (lines_read turns))
  unfolding stream_pod_logs
  stream_pod_logs-by_line mp pod turns container others first single =
      rw (stream_pod_logs, first, new_event_test-SingleLine mp.spec.multiline single)
        (ap (λ sent. some (container, sent)) (streamed_lines compile mp.spec.rules turns))
