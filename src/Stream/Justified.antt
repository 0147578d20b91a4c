-- ===== src/Stream/Justified.antt =====
-- Why an alert is sent off.
use smart_log.Base.{
  String, ◌==◌, ◌≡◌, refl, sym, subst, inl, inr, Bool, false, Bool-cases, Option, none, some, List,
  [], ◌∷◌, ◌++◌, All, ◌<>◌,
}
use smart_log.Errors.{Result, ok, err}
use smart_log.Api.{LogRule, MonitorPod, Pod}
use smart_log.Stream.{
  Turn, done, flush, stop, line, Dispatch, StreamState, match_rules, process_buffer, on_line,
  new_event_test, stream_loop, stream_pod_logs,
}
use smart_log.Stream.Rules.{FirstMatch, match_rules-first}

pub All-++ : {A : Type 0} (P : A → Type 0) (xs ys : List A) → All P xs → All P ys → All P (xs ++ ys)
All-++ P [] ys h k = k
All-++ P (x ∷ xs) ys (p, h) k = (p, All-++ P xs ys h k)

module _ (compile : String → Option (String → Bool)) where
  -- An event with text, and the first of the rules that fits it.
  abbrev pub Justified : List LogRule → Dispatch → Type 0
  Justified rules d = (d.event == "" ≡ false) × FirstMatch compile rules d.event d.rule

  match_rules-Justified :
      (rules : List LogRule) (event : String)
      → (event == "") ≡ false
      → All (Justified rules) (match_rules compile rules event)
  match_rules-Justified rules event some_text = elim (match_rules-first compile rules event) [
    | inl (misses, e) ↦ subst (All (Justified rules)) (sym e) tt
    | inr (rule, first, e) ↦ subst (All (Justified rules)) (sym e) ((some_text, first), tt)
  ]

  module _ (rules : List LogRule) where
    abbrev AllJustified : StreamState → Type 0
    AllJustified s = All (Justified rules) s.dispatched

    process_buffer-Justified :
        (s : StreamState) → AllJustified s → AllJustified (process_buffer compile rules s)
    unfolding process_buffer
    process_buffer-Justified s h = elim (Bool-cases (s.buffer == "")) [
      | inl e ↦ rw e h
      | inr e ↦
          rw e (All-++ (Justified rules) s.dispatched _ h (match_rules-Justified rules s.buffer e))
    ]

    on_line-Justified :
        (test : Option (String → Bool)) (text : String) (s : StreamState)
        → AllJustified s
        → AllJustified (on_line compile rules test text s)
    unfolding on_line
    on_line-Justified none text s h =
        process_buffer-Justified (record s { buffer = s.buffer <> text }) h
    on_line-Justified (some test) text s h = elim (Bool-cases (test text)) [
      | inl e ↦ rw e (process_buffer-Justified s h)
      | inr e ↦ rw e h
    ]

    stream_loop-Justified :
        (test : Option (String → Bool)) (turns : List Turn) (s : StreamState)
        → AllJustified s
        → AllJustified (stream_loop compile rules test turns s)
    unfolding stream_loop
    stream_loop-Justified test [] s h = h
    stream_loop-Justified test (done ∷ turns) s h = process_buffer-Justified s h
    stream_loop-Justified test (stop ∷ turns) s h = process_buffer-Justified s h
    stream_loop-Justified test (flush ∷ turns) s h =
        stream_loop-Justified test turns _ (process_buffer-Justified s h)
    stream_loop-Justified test (line text ∷ turns) s h =
        stream_loop-Justified test turns _ (on_line-Justified test text s h)

  -- Whatever the stream gives and however the loop takes its turns, a run on a pod with a first
  -- container does not panic, reads that container's log, and sends off an alert only for an event
  -- with text, under the first of the MonitorPod's rules whose pattern fits it.
  pub stream_pod_logs-Justified :
      (mp : MonitorPod) (pod : Pod) (stream : Result (List Turn)) (container : String)
      (others : List String)
      → pod.containers ≡ container ∷ others
      → (sent_off : List Dispatch) × (stream_pod_logs compile mp pod stream
          ≡ some (container, sent_off))
        × All (Justified mp.spec.rules) sent_off
  unfolding stream_pod_logs
  stream_pod_logs-Justified mp pod (err e) container others first =
      ([], rw (stream_pod_logs, first) refl, tt)
  stream_pod_logs-Justified mp pod (ok turns) container others first = (
    _,
    rw (stream_pod_logs, first) refl,
    stream_loop-Justified mp.spec.rules (new_event_test compile mp.spec.multiline) turns
        (record { buffer = ""; dispatched = [] }) tt,
  )
