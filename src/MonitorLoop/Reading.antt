-- ===== src/MonitorLoop/Reading.antt =====
-- The streams of a monitor's loop that still read a log. A stream also returns by itself, when
-- `streamPodLogs` cannot open the log or reaches its end; `activePodMonitors` keeps its entry.
use smart_log.Base.{
  ℕ, suc, ◌≤◌, ◌<◌, ltb, String, ◌≡◌, refl, sym, ap, ◌∙◌, Bool, true, false, ◌||◌, Option, none,
  some, List, [], ◌∷◌, if◌then◌else◌, eqb, contains, length, arith, inl, inr, ltb→lt, Bool-cases,
  Option-cases, subst,
}
use smart_log.Base.Dict
use smart_log.Errors.{ok, Result-cases}
use smart_log.Api.{Pod, MonitorPod}
use smart_log.Cluster.{Cluster, Selector}
use smart_log.Tasks.{Registry, Task, empty_registry}
use smart_log.Tasks.Sound.{WellFormed, live, handles, to_list, empty-WellFormed}
use smart_log.MonitorLoop.{current_pods, drop_stale, follow_pods, keys, loop_tick}
use smart_log.MonitorLoop.Follow.{follow_pods-followed, follow_pods-count, loop_tick-WellFormed}
use smart_log.MonitorLoop.Entries.{
  AsNew, drop_stale-next, drop_stale-current, start_new-kept, start_new-AsNew, start_new-le,
}

-- The loop's map and goroutines, and the handles of the streams that returned by themselves.
pub record Readers : Type 0 where
  pub entries : Registry Pod
  pub returned : List ℕ

-- The `return` of a stream that was started.
unfoldable pub stream_returns : ℕ → Readers → Readers
stream_returns h s = if ltb h s.entries.next then record s { returned = h ∷ s.returned } else s

unfoldable pub has_returned : List ℕ → ℕ → Bool
has_returned [] h = false
has_returned (x ∷ rest) h = eqb x h || has_returned rest h

-- How many of some streams have not returned.
unfoldable pub running_of : List ℕ → List ℕ → ℕ
unfolding has_returned
running_of returned [] = 0
running_of returned (h ∷ rest) =
    let others = running_of returned rest in if has_returned returned h then others else suc others

-- How many streams, neither cancelled nor returned, read the log of the pod of a key.
unfoldable pub reading : String → Readers → ℕ
unfolding running_of
reading k s = running_of s.returned (handles (live k s.entries.tasks))

-- Those of a key that has a running pod: as before, if there was an entry, and else one.
abbrev pub kept_or_one : Option ℕ → ℕ → ℕ
kept_or_one none before = 1
kept_or_one (some h) before = before

AllBelow : ℕ → List ℕ → Type 0
AllBelow n [] = Unit
AllBelow n (h ∷ rest) = (h < n) × AllBelow n rest

AllBelow-le : (m n : ℕ) (hs : List ℕ) → m ≤ n → AllBelow m hs → AllBelow n hs
unfolding AllBelow
AllBelow-le m n [] le below = tt
AllBelow-le m n (h ∷ rest) le (b, below) = (omega (arith, b, le), AllBelow-le m n rest le below)

new-unreturned :
    (n h : ℕ) (returned : List ℕ) → AllBelow n returned → n ≤ h → has_returned returned h ≡ false
unfolding AllBelow has_returned
new-unreturned n h [] below le = refl
new-unreturned n h (x ∷ rest) (b, below) le =
    rw (new-unreturned n h rest below le) (ground (arith, b, le))

-- A stream of the key that the tick started runs.
one_runs :
    (n : ℕ) (returned : List ℕ) (o : Option ℕ)
    → AllBelow n returned
    → AsNew n o
    → length (to_list o) ≡ 1
    → running_of returned (to_list o) ≡ 1
unfolding running_of
one_runs n returned none below new one = absurd (ground (arith, one))
one_runs n returned (some h) below new one = rw (new-unreturned n h returned below new) refl

-- The entry of a current pod that had one.
follow_pods-kept :
    (pods : List Pod) (r : Registry Pod) (k : String) (h : ℕ)
    → contains (current_pods pods) k ≡ true
    → Dict.lookup k r.cancels ≡ some h
    → Dict.lookup k (follow_pods pods r).cancels ≡ some h
unfolding follow_pods
follow_pods-kept pods r k h current found =
    start_new-kept pods k h _
      (drop_stale-current (current_pods pods) (keys r.cancels) k r current ∙ found)

-- The entry of a current pod that had none.
follow_pods-AsNew :
    (pods : List Pod) (r : Registry Pod) (k : String)
    → contains (current_pods pods) k ≡ true
    → Dict.lookup k r.cancels ≡ none
    → AsNew r.next (Dict.lookup k (follow_pods pods r).cancels)
unfolding follow_pods
follow_pods-AsNew pods r k current missing =
    let next = drop_stale-next (current_pods pods) (keys r.cancels) r in
    start_new-AsNew pods k r.next _ (omega (arith, next)) (
      subst (AsNew r.next)
        (sym (drop_stale-current (current_pods pods) (keys r.cancels) k r current ∙ missing)) tt)

follow_pods-le : (pods : List Pod) (r : Registry Pod) → r.next ≤ (follow_pods pods r).next
unfolding follow_pods
follow_pods-le pods r = omega (
  arith,
  drop_stale-next (current_pods pods) (keys r.cancels) r,
  start_new-le pods (drop_stale (current_pods pods) (keys r.cancels) r),
)

length-handles : (ts : List (Task Pod)) → length (handles ts) ≡ length ts
length-handles [] = refl
length-handles (t ∷ ts) = ap suc (length-handles ts)

none_runs :
    (returned : List ℕ) (ts : List (Task Pod))
    → length ts ≡ 0
    → running_of returned (handles ts) ≡ 0
unfolding running_of
none_runs returned [] e = refl
none_runs returned (t ∷ ts) e = absurd (ground (arith, e))

-- The streams of a key that read after a tick which lists the pods.
follow_pods-reading :
    (pods : List Pod) (r : Registry Pod) (returned : List ℕ) (k : String)
    → WellFormed r
    → AllBelow r.next returned
    → running_of returned (handles (live k (follow_pods pods r).tasks)) ≡ (
        if contains (current_pods pods) k
        then kept_or_one (Dict.lookup k r.cancels) (running_of returned (handles (live k r.tasks)))
        else 0)
unfolding running_of
follow_pods-reading pods r returned k w below =
    let after = (follow_pods-followed pods r w).0 in
    let count = follow_pods-count pods r k w in
    elim (Bool-cases (contains (current_pods pods) k)) [
      | inr e ↦ rw e (none_runs returned _ (count ∙ rw e refl))
      | inl e ↦ elim (Option-cases (Dict.lookup k r.cancels)) [
        | inl missing ↦
            rw (e, missing, after.fits k)
              (one_runs r.next returned _ below (follow_pods-AsNew pods r k e missing)
                (ap length (sym (after.fits k)) ∙ length-handles _ ∙ count ∙ rw e refl))
        | inr (h, found) ↦
            rw (e, found, after.fits k, w.fits k, follow_pods-kept pods r k h e found)
              (ap (λ o. running_of returned (to_list o)) (sym found))
      ]
    ]

-- What happens to a monitor's streams: a tick, in a state of the server, or the return of a stream.
pub data Event (C : Cluster) : Type 0 where
  tick : C.State → Event C
  returns : ℕ → Event C

module _ (C : Cluster) (mp : MonitorPod) where
  unfoldable pub tick_readers : C.State → Readers → Readers
  tick_readers s r = record r { entries = loop_tick C mp s r.entries }

  -- The streams after some events, the latest first.
  unfoldable pub readers_after : List (Event C) → Readers
  unfolding tick_readers stream_returns
  readers_after [] = record { entries = empty_registry; returned = [] }
  readers_after (tick s ∷ earlier) = tick_readers s (readers_after earlier)
  readers_after (returns h ∷ earlier) = stream_returns h (readers_after earlier)

  record Sound (r : Readers) : Type 0 where
    wellformed : WellFormed r.entries
    below : AllBelow r.entries.next r.returned

  loop_tick-le : (s : C.State) (r : Registry Pod) → r.next ≤ (loop_tick C mp s r).next
  unfolding loop_tick
  loop_tick-le s r = elim (Result-cases (C.label_selector_as_selector mp.spec.selector)) [
    | inl (selector, e) ↦ elim (Result-cases (C.list_pods s mp.namespace selector)) [
      | inl (pods, f) ↦ rw (loop_tick, e, f) (follow_pods-le pods r)
      | inr (x, f) ↦ rw (loop_tick, e, f) (omega arith)
    ]
    | inr (x, e) ↦ rw (loop_tick, e) (omega arith)
  ]

  stream_returns-Sound : (h : ℕ) (r : Readers) → Sound r → Sound (stream_returns h r)
  unfolding stream_returns AllBelow
  stream_returns-Sound h r sound = elim (Bool-cases (ltb h r.entries.next)) [
    | inl e ↦ rw e (record { wellformed = sound.wellformed; below = (ltb→lt _ _ e, sound.below) })
    | inr e ↦ rw e sound
  ]

  readers_after-Sound : (events : List (Event C)) → Sound (readers_after events)
  unfolding readers_after tick_readers AllBelow
  readers_after-Sound [] = record { wellformed = empty-WellFormed; below = tt }
  readers_after-Sound (tick s ∷ earlier) =
      let r = readers_after earlier in
      let sound = readers_after-Sound earlier in
      record {
        wellformed = loop_tick-WellFormed C mp s r.entries sound.wellformed;
        below =
            AllBelow-le r.entries.next (loop_tick C mp s r.entries).next r.returned
              (loop_tick-le s r.entries) sound.below;
      }
  readers_after-Sound (returns h ∷ earlier) =
      stream_returns-Sound h (readers_after earlier) (readers_after-Sound earlier)

  -- After any ticks, in any states of the server, and any streams that returned by themselves, a tick
  -- that gets the list of the selected pods leaves one stream whose context is not cancelled, whether
  -- it has returned or not, for each key that a running pod of the list has, and none for another key.
  -- Of the streams that are neither cancelled nor
  -- returned, none is left for a key without such a pod; a key that had no entry before the tick has
  -- one; and one that had an entry has as many as before, so none if its stream had returned.
  pub loop_tick_exact :
      (events : List (Event C)) (s : C.State) (selector : Selector) (pods : List Pod) (k : String)
      → C.label_selector_as_selector mp.spec.selector ≡ ok selector
      → C.list_pods s mp.namespace selector ≡ ok pods
      → let before = readers_after events in
        let after = tick_readers s before in
        let current = contains (current_pods pods) k in
        (length (live k after.entries.tasks) ≡ (if current then 1 else 0))
        × (reading k after ≡ (
            if current
            then kept_or_one (Dict.lookup k before.entries.cancels) (reading k before)
            else 0))
  unfolding loop_tick tick_readers reading
  loop_tick_exact events s selector pods k e f =
      let r = readers_after events in
      let sound = readers_after-Sound events in
      rw (loop_tick, e, f)
        (
          follow_pods-count pods r.entries k sound.wellformed,
          follow_pods-reading pods r.entries r.returned k sound.wellformed sound.below,
        )
