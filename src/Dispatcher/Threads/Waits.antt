-- ===== src/Dispatcher/Threads/Waits.antt =====
-- The goroutines of a dispatch never block for good: `wg.Wait()` returns.
use smart_log.Base.{ℕ, ◌+◌, ◌≤◌, ◌≡◌, refl, ◌⊎◌, inl, inr, List, [], ◌∷◌, arith, length, All}
use smart_log.Api.{Alert, MonitorPod}
use smart_log.Cluster.{Cluster}
use smart_log.Templates.{TemplateData, Tools}
use smart_log.Http.{Http}
use smart_log.Dispatcher.Threads.{
  Thread, waiting, trying, reporting, finished, prepared, opened, answered, reply, Moves, opens,
  tries, reports, Step, here, there, Run, rest, next, others, started,
}

-- One for a goroutine that may still report.
abbrev live : Thread → ℕ
live (waiting alert) = 1
live (trying request more attempt) = 1
live reporting = 1
live finished = 0

abbrev all_live : List Thread → ℕ
all_live [] = 0
all_live (t ∷ ts) = live t + all_live ts

module _ (C : Cluster) (http : Http C.State) (tools : Tools) (mp : MonitorPod)
    (values : TemplateData) where
  live_le : (t : Thread) → live t ≤ 1
  live_le (waiting alert) = omega arith
  live_le (trying request more attempt) = omega arith
  live_le reporting = omega arith
  live_le finished = omega arith

  module _ (capacity : ℕ) where
    Moves-live :
        {s s' : C.State} {t t' : Thread} {n n' sends : ℕ}
        → Moves C http tools mp values capacity t n s t' n' s' sends
        → n' + live t' ≤ n + live t
    Moves-live (opens {alert = alert} {s = s}) =
        omega
          (arith, live_le (opened C http tools mp values (prepared C http tools mp values alert s)))
    Moves-live (tries {request = r} {more = more} {attempt = a} {s = s}) = omega (
      arith,
      live_le (answered C http tools mp values r more a (reply C http tools mp values r a s).0),
    )
    Moves-live (reports room) = omega arith

    Step-live :
        {ts ts' : List Thread} {n n' sends : ℕ} {s s' : C.State}
        → Step C http tools mp values capacity ts n s ts' n' s' sends
        → n' + all_live ts' ≤ n + all_live ts
    Step-live (here m) = omega (arith, Moves-live m)
    Step-live (there step) = omega (arith, Step-live step)

    Run-live :
        {ts ts' : List Thread} {n n' steps total : ℕ} {s s' : C.State}
        → Run C http tools mp values capacity ts n s ts' n' s' steps total
        → n' + all_live ts' ≤ n + all_live ts
    Run-live rest = omega arith
    Run-live (others t run) = Run-live run
    Run-live (next step run) = omega (arith, Step-live step, Run-live run)

    -- Some goroutine can take a step.
    abbrev pub CanStep : List Thread → ℕ → C.State → Type 0
    CanStep ts n s =
        (ts' : List Thread) × (n' : ℕ) × (s' : C.State) × (sends : ℕ) × Step C http tools mp values
          capacity ts n s ts' n' s' sends

    abbrev pub AllFinished : List Thread → Type 0
    AllFinished ts = All (λ t. t ≡ finished) ts

    CanStep-there :
        (t : Thread) (ts : List Thread) (n : ℕ) (s : C.State)
        → CanStep ts n s
        → CanStep (t ∷ ts) n s
    CanStep-there t ts n s (ts', n', s', sends, step) = (t ∷ ts', n', s', sends, there step)

    live-CanStep :
        (ts : List Thread) (n : ℕ) (s : C.State)
        → n + all_live ts ≤ capacity
        → AllFinished ts ⊎ CanStep ts n s
    live-CanStep [] n s room = inl tt
    live-CanStep (waiting alert ∷ ts) n s room = inr (_, _, _, _, here opens)
    live-CanStep (trying request more attempt ∷ ts) n s room = inr (_, _, _, _, here tries)
    live-CanStep (reporting ∷ ts) n s room = inr (_, _, _, _, here (reports (omega arith)))
    live-CanStep (finished ∷ ts) n s room = elim (live-CanStep ts n s (omega (arith, room))) [
      | inl done ↦ inl (refl, done)
      | inr step ↦ inr (CanStep-there finished ts n s step)
    ]

  started-live : (alerts : List Alert) → all_live (started alerts) ≡ length alerts
  started-live [] = refl
  started-live (alert ∷ alerts) = omega (arith, started-live alerts)

  -- With a channel that holds one value for each alert, the goroutines are never all blocked: at any
  -- point of any run either all of them are finished, or one of them can take a step; and no more
  -- successes are reported than there are alerts.
  pub Run-CanStep :
      (alerts : List Alert) (s s' : C.State) (ts : List Thread) (n steps total : ℕ)
      → Run C http tools mp values (length alerts) (started alerts) 0 s ts n s' steps total
      → (AllFinished (length alerts) ts ⊎ CanStep (length alerts) ts n s') × (n ≤ length alerts)
  Run-CanStep alerts s s' ts n steps total run =
      let kept = Run-live (length alerts) run in
      let start = started-live alerts in
      (
        live-CanStep (length alerts) ts n s' (omega (arith, kept, start)),
        omega (arith, kept, start),
      )
