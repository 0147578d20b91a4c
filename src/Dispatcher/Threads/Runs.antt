-- ===== src/Dispatcher/Threads/Runs.antt =====
-- How long the goroutines of a dispatch run, and how much they send.
use smart_log.Base.{
  ℕ, zero, suc, ◌+◌, ◌*◌, ◌≤◌, ◌≡◌, refl, Option, none, some, List, [], ◌∷◌, Bool-cases, inl, inr,
  arith, length,
}
use smart_log.Errors.{Result}
use smart_log.Api.{Alert, MonitorPod}
use smart_log.Cluster.{Cluster}
use smart_log.Templates.{TemplateData, Tools}
use smart_log.Http.{Http, Request, Response, is_settled, is_accepted}
use smart_log.Dispatcher.Threads.{
  Thread, waiting, trying, reporting, finished, prepared, opened, settled, answered, reply, Moves,
  opens, tries, reports, Step, here, there, Run, rest, next, others, started,
}

-- The steps and the requests that a goroutine has left at most.
abbrev work : Thread → ℕ
work (waiting alert) = 5
work (trying request more attempt) = more + 2
work reporting = 1
work finished = 0

abbrev left : Thread → ℕ
left (waiting alert) = 3
left (trying request more attempt) = suc more
left reporting = 0
left finished = 0

abbrev all_work : List Thread → ℕ
all_work [] = 0
all_work (t ∷ ts) = work t + all_work ts

abbrev all_left : List Thread → ℕ
all_left [] = 0
all_left (t ∷ ts) = left t + all_left ts

module _ (C : Cluster) (http : Http C.State) (tools : Tools) (mp : MonitorPod)
    (values : TemplateData) where
  opened-work :
      (request : Option Request)
      → (work (opened C http tools mp values request) ≤ 4)
        × (left (opened C http tools mp values request) ≤ 3)
  unfolding opened
  opened-work none = (omega arith, omega arith)
  opened-work (some request) = (omega arith, omega arith)

  settled-work :
      (response : Result Response)
      → (work (settled C http tools mp values response) ≤ 1)
        × (left (settled C http tools mp values response) ≡ 0)
  unfolding settled
  settled-work response = elim (Bool-cases (is_accepted response)) [
    | inl e ↦ rw e (omega arith, refl)
    | inr e ↦ rw e (omega arith, refl)
  ]

  answered-work :
      (request : Request) (more attempt : ℕ) (response : Result Response)
      → (work (answered C http tools mp values request more attempt response) ≤ more + 1)
        × (left (answered C http tools mp values request more attempt response) ≤ more)
  unfolding answered
  answered-work request zero attempt response = ground (arith, settled-work response)
  answered-work request (suc more) attempt response = elim (Bool-cases (is_settled response)) [
    | inl e ↦
        rw e (omega (arith, (settled-work response).0), omega (arith, (settled-work response).1))
    | inr e ↦ rw e (omega arith, omega arith)
  ]

  module _ (capacity : ℕ) where
    Moves-work :
        {s s' : C.State} {t t' : Thread} {n n' sends : ℕ}
        → Moves C http tools mp values capacity t n s t' n' s' sends
        → (work t' + 1 ≤ work t) × (left t' + sends ≤ left t)
    Moves-work (opens {alert = alert} {s = s}) =
        let (w, l) = opened-work (prepared C http tools mp values alert s) in
        (omega (arith, w), omega (arith, l))
    Moves-work (tries {request = r} {more = more} {attempt = a} {s = s}) =
        let (w, l) = answered-work r more a (reply C http tools mp values r a s).0 in
        (omega (arith, w), omega (arith, l))
    Moves-work (reports room) = (omega arith, omega arith)

    Step-work :
        {ts ts' : List Thread} {n n' sends : ℕ} {s s' : C.State}
        → Step C http tools mp values capacity ts n s ts' n' s' sends
        → (all_work ts' + 1 ≤ all_work ts) × (all_left ts' + sends ≤ all_left ts)
    Step-work (here m) = let (w, l) = Moves-work m in (omega (arith, w), omega (arith, l))
    Step-work (there step) = let (w, l) = Step-work step in (omega (arith, w), omega (arith, l))

    Run-work :
        {ts ts' : List Thread} {n n' steps total : ℕ} {s s' : C.State}
        → Run C http tools mp values capacity ts n s ts' n' s' steps total
        → (all_work ts' + steps ≤ all_work ts) × (all_left ts' + total ≤ all_left ts)
    Run-work rest = (omega arith, omega arith)
    Run-work (others t run) = Run-work run
    Run-work (next step run) =
        let (w, l) = Step-work step in
        let (w', l') = Run-work run in (omega (arith, w, w'), omega (arith, l, l'))

    started-work :
        (alerts : List Alert)
        → (all_work (started alerts) ≡ 5 * length alerts)
          × (all_left (started alerts) ≡ 3 * length alerts)
    started-work [] = (refl, refl)
    started-work (alert ∷ alerts) =
        let (w, l) = started-work alerts in (omega (arith, w), omega (arith, l))

    -- However the goroutines of a dispatch alternate, they take at most five steps for each alert and
    -- send at most three requests for each alert.
    pub Run-bounds :
        (alerts : List Alert) (s s' : C.State) (ts : List Thread) (n steps total : ℕ)
        → Run C http tools mp values capacity (started alerts) 0 s ts n s' steps total
        → (steps ≤ 5 * length alerts) × (total ≤ 3 * length alerts)
    Run-bounds alerts s s' ts n steps total run =
        let (w, l) = Run-work run in
        let (w', l') = started-work alerts in (omega (arith, w, w'), omega (arith, l, l'))
