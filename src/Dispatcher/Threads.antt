-- ===== src/Dispatcher/Threads.antt =====
-- internal/controller/monitorpod_controller.go: the goroutines of `dispatchAlert`, in any order. Each one
-- builds its request, makes its attempts, and reports a success on the buffered channel `successCh`;
-- the steps of different goroutines alternate as the scheduler has it.
pub mod Runs
pub mod Waits
pub mod Sequential
use smart_log.Base.{
  ℕ, zero, suc, ◌+◌, ◌<◌, ◌==◌, ◌≡◌, refl, Bool, true, false, Option, none, some, List, [], ◌∷◌,
  if◌then◌else◌,
}
use smart_log.Errors.{Result, ok, err}
use smart_log.Api.{Alert, MonitorPod}
use smart_log.Cluster.{Cluster}
use smart_log.Json.{object}
use smart_log.Templates.{TemplateData, Tools}
use smart_log.Http.{Http, Request, Response, is_settled, is_accepted, pause}
use smart_log.Senders.{
  get_secret_value, webhook_request, feishu_request, webhook_body, feishu_payload,
}

pub data Thread : Type 0 where
  -- Before its request.
  waiting : Alert → Thread
  -- With the number of the attempts that may follow the next one, and that one's number.
  trying : Request → ℕ → ℕ → Thread
  -- Before `successCh <- true`.
  reporting : Thread
  finished : Thread

module _ (C : Cluster) (http : Http C.State) (tools : Tools) (mp : MonitorPod)
    (values : TemplateData) where
  -- The requests that net/http builds.
  unfoldable pub checked_request : Request → Option Request
  checked_request request = elim (http.request_error request.url) [
    | some e ↦ none
    | none ↦ some request
  ]

  unfoldable pub prepared_webhook : Alert → C.State → Option Request
  unfolding checked_request webhook_body webhook_request get_secret_value
  prepared_webhook alert s = elim alert.spec.webhook [
    | none ↦ none
    | some webhook ↦ elim (webhook_body tools mp webhook values) [
      | err e ↦ none
      | ok body ↦
          let url =
            get_secret_value (C.get_secret s) alert.namespace (some webhook.url_secret_ref) in
          if url == "" then none else checked_request (webhook_request webhook url body)
    ]
  ]

  unfoldable pub prepared_feishu : Alert → C.State → Option Request
  unfolding checked_request feishu_payload feishu_request get_secret_value
  prepared_feishu alert s = elim alert.spec.feishu [
    | none ↦ none
    | some feishu ↦
        let url = get_secret_value (C.get_secret s) alert.namespace (some feishu.url_secret_ref) in
        let body =
          tools.marshal (object (feishu_payload C http tools mp alert.namespace feishu values s)) in
        if url == "" then none else checked_request (feishu_request url body)
  ]

  -- The request of a channel, if it comes to one.
  unfoldable pub prepared : Alert → C.State → Option Request
  unfolding prepared_webhook prepared_feishu
  prepared alert s =
      if alert.spec.kind == "Webhook"
      then prepared_webhook alert s
      else if alert.spec.kind == "Feishu"
      then prepared_feishu alert s
      else none

  unfoldable pub opened : Option Request → Thread
  opened none = finished
  opened (some request) = trying request 2 0

  -- What follows the loop of attempts.
  unfoldable pub settled : Result Response → Thread
  settled response = if is_accepted response then reporting else finished

  unfoldable pub answered : Request → ℕ → ℕ → Result Response → Thread
  unfolding settled
  answered request zero attempt response = settled response
  answered request (suc more) attempt response =
      if is_settled response then settled response else trying request more (suc attempt)

  -- An attempt, after its pause.
  abbrev pub reply : Request → ℕ → C.State → Result Response × C.State
  reply request attempt s = http.send (pause http is_settled request attempt s) request

  module _ (capacity : ℕ) where
    -- A step of one goroutine: what it makes of the channel's length and of the state, and how many
    -- requests it sends. A full channel blocks the report.
    pub data Moves : Thread → ℕ → C.State → Thread → ℕ → C.State → ℕ → Type 0 where
      opens :
          {alert : Alert} {n : ℕ} {s : C.State}
          → Moves (waiting alert) n s (opened (prepared alert s)) n s 0
      tries :
          {request : Request} {more attempt n : ℕ} {s : C.State}
          → Moves
              (trying request more attempt)
              n
              s
              (answered request more attempt (reply request attempt s).0)
              n
              (reply request attempt s).1
              1
      reports : {n : ℕ} {s : C.State} → n < capacity → Moves reporting n s finished (suc n) s 0

    -- A step of one of the goroutines.
    pub data Step : List Thread → ℕ → C.State → List Thread → ℕ → C.State → ℕ → Type 0 where
      here :
          {t t' : Thread} {ts : List Thread} {n n' sends : ℕ} {s s' : C.State}
          → Moves t n s t' n' s' sends
          → Step (t ∷ ts) n s (t' ∷ ts) n' s' sends
      there :
          {t : Thread} {ts ts' : List Thread} {n n' sends : ℕ} {s s' : C.State}
          → Step ts n s ts' n' s' sends
          → Step (t ∷ ts) n s (t ∷ ts') n' s' sends

    -- A run, with the numbers of its steps and of the requests that it sends. Between the steps, others
    -- may change the state in any way.
    pub data Run : List Thread → ℕ → C.State → List Thread → ℕ → C.State → ℕ → ℕ → Type 0 where
      rest : {ts : List Thread} {n : ℕ} {s : C.State} → Run ts n s ts n s 0 0
      next :
          {ts ts' ts'' : List Thread} {n n' n'' sends steps total : ℕ} {s s' s'' : C.State}
          → Step ts n s ts' n' s' sends
          → Run ts' n' s' ts'' n'' s'' steps total
          → Run ts n s ts'' n'' s'' (suc steps) (sends + total)
      others :
          {ts ts' : List Thread} {n n' steps total : ℕ} {s s' : C.State} (t : C.State)
          → Run ts n t ts' n' s' steps total
          → Run ts n s ts' n' s' steps total

abbrev pub started : List Alert → List Thread
started [] = []
started (alert ∷ alerts) = waiting alert ∷ started alerts
