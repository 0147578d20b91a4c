-- ===== src/Dispatcher/Threads/Sequential.antt =====
-- The dispatch whose goroutines run one after the other is one of the runs.
use smart_log.Base.{
  ℕ, zero, suc, ◌+◌, ◌≤◌, ◌<◌, ◌≡◌, refl, subst, inl, inr, Bool, true, false, Option, none, some,
  Option-cases, List, [], ◌∷◌, ◌==◌, Bool-cases, arith, length, if◌then◌else◌,
}
use smart_log.Base.Int.{ℤ}
use smart_log.Errors.{Result, Result-cases}
use smart_log.Api.{Alert, AlertRecord, MonitorPod}
use smart_log.Cluster.{Cluster}
use smart_log.Templates.{TemplateData, Tools}
use smart_log.Http.{Http, Request, Response, is_settled, is_accepted, attempts}
use smart_log.Senders.{
  deliver, send_webhook_alert, send_feishu_alert, webhook_body, get_secret_value,
}
use smart_log.Dispatcher.{send_to, send_all}
use smart_log.Dispatcher.Threads.{
  Thread, waiting, trying, finished, checked_request, prepared_webhook, prepared_feishu, prepared,
  opened, settled, answered, reply, opens, tries, reports, Step, here, there, Run, rest, next,
  others, started,
}
use smart_log.Dispatcher.Threads.Waits.{AllFinished}

module _ (C : Cluster) (http : Http C.State) (tools : Tools) (mp : MonitorPod)
    (values : TemplateData) where
  -- What becomes of a request, if there is one.
  abbrev carried : Option Request → C.State → Bool × C.State
  carried none s = (false, s)
  carried (some request) s =
      let out = attempts http is_settled request 2 0 s in (is_accepted out.0, out.1)

  deliver-carried :
      (request : Request) (s : C.State)
      → deliver C http tools request s ≡ carried (checked_request C http tools mp values request) s
  unfolding deliver checked_request
  deliver-carried request s = elim (Option-cases (http.request_error request.url)) [
    | inl e ↦ rw (deliver, checked_request, e) refl
    | inr (x, e) ↦ rw (deliver, checked_request, e) refl
  ]

  carried_if :
      (empty : Bool) (request : Request) (s : C.State)
      → (if empty then (false, s) else deliver C http tools request s)
        ≡ carried (if empty then none else checked_request C http tools mp values request) s
  carried_if true request s = refl
  carried_if false request s = deliver-carried request s

  send_webhook-carried :
      (alert : Alert) (s : C.State)
      → send_webhook_alert C http tools mp alert values s
        ≡ carried (prepared_webhook C http tools mp values alert s) s
  unfolding send_webhook_alert prepared_webhook
  send_webhook-carried alert s = elim (Option-cases alert.spec.webhook) [
    | inl e ↦ rw (send_webhook_alert, prepared_webhook, e) refl
    | inr (webhook, e) ↦ elim (Result-cases (webhook_body tools mp webhook values)) [
      | inr (x, q) ↦ rw (send_webhook_alert, prepared_webhook, e, q) refl
      | inl (body, q) ↦
          rw (send_webhook_alert, prepared_webhook, e, q)
            (carried_if
              (get_secret_value (C.get_secret s) alert.namespace (some webhook.url_secret_ref)
                == "")
              _ s)
    ]
  ]

  send_feishu-carried :
      (alert : Alert) (s : C.State)
      → send_feishu_alert C http tools mp alert values s
        ≡ carried (prepared_feishu C http tools mp values alert s) s
  unfolding send_feishu_alert prepared_feishu
  send_feishu-carried alert s = elim (Option-cases alert.spec.feishu) [
    | inl e ↦ rw (send_feishu_alert, prepared_feishu, e) refl
    | inr (feishu, e) ↦
        rw (send_feishu_alert, prepared_feishu, e)
          (carried_if
            (get_secret_value (C.get_secret s) alert.namespace (some feishu.url_secret_ref) == "") _
            s)
  ]

  send_to-carried :
      (ai_http : ℤ → Http C.State) (set_owner : MonitorPod → AlertRecord → Result AlertRecord)
      (alert : Alert) (s : C.State)
      → send_to C http ai_http tools set_owner mp values alert s
        ≡ carried (prepared C http tools mp values alert s) s
  unfolding send_to prepared
  send_to-carried ai_http set_owner alert s = elim (Bool-cases (alert.spec.kind == "Webhook")) [
    | inl e ↦ rw e (send_webhook-carried alert s)
    | inr e ↦ elim (Bool-cases (alert.spec.kind == "Feishu")) [
      | inl q ↦ rw (e, q) (send_feishu-carried alert s)
      | inr q ↦ rw (e, q) refl
    ]
  ]

  abbrev bump : Bool → ℕ → ℕ
  bump success n = if success then suc n else n

  abbrev all_finished : List Alert → List Thread
  all_finished [] = []
  all_finished (alert ∷ alerts) = finished ∷ all_finished alerts

  module _ (capacity : ℕ) where
    -- Some run leads there.
    abbrev pub Reaches : List Thread → ℕ → C.State → List Thread → ℕ → C.State → Type 0
    Reaches ts n s ts' n' s' =
        (steps : ℕ) × (total : ℕ) × Run C http tools mp values capacity ts n s ts' n' s' steps total

    Reaches-next :
        {ts ts' ts'' : List Thread} {n n' n'' sends : ℕ} {s s' s'' : C.State}
        → Step C http tools mp values capacity ts n s ts' n' s' sends
        → Reaches ts' n' s' ts'' n'' s''
        → Reaches ts n s ts'' n'' s''
    Reaches-next step (steps, total, run) = (_, _, next step run)

    Run-then :
        {ts ts' ts'' : List Thread} {n n' n'' steps total : ℕ} {s s' s'' : C.State}
        → Run C http tools mp values capacity ts n s ts' n' s' steps total
        → Reaches ts' n' s' ts'' n'' s''
        → Reaches ts n s ts'' n'' s''
    Run-then rest more = more
    Run-then (others t run) more =
        let (steps, total, whole) = Run-then run more in (steps, total, others t whole)
    Run-then (next step run) more = Reaches-next step (Run-then run more)

    Run-there :
        {t : Thread} {ts ts' : List Thread} {n n' steps total : ℕ} {s s' : C.State}
        → Run C http tools mp values capacity ts n s ts' n' s' steps total
        → Run C http tools mp values capacity (t ∷ ts) n s (t ∷ ts') n' s' steps total
    Run-there rest = rest
    Run-there (others t run) = others t (Run-there run)
    Run-there (next step run) = next (there step) (Run-there run)

    settled-Reaches :
        (response : Result Response) (ts : List Thread) (n : ℕ) (s : C.State)
        → n < capacity
        → Reaches
            (settled C http tools mp values response ∷ ts)
            n
            s
            (finished ∷ ts)
            (bump (is_accepted response) n)
            s
    unfolding settled
    settled-Reaches response ts n s room = elim (Bool-cases (is_accepted response)) [
      | inl e ↦ rw e (_, _, next (here (reports room)) rest)
      | inr e ↦ rw e (_, _, rest)
    ]

    trying-Reaches :
        (request : Request) (more attempt : ℕ) (ts : List Thread) (n : ℕ) (s : C.State)
        → n < capacity
        → Reaches
            (trying request more attempt ∷ ts)
            n
            s
            (finished ∷ ts)
            (bump (is_accepted (attempts http is_settled request more attempt s).0) n)
            (attempts http is_settled request more attempt s).1
    unfolding attempts answered
    trying-Reaches request zero attempt ts n s room =
        Reaches-next (here tries)
          (settled-Reaches (reply C http tools mp values request attempt s).0 ts n _ room)
    trying-Reaches request (suc more) attempt ts n s room =
        Reaches-next (here tries)
          (elim (Bool-cases (is_settled (reply C http tools mp values request attempt s).0)) [
            | inl e ↦
                rw (attempts, e)
                  (settled-Reaches (reply C http tools mp values request attempt s).0 ts n _ room)
            | inr e ↦
                rw (attempts, e)
                  (trying-Reaches request more (suc attempt) ts n
                    (reply C http tools mp values request attempt s).1 room)
          ])

    opened-Reaches :
        (request : Option Request) (ts : List Thread) (n : ℕ) (s : C.State)
        → n < capacity
        → Reaches
            (opened C http tools mp values request ∷ ts)
            n
            s
            (finished ∷ ts)
            (bump (carried request s).0 n)
            (carried request s).1
    unfolding opened
    opened-Reaches none ts n s room = (_, _, rest)
    opened-Reaches (some request) ts n s room = trying-Reaches request 2 0 ts n s room

    bump-+ : (success : Bool) (n k : ℕ) → bump success n + k ≡ n + bump success k
    bump-+ true n k = omega arith
    bump-+ false n k = refl

    bump_le : (success : Bool) (n : ℕ) → bump success n ≤ suc n
    bump_le true n = omega arith
    bump_le false n = omega arith

    module _ (ai_http : ℤ → Http C.State)
        (set_owner : MonitorPod → AlertRecord → Result AlertRecord) where
      abbrev in_turn : List Alert → C.State → ℕ × C.State
      in_turn alerts s = send_all C http ai_http tools set_owner mp values alerts s

      in_turn-Reaches :
          (alerts : List Alert) (n : ℕ) (s : C.State)
          → n + length alerts ≤ capacity
          → Reaches
              (started alerts)
              n
              s
              (all_finished alerts)
              (n + (in_turn alerts s).0)
              (in_turn alerts s).1
      unfolding send_all
      in_turn-Reaches [] n s room = subst (λ k. Reaches [] n s [] k s) (omega arith) (0, 0, rest)
      in_turn-Reaches (alert ∷ alerts) n s room =
          let request = prepared C http tools mp values alert s in
          let out = carried request s in
          let first = opened-Reaches request (started alerts) n s (omega (arith, room)) in
          let others =
            in_turn-Reaches alerts (bump out.0 n) out.1 (omega (arith, bump_le out.0 n, room)) in
          rw (send_to-carried ai_http set_owner alert s) (
            subst
              (λ k.
                Reaches (waiting alert ∷ started alerts) n s (finished ∷ all_finished alerts) k
                  (in_turn alerts out.1).1)
              (bump-+ out.0 n (in_turn alerts out.1).0)
              (Reaches-next (here opens)
                (Run-then first.2 (others.0, others.1, Run-there others.2))))

  all_finished-AllFinished :
      (capacity : ℕ) (alerts : List Alert)
      → AllFinished C http tools mp values capacity (all_finished alerts)
  all_finished-AllFinished capacity [] = tt
  all_finished-AllFinished capacity (alert ∷ alerts) =
      (refl, all_finished-AllFinished capacity alerts)

  -- The goroutines that run one after the other, in the order of the alerts, are one of the runs: it
  -- ends with all of them finished, and with the number of successes and the state that `send_all`
  -- gives.
  pub send_all-Reaches :
      (ai_http : ℤ → Http C.State) (set_owner : MonitorPod → AlertRecord → Result AlertRecord)
      (alerts : List Alert) (s : C.State)
      → (ts : List Thread) × AllFinished C http tools mp values (length alerts) ts
        × Reaches
            (length alerts)
            (started alerts)
            0
            s
            ts
            (send_all C http ai_http tools set_owner mp values alerts s).0
            (send_all C http ai_http tools set_owner mp values alerts s).1
  send_all-Reaches ai_http set_owner alerts s = (
    all_finished alerts,
    all_finished-AllFinished (length alerts) alerts,
    subst
        (λ k.
          Reaches (length alerts) (started alerts) 0 s (all_finished alerts) k
            (in_turn (length alerts) ai_http set_owner alerts s).1)
        (omega arith) (in_turn-Reaches (length alerts) ai_http set_owner alerts 0 s (omega arith)),
  )
