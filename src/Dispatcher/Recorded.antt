-- ===== src/Dispatcher/Recorded.antt =====
-- Which alerts are recorded and counted.
use smart_log.Base.{
  ℕ, zero, suc, String, ◌==◌, eq_iff, ◌≡◌, refl, sym, ap, ◌∙◌, ◌⊎◌, ◌↔◌, inl, inr, Bool, true,
  false, Bool-cases, Option-cases, Option, none, some, List, [], ◌∷◌, arith,
}
use smart_log.Base.Int.{ℤ}
use smart_log.Errors.{Result}
use smart_log.Api.{Alert, MonitorPod, Pod, LogRule, AlertRecord}
use smart_log.Cluster.{Cluster}
use smart_log.Templates.{TemplateData, Tools, AiData}
use smart_log.Http.{Http}
use smart_log.Senders.{send_webhook_alert, send_feishu_alert}
use smart_log.Senders.Deliver.{
  WebhookReached, FeishuReached, send_webhook_alert-Reached, send_feishu_alert-Reached,
}
use smart_log.Dispatcher.{send_to, send_all, enriched, register, notify}

module _ (C : Cluster) (http : Http C.State) (ai_http : ℤ → Http C.State) (tools : Tools)
    (set_owner : MonitorPod → AlertRecord → Result AlertRecord) where
  -- The channel is of a known type, and one of its attempts is accepted.
  abbrev pub ChannelReached : MonitorPod → TemplateData → Alert → C.State → Type 0
  ChannelReached mp values alert s =
      ((alert.spec.kind ≡ "Webhook") × WebhookReached C http tools mp alert values s)
      ⊎ ((alert.spec.kind ≡ "Feishu") × FeishuReached C http tools mp alert values s)

  module _ (mp : MonitorPod) (values : TemplateData) where
    abbrev sent : Alert → C.State → Bool × C.State
    sent alert s = send_to C http ai_http tools set_owner mp values alert s

    sent_webhook :
        (alert : Alert) (s : C.State)
        → (alert.spec.kind == "Webhook") ≡ true
        → sent alert s ≡ send_webhook_alert C http tools mp alert values s
    unfolding send_to
    sent_webhook alert s e = rw e refl

    sent_feishu :
        (alert : Alert) (s : C.State)
        → (alert.spec.kind == "Webhook") ≡ false
        → (alert.spec.kind == "Feishu") ≡ true
        → sent alert s ≡ send_feishu_alert C http tools mp alert values s
    unfolding send_to
    sent_feishu alert s e f = rw (e, f) refl

    sent_other :
        (alert : Alert) (s : C.State)
        → (alert.spec.kind == "Webhook") ≡ false
        → (alert.spec.kind == "Feishu") ≡ false
        → sent alert s ≡ (false, s)
    unfolding send_to
    sent_other alert s e f = rw (e, f) refl

    sent-ChannelReached :
        (alert : Alert) (s : C.State) → ((sent alert s).0 ≡ true) ↔ ChannelReached mp values alert s
    sent-ChannelReached alert s =
        let webhook = send_webhook_alert-Reached C http tools mp alert values s in
        let feishu = send_feishu_alert-Reached C http tools mp alert values s in
        elim (Bool-cases (alert.spec.kind == "Webhook")) [
          | inl e ↦
              let is_webhook = ap (λ o. o.0) (sent_webhook alert s e) in
              let kind = (eq_iff alert.spec.kind "Webhook").0 e in
              (
                λ h. inl (kind, webhook.0 (sym is_webhook ∙ h)),
                elim [
                  | inl (k, r) ↦ is_webhook ∙ webhook.1 r
                  | inr (k, r) ↦
                      absurd (ground (arith, (eq_iff "Webhook" "Feishu").1 (sym kind ∙ k)))
                ],
              )
          | inr e ↦ elim (Bool-cases (alert.spec.kind == "Feishu")) [
            | inl f ↦
                let is_feishu = ap (λ o. o.0) (sent_feishu alert s e f) in
                (
                  λ h. inr ((eq_iff alert.spec.kind "Feishu").0 f, feishu.0 (sym is_feishu ∙ h)),
                  elim [
                    | inl (k, r) ↦ absurd (cc (e, (eq_iff alert.spec.kind "Webhook").1 k))
                    | inr (k, r) ↦ is_feishu ∙ feishu.1 r
                  ],
                )
            | inr f ↦
                let is_other = ap (λ o. o.0) (sent_other alert s e f) in
                (
                  λ h. absurd (cc (is_other, h)),
                  elim [
                    | inl (k, r) ↦ absurd (cc (e, (eq_iff alert.spec.kind "Webhook").1 k))
                    | inr (k, r) ↦ absurd (cc (f, (eq_iff alert.spec.kind "Feishu").1 k))
                  ],
                )
          ]
        ]

    -- One of the channels is reached, in the state that the sends before it leave.
    pub data AnyReached : List Alert → C.State → Type 0 where
      here :
          {alert : Alert} {alerts : List Alert} {s : C.State}
          → ChannelReached mp values alert s
          → AnyReached (alert ∷ alerts) s
      there :
          {alert : Alert} {alerts : List Alert} {s : C.State}
          → AnyReached alerts (sent alert s).1
          → AnyReached (alert ∷ alerts) s

    abbrev all_sent : List Alert → C.State → ℕ × C.State
    all_sent alerts s = send_all C http ai_http tools set_owner mp values alerts s

    AnyReached-later :
        (alert : Alert) (alerts : List Alert) (s : C.State)
        → (sent alert s).0 ≡ false
        → AnyReached (alert ∷ alerts) s
        → AnyReached alerts (sent alert s).1
    AnyReached-later alert alerts s e (here r) = absurd (cc (e, (sent-ChannelReached alert s).1 r))
    AnyReached-later alert alerts s e (there rest) = rest

    all_sent-AnyReached :
        (alerts : List Alert) (s : C.State)
        → ((n : ℕ) × ((all_sent alerts s).0 ≡ suc n) × AnyReached alerts s)
          ⊎ (((all_sent alerts s).0 ≡ zero) × (AnyReached alerts s → ⊥))
    unfolding send_all
    all_sent-AnyReached [] s = inr (refl, λ r. elim r [ ])
    all_sent-AnyReached (alert ∷ alerts) s = elim (Bool-cases (sent alert s).0) [
      | inl e ↦ inl (
        (all_sent alerts (sent alert s).1).0,
        rw e refl,
        here ((sent-ChannelReached alert s).0 e),
      )
      | inr e ↦ elim (all_sent-AnyReached alerts (sent alert s).1) [
        | inl (n, p, r) ↦ inl (n, rw e p, there r)
        | inr (p, f) ↦ inr (rw e p, λ r. f (AnyReached-later alert alerts s e r))
      ]
    ]

  -- The data of an event's templates, before the analysis.
  abbrev pub event_values : Pod → LogRule → String → String → C.State → TemplateData
  event_values pod rule container line s = record {
    pod_name = pod.name;
    namespace = pod.namespace;
    container_name = container;
    log_line = line;
    rule_name = rule.name;
    timestamp = C.clock s;
    ai = none;
  }

  -- The event is recorded and counted, and a channel is reached, or neither.
  abbrev pub RecordedIf :
      MonitorPod
      → Pod
      → LogRule
      → String
      → String
      → List Alert
      → Option AiData
      → C.State
      → C.State
      → Option C.State
      → Type 0
  RecordedIf mp pod rule container line alerts analysis s t out =
      let values = record (event_values pod rule container line s) { ai = analysis } in
      let after = (send_all C http ai_http tools set_owner mp values alerts t).1 in
      (AnyReached mp values alerts t
        × (out ≡ some (register C http ai_http tools set_owner mp pod rule container line after)))
      ⊎ ((AnyReached mp values alerts t → ⊥) × (out ≡ some after))

  -- Unless the analysis panics, the event is sent to the channels with the analysis that there is, and
  -- it is recorded and counted, after all sends, exactly when one of the channels accepts one of its
  -- attempts.
  pub notify-RecordedIf :
      (mp : MonitorPod) (pod : Pod) (rule : LogRule) (container line : String) (alerts : List Alert)
      (s : C.State)
      → let out = notify C http ai_http tools set_owner mp pod rule container line alerts s in
        let analysis =
          enriched C http ai_http tools set_owner mp (event_values pod rule container line s) s in
        ((analysis ≡ none) × (out ≡ none))
        ⊎ ((found : Option AiData) × (t : C.State) × (analysis ≡ some (found, t))
            × RecordedIf mp pod rule container line alerts found s t out)
  unfolding notify
  notify-RecordedIf mp pod rule container line alerts s =
      elim (Option-cases
        (enriched C http ai_http tools set_owner mp (event_values pod rule container line s) s)) [
          | inl e ↦ inl (e, rw (notify, e) refl)
          | inr ((found, t), e) ↦
              elim (all_sent-AnyReached mp
                (record (event_values pod rule container line s) { ai = found }) alerts t) [
                  | inl (n, p, r) ↦ inr (found, t, e, inl (r, rw (notify, e, p) refl))
                  | inr (p, f) ↦ inr (found, t, e, inr (f, rw (notify, e, p) refl))
                ]
        ]
