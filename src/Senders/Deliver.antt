-- ===== src/Senders/Deliver.antt =====
-- When the senders report success.
use smart_log.Base.{
  String, ◌==◌, ◌≡◌, refl, sym, ap, ◌∙◌, ◌↔◌, true, false, none, some, Option-cases, Bool-cases,
}
use smart_log.Base.{inl, inr, arith, ltb→lt, lt→ltb, if◌then◌else◌}
use smart_log.Errors.{Error, Result, ok, err, Result-cases}
use smart_log.Api.{Alert, MonitorPod, WebhookSpec, FeishuSpec}
use smart_log.Cluster.{Cluster}
use smart_log.Json.{object}
use smart_log.Templates.{TemplateData, Tools}
use smart_log.Http.{Http, Request, Response, is_settled, is_accepted}
use smart_log.Http.Tries.{Delivered, attempts-Delivered}
use smart_log.Senders.{
  get_secret_value, webhook_request, feishu_request, webhook_body, deliver, send_webhook_alert,
}
use smart_log.Senders.{feishu_payload, send_feishu_alert}

pub accepted_settled : (r : Result Response) → is_accepted r ≡ true → is_settled r ≡ true
unfolding is_accepted is_settled
accepted_settled (ok response) h = lt→ltb _ _ (omega (arith, ltb→lt _ _ h))
accepted_settled (err e) h = absurd cc

module _ (C : Cluster) (http : Http C.State) (tools : Tools) where
  -- The URL is not empty and a request for it can be made, and one of three attempts is accepted.
  pub Reaches : Request → C.State → Type 0
  Reaches request s =
      ((request.url == "") ≡ false)
      × (http.request_error request.url ≡ none)
      × Delivered http is_settled request 2 s

  deliver-Delivered :
      (request : Request) (s : C.State)
      → ((deliver C http tools request s).0 ≡ true)
        ↔ ((http.request_error request.url ≡ none) × Delivered http is_settled request 2 s)
  unfolding deliver
  deliver-Delivered request s =
      let d = attempts-Delivered http is_settled request 2 s accepted_settled in
      elim (Option-cases (http.request_error request.url)) [
        | inl e ↦ rw (deliver, e) (λ h. (refl, d.0 h), λ (p, q). d.1 q)
        | inr (x, e) ↦ rw (deliver, e) (λ h. absurd cc, λ (p, q). absurd cc)
      ]

  guarded :
      (request : Request) (s : C.State)
      → ((if request.url == "" then (false, s) else deliver C http tools request s).0 ≡ true)
        ↔ Reaches request s
  unfolding Reaches
  guarded request s = elim (Bool-cases (request.url == "")) [
    | inl e ↦ rw e (λ h. absurd cc, λ x. absurd (cc x.0))
    | inr e ↦
        let d = deliver-Delivered request s in
        rw e (λ h. (refl, (d.0 h).0, (d.0 h).1), λ (p, q, r). d.1 (q, r))
  ]

  pub WebhookReached : MonitorPod → Alert → TemplateData → C.State → Type 0
  WebhookReached mp alert values s =
      (webhook : WebhookSpec) × (body : String) × (alert.spec.webhook ≡ some webhook)
      × (webhook_body tools mp webhook values ≡ ok body)
      × Reaches
          (webhook_request webhook
            (get_secret_value (C.get_secret s) alert.namespace (some webhook.url_secret_ref)) body)
          s

  requested :
      (mp : MonitorPod) (alert : Alert) (values : TemplateData) (s : C.State)
      (webhook : WebhookSpec) (body : String)
      → alert.spec.webhook ≡ some webhook
      → webhook_body tools mp webhook values ≡ ok body
      → send_webhook_alert C http tools mp alert values s ≡ (
          if get_secret_value (C.get_secret s) alert.namespace (some webhook.url_secret_ref) == ""
          then (false, s)
          else deliver C http tools
              (webhook_request webhook
                (get_secret_value (C.get_secret s) alert.namespace (some webhook.url_secret_ref))
                body)
              s)
  unfolding send_webhook_alert
  requested mp alert values s webhook body e f = rw (send_webhook_alert, e, f) refl

  no_webhook :
      (mp : MonitorPod) (alert : Alert) (values : TemplateData) (s : C.State)
      → alert.spec.webhook ≡ none
      → (send_webhook_alert C http tools mp alert values s).0 ≡ false
  unfolding send_webhook_alert
  no_webhook mp alert values s e = rw (send_webhook_alert, e) refl

  no_body :
      (mp : MonitorPod) (alert : Alert) (values : TemplateData) (s : C.State)
      (webhook : WebhookSpec) (x : Error)
      → alert.spec.webhook ≡ some webhook
      → webhook_body tools mp webhook values ≡ err x
      → (send_webhook_alert C http tools mp alert values s).0 ≡ false
  unfolding send_webhook_alert
  no_body mp alert values s webhook x e f = rw (send_webhook_alert, e, f) refl

  webhook_reached :
      (mp : MonitorPod) (alert : Alert) (values : TemplateData) (s : C.State)
      → (send_webhook_alert C http tools mp alert values s).0 ≡ true
      → WebhookReached mp alert values s
  unfolding send_webhook_alert WebhookReached webhook_request
  webhook_reached mp alert values s h = elim (Option-cases alert.spec.webhook) [
    | inl e ↦ absurd (cc (h, no_webhook mp alert values s e))
    | inr (webhook, e) ↦ elim (Result-cases (webhook_body tools mp webhook values)) [
      | inl (body, f) ↦ (
        webhook,
        body,
        e,
        f,
        (guarded _ s).0 (sym (ap (λ o. o.0) (requested mp alert values s webhook body e f)) ∙ h),
      )
      | inr (x, f) ↦ absurd (cc (h, no_body mp alert values s webhook x e f))
    ]
  ]

  -- The webhook sender reports success exactly when the channel has a webhook section, its body
  -- renders, the secret gives a URL that a request can be made for, and one of at most three attempts
  -- has a response below 400, behind attempts that failed or had one of 500 or more.
  pub send_webhook_alert-Reached :
      (mp : MonitorPod) (alert : Alert) (values : TemplateData) (s : C.State)
      → ((send_webhook_alert C http tools mp alert values s).0 ≡ true)
        ↔ WebhookReached mp alert values s
  unfolding WebhookReached webhook_request
  send_webhook_alert-Reached mp alert values s = (
    webhook_reached mp alert values s,
    λ (webhook, body, e, f, r).
        ap (λ o. o.0) (requested mp alert values s webhook body e f) ∙ (guarded _ s).1 r,
  )

  pub FeishuReached : MonitorPod → Alert → TemplateData → C.State → Type 0
  FeishuReached mp alert values s =
      (feishu : FeishuSpec) × (alert.spec.feishu ≡ some feishu)
      × Reaches
          (feishu_request
            (get_secret_value (C.get_secret s) alert.namespace (some feishu.url_secret_ref))
            (tools.marshal
              (object (feishu_payload C http tools mp alert.namespace feishu values s))))
          s

  feishu_requested :
      (mp : MonitorPod) (alert : Alert) (values : TemplateData) (s : C.State) (feishu : FeishuSpec)
      → alert.spec.feishu ≡ some feishu
      → send_feishu_alert C http tools mp alert values s ≡ (
          if get_secret_value (C.get_secret s) alert.namespace (some feishu.url_secret_ref) == ""
          then (false, s)
          else deliver C http tools
              (feishu_request
                (get_secret_value (C.get_secret s) alert.namespace (some feishu.url_secret_ref))
                (tools.marshal
                  (object (feishu_payload C http tools mp alert.namespace feishu values s))))
              s)
  unfolding send_feishu_alert
  feishu_requested mp alert values s feishu e = rw (send_feishu_alert, e) refl

  no_feishu :
      (mp : MonitorPod) (alert : Alert) (values : TemplateData) (s : C.State)
      → alert.spec.feishu ≡ none
      → (send_feishu_alert C http tools mp alert values s).0 ≡ false
  unfolding send_feishu_alert
  no_feishu mp alert values s e = rw (send_feishu_alert, e) refl

  -- The Feishu sender reports success exactly when the channel has a Feishu section, the secret gives
  -- a URL that a request can be made for, and one of at most three attempts has a response below 400,
  -- behind attempts that failed or had one of 500 or more.
  pub send_feishu_alert-Reached :
      (mp : MonitorPod) (alert : Alert) (values : TemplateData) (s : C.State)
      → ((send_feishu_alert C http tools mp alert values s).0 ≡ true)
        ↔ FeishuReached mp alert values s
  unfolding FeishuReached feishu_request
  send_feishu_alert-Reached mp alert values s = (
    λ h. elim (Option-cases alert.spec.feishu) [
      | inl e ↦ absurd (cc (h, no_feishu mp alert values s e))
      | inr (feishu, e) ↦ (
        feishu,
        e,
        (guarded _ s).0 (sym (ap (λ o. o.0) (feishu_requested mp alert values s feishu e)) ∙ h),
      )
    ],
    λ (feishu, e, r).
        ap (λ o. o.0) (feishu_requested mp alert values s feishu e) ∙ (guarded _ s).1 r,
  )
