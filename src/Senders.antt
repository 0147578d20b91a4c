-- ===== src/Senders.antt =====
-- internal/controller/monitorpod_controller.go: `getSecretValue`, `sendWebhookAlert` and `sendFeishuAlert`.
-- A sender gives whether it reported success on its channel.
pub mod Deliver
use smart_log.Base.{
  ℕ, String, ◌<>◌, ◌==◌, Bool, true, false, Option, none, some, List, [], ◌∷◌, map, if◌then◌else◌,
}
use smart_log.Base.Dict
use smart_log.Errors.{Result, ok, err}
use smart_log.Api.{SecretKeySelector, Alert, WebhookSpec, FeishuSpec, MonitorPod}
use smart_log.Secrets.{GetSecret, secret_key}
use smart_log.Cluster.{Cluster}
use smart_log.Json.{Json, text, number, object, Fields, no_fields, field}
use smart_log.Templates.{TemplateData, Tools, render_alert_template}
use smart_log.FeishuCard.{build_feishu_card_payload, gen_feishu_sign}
use smart_log.Http.{Http, Request, attempts, is_settled, is_accepted}

unfoldable pub get_secret_value : GetSecret → String → Option SecretKeySelector → String
get_secret_value get namespace none = ""
get_secret_value get namespace (some selector) = elim (get (secret_key namespace selector)) [
  | err e ↦ ""
  | ok secret ↦ elim (Dict.lookup selector.key secret.entries) [ none ↦ "" | some value ↦ value ]
]

unfoldable pub webhook_request : WebhookSpec → String → String → Request
webhook_request webhook url body = record {
  url = url;
  headers = ("Content-Type", "application/json") ∷ map (λ h. (h.name, h.value)) webhook.headers;
  body = body;
}

unfoldable pub feishu_request : String → String → Request
feishu_request url body = record {
  url = url;
  headers = ("Content-Type", "application/json") ∷ [];
  body = body;
}

-- The template of the MonitorPod, or else the channel's, on the data with its log line escaped.
unfoldable pub webhook_body : Tools → MonitorPod → WebhookSpec → TemplateData → Result String
unfolding render_alert_template
webhook_body tools mp webhook values =
    let template =
      if mp.spec.alert_template == "" then webhook.body_template else mp.spec.alert_template in
    let escaped = tools.inner (tools.marshal (text values.log_line)) in
    render_alert_template tools template (record values { log_line = escaped })

add_field : String → Json → Fields → Fields
add_field key value no_fields = field key value no_fields
add_field key value (field k v fields) = field k v (add_field key value fields)

-- The payload with the two fields of the signature, when there is a key.
unfoldable pub signed : Tools → ℕ → String → Fields → Fields
unfolding gen_feishu_sign add_field
signed tools timestamp key payload =
    if key == "" then payload else elim (gen_feishu_sign tools key timestamp) [
      | err e ↦ payload
      | ok sign ↦
          add_field "sign" (text sign)
            (add_field "timestamp" (number (tools.decimal timestamp)) payload)
    ]

module _ (C : Cluster) (http : Http C.State) (tools : Tools) where
  -- The request, at most three times, and whether the last response is accepted.
  unfoldable pub deliver : Request → C.State → Bool × C.State
  deliver request s = elim (http.request_error request.url) [
    | some e ↦ (false, s)
    | none ↦ let out = attempts http is_settled request 2 0 s in (is_accepted out.0, out.1)
  ]

  unfoldable pub send_webhook_alert : MonitorPod → Alert → TemplateData → C.State → Bool × C.State
  unfolding deliver webhook_body webhook_request get_secret_value
  send_webhook_alert mp alert values s = elim alert.spec.webhook [
    | none ↦ (false, s)
    | some webhook ↦ elim (webhook_body tools mp webhook values) [
      | err e ↦ (false, s)
      | ok body ↦
          let url =
            get_secret_value (C.get_secret s) alert.namespace (some webhook.url_secret_ref) in
          if url == "" then (false, s) else deliver (webhook_request webhook url body) s
    ]
  ]

  unfoldable pub feishu_payload : MonitorPod → String → FeishuSpec → TemplateData → C.State → Fields
  unfolding signed build_feishu_card_payload get_secret_value
  feishu_payload mp namespace feishu values s =
      signed tools (tools.unix (C.clock s))
        (get_secret_value (C.get_secret s) namespace feishu.secret_key_secret_ref)
        (build_feishu_card_payload tools mp values)

  unfoldable pub send_feishu_alert : MonitorPod → Alert → TemplateData → C.State → Bool × C.State
  unfolding deliver feishu_payload feishu_request get_secret_value
  send_feishu_alert mp alert values s = elim alert.spec.feishu [
    | none ↦ (false, s)
    | some feishu ↦
        let url = get_secret_value (C.get_secret s) alert.namespace (some feishu.url_secret_ref) in
        let body = tools.marshal (object (feishu_payload mp alert.namespace feishu values s)) in
        if url == "" then (false, s) else deliver (feishu_request url body) s
  ]
