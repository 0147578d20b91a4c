-- ===== src/Examples/Sending.antt =====
-- The senders and the dispatch over the cluster in memory and an HTTP client that always gets an answer.
use smart_log.Base.{refl, zero, suc, ◌≡◌, ◌⊎◌, ◌↔◌, true, none, some, [], ◌∷◌, Member}
use smart_log.Base.Int.{ℤ, pos}
use smart_log.Errors.{Error, Result, ok, err, message}
use smart_log.Api.{
  MonitorPod, LogRule, AlertRecord, Alert, AiProvider, AiEnrichmentSpec, condition_true, running,
}
use smart_log.Templates.{TemplateData, Tools}
use smart_log.Http.{Http, Request}
use smart_log.Dispatcher.Panics.{Sectionless, enrich_with_ai-Sectionless}
use smart_log.Enrichment.{enrich_with_ai, enrich_ready, render_prompt}
use smart_log.Templates.{render}
use smart_log.LanguageModel.{call_language_model, model_call}
use smart_log.FeishuCard.{build_feishu_card_payload}
use smart_log.FeishuCard.Readable.{read_card, analysis_of, read_card-build_feishu_card_payload}
use smart_log.Senders.{send_webhook_alert}
use smart_log.Senders.Deliver.{WebhookReached, send_webhook_alert-Reached}
use smart_log.Targets.{ready_members}
use smart_log.Targets.Chosen.{Chosen, ready_members-Chosen}
use smart_log.Dispatcher.{register, count_alert}
use smart_log.Dispatcher.Counted.{Counted, register-Counted}
use smart_log.Examples.Memory.{Server, empty_server, memory, memory-HasHelpers}
use smart_log.Examples.Following.{app, web, server, app_name}

-- A client whose first two attempts get a 503.
abbrev pub flaky : Http Server
flaky = record {
  send = λ s request. (
    ok (record { status_code = elim s.time [ zero ↦ 503 | suc n ↦ 200 ]; status = ""; body = "" }),
    s,
  );
  sleep = λ n s. record s { time = n };
  request_error = λ url. none;
}

abbrev pub tools : Tools
tools = record {
  parse_template = λ t. ok (λ values. ok values.log_line);
  marshal = λ j. "{}";
  inner = λ t. t;
  decode = λ t. err (message "no object");
  decode_ai = λ t. err (message "no analysis");
  code_block = λ t. none;
  parse_duration = λ t. none;
  decimal = λ n. "1";
  unix = λ t. t;
  format_time = λ t. "now";
  hmac = λ key values. key;
  base64 = λ t. t;
  runes = λ t. [];
  of_runes = λ cs. "rule";
  unicode_lower = λ c. c;
}

abbrev pub request : Request
request = record { url = "http://hook"; headers = []; body = "{}" }

abbrev pub values : TemplateData
values = record {
  pod_name = "web-0";
  namespace = "default";
  container_name = "main";
  log_line = "oom";
  rule_name = "oom";
  timestamp = 0;
  ai = none;
}

abbrev pub ops : Alert
ops = record {
  name = "ops";
  namespace = "default";
  spec = record {
    kind = "Webhook";
    webhook = some (record {
      url_secret_ref = record { name = "hook"; key = "url" };
      headers = [];
      body_template = "";
    });
    feishu = some (record {
      url_secret_ref = record { name = "hook"; key = "url" };
      secret_key_secret_ref = none;
    });
  };
  status = record {
    conditions =
        record {
          kind = "Ready";
          status = condition_true;
          reason = "";
          text = "";
          last_transition_time = 0;
        }
        ∷ [];
  };
}

abbrev pub hooked : Server
hooked = record empty_server {
  alerts = ops ∷ [];
  secrets =
      record { name = "hook"; namespace = "default"; entries = ("url", "http://hook") ∷ [] } ∷ [];
}

send_webhook_alert-Reached_example :
    ((send_webhook_alert memory flaky tools app ops values hooked).0 ≡ true)
    ↔ WebhookReached memory flaky tools app ops values hooked
send_webhook_alert-Reached_example =
    send_webhook_alert-Reached memory flaky tools app ops values hooked

ready_members-Chosen_example :
    Member ops (ready_members memory hooked "default" ("gone" ∷ "ops" ∷ []))
    ↔ Chosen memory hooked "default" ("gone" ∷ "ops" ∷ []) ops
ready_members-Chosen_example =
    ready_members-Chosen memory hooked "default" ("gone" ∷ "ops" ∷ []) ops

abbrev pub set_owner : MonitorPod → AlertRecord → Result AlertRecord
set_owner mp alert_record = ok alert_record

abbrev pub ai_http : ℤ → Http Server
ai_http timeout = flaky

abbrev pub oom : LogRule
oom = record { name = "oom"; regex = "oom"; exclude_regex = "" }

register-Counted_example :
    Counted memory flaky ai_http tools set_owner app_name (
      register memory flaky ai_http tools set_owner app
        (web "web-0" running)
        oom
        "main"
        "oom"
        server)
    ⊎ ((e : Error) × (t : Server) × (count_alert memory flaky ai_http tools set_owner app_name t ≡ (
      some e,
      register memory flaky ai_http tools set_owner app
          (web "web-0" running)
          oom
          "main"
          "oom"
          server,
    )))
register-Counted_example =
    register-Counted memory flaky ai_http tools set_owner memory-HasHelpers app
      (web "web-0" running) oom "main" "oom" server

abbrev pub bare : AiProvider
bare = record {
  name = "bare";
  namespace = "default";
  spec = record { kind = "Gemini"; gemini = none; open_ai = none };
  status = record { conditions = ops.status.conditions };
}

abbrev asking : AiEnrichmentSpec
asking = record {
  enabled = true;
  provider_ref = record { name = "bare" };
  prompt = "why";
  timeout = "";
}

enrich_with_ai-Sectionless_example :
    (provider : AiProvider) × (memory.get_ai_provider
        (record empty_server { providers = bare ∷ [] })
        (record { name = "bare"; namespace = "default" })
      ≡ ok provider)
    × (memory.is_status_condition_true provider.status.conditions "Ready" ≡ true)
    × Sectionless provider
unfolding enrich_with_ai enrich_ready render_prompt render call_language_model model_call
enrich_with_ai-Sectionless_example =
    enrich_with_ai-Sectionless memory flaky tools "default" asking values
      (record empty_server { providers = bare ∷ [] }) refl

abbrev pub limited : MonitorPod
limited = record app {
  spec = record app.spec { rate_limit = some (record { period = "1m"; limit = pos 1 }) };
}

-- An analysis whose summary looks like a part of the card.
abbrev analysed_values : TemplateData
analysed_values = record values {
  ai = some (record { summary = "**</font>"; root_cause = "memory"; suggestions = "restart" ∷ [] });
}

read_card-build_feishu_card_payload_example :
    read_card (build_feishu_card_payload tools app analysed_values) ≡ record {
      rule_name = analysed_values.rule_name;
      monitor = app.name;
      pod_name = analysed_values.pod_name;
      container_name = analysed_values.container_name;
      namespace = analysed_values.namespace;
      log_line = analysed_values.log_line;
      time = tools.format_time analysed_values.timestamp;
      analysis = analysis_of analysed_values.ai;
    }
read_card-build_feishu_card_payload_example =
    read_card-build_feishu_card_payload tools app analysed_values
