-- ===== src/Examples/Channels.antt =====
-- From the reconciles of an alert and of a provider to a dispatch, over the cluster in memory.
use smart_log.Base.{◌≡◌, ◌≢◌, none, true, ◌⊎◌, refl, some, [], ◌∷◌}
use smart_log.Errors.{Error, err}
use smart_log.Api.{running, AiEnrichmentSpec}
use smart_log.AiProviders.Valid.{CanAsk}
use smart_log.Enrichment.{enrich_with_ai}
use smart_log.Enrichment.Asked.{Asked}
use smart_log.Dispatcher.Analysed.{reconcile_provider-enrich_with_ai}
use smart_log.Alerts.Valid.{CanSend}
use smart_log.Dispatcher.{notify_target, notify}
use smart_log.Dispatcher.Channels.{reconcile_alert-notify_target}
use smart_log.Examples.Memory.{memory, memory-HasHelpers}
use smart_log.Examples.Following.{app, web}
use smart_log.Examples.Reconciles.{
  memory-StoresAlerts, named, server, server_ready, ops_ready, reconciled_runs,
  memory-StoresAiProviders, asking, asking_ready, gemini_ready, provider_runs,
}
use smart_log.Examples.Sending.{flaky, ai_http, tools, set_owner, oom, values}

reconcile_alert-notify_target_example :
    let out =
      notify_target memory flaky ai_http tools set_owner app
        (web "web-0" running)
        oom
        "main"
        "oom"
        server_ready in
    (CanSend (memory.get_secret server_ready) ops_ready
      × (out
          ≡ notify memory flaky ai_http tools set_owner app
              (web "web-0" running)
              oom
              "main"
              "oom"
              (ops_ready ∷ [])
              server_ready))
    ⊎ ((CanSend (memory.get_secret server_ready) ops_ready → ⊥) × (out ≡ some server_ready))
reconcile_alert-notify_target_example =
    reconcile_alert-notify_target memory memory-HasHelpers memory-StoresAlerts flaky ai_http tools
      set_owner (named "ops") server server_ready ops_ready app (web "web-0" running) oom "main"
      "oom" reconciled_runs refl refl refl

abbrev explained : AiEnrichmentSpec
explained = record {
  enabled = true;
  provider_ref = record { name = "ai" };
  prompt = "why";
  timeout = "";
}

reconcile_provider-enrich_with_ai_example :
    let out = enrich_with_ai memory flaky tools "default" explained values asking_ready in
    (CanAsk (memory.get_secret asking_ready) gemini_ready
      × (out ≢ none)
      × Asked memory flaky tools asking_ready explained gemini_ready values out)
    ⊎ ((CanAsk (memory.get_secret asking_ready) gemini_ready → ⊥)
        × (x : Error) × (out ≡ some (err x, asking_ready)))
reconcile_provider-enrich_with_ai_example =
    reconcile_provider-enrich_with_ai memory memory-HasHelpers memory-StoresAiProviders flaky tools
      "default" explained values asking asking_ready gemini_ready provider_runs refl
