-- ===== src/Examples/Reconciles.antt =====
-- The reconcilers over the cluster in memory.
use smart_log.Base.{String, ◌≡◌, ◌≢◌, ◌↔◌, inl, inr, refl, sym, ap, subst, true}
use smart_log.Base.{none, some, List, [], ◌∷◌, Bool-cases, &&-eq-true, ◌&&◌, ◌==◌, eq_iff}
use smart_log.Base.Dict.{lookup}
use smart_log.Errors.{ok}
use smart_log.Api.{
  NamespacedName, SecretKeySelector, Secret, Alert, AlertGroup, AiProvider, WebhookSpec,
}
use smart_log.Api.{AlertStatus-discrete, AiProviderStatus-discrete, condition_true, condition_false}
use smart_log.Examples.Shelf.{get, get_named, get-put}
use smart_log.Examples.Memory.{
  Server, empty_server, memory, memory-HasHelpers, alert_key, group_key,
}
use smart_log.Examples.Memory.{provider_key, secret_key}
use smart_log.Alerts
use smart_log.Alerts.Valid.{validate_alert-CanSend, CanSend}
use smart_log.Alerts.Ready.{StoresAlerts, reconcile_alert-Reports}
use smart_log.AiProviders
use smart_log.AiProviders.Ready.{StoresAiProviders, reconcile_provider-Reports}
use smart_log.AlertGroups.{GetAlert, validate_members}
use smart_log.AlertGroups
use smart_log.AlertGroups.Channels.{Gives, group_named, reconcile_group-Gives}
use smart_log.Targets.{get_alerts_from_target}
use smart_log.AlertGroups.Ready.{StoresAlertGroups, reconcile_group-Reports, Reports}
use smart_log.Conditions.{succeeded}

pub memory-StoresAlerts : StoresAlerts memory
memory-StoresAlerts = record {
  named = λ s key alert h. get_named alert_key s.alerts key alert h;
  stored = λ s t alert h.
      subst (λ alerts. get alert_key alerts (alert_key alert) ≡ ok alert) (ap (λ x. x.1.alerts) h)
        (get-put alert_key alert s.alerts (ap (λ x. x.0) h));
  secrets_kept = λ s t alert key h. ap (λ x. get secret_key x.1.secrets key) (sym h);
}

pub memory-StoresAiProviders : StoresAiProviders memory
memory-StoresAiProviders = record {
  named = λ s key provider h. get_named provider_key s.providers key provider h;
  stored = λ s t provider h.
      subst (λ providers. get provider_key providers (provider_key provider) ≡ ok provider)
        (ap (λ x. x.1.providers) h) (get-put provider_key provider s.providers (ap (λ x. x.0) h));
  secrets_kept = λ s t provider key h. ap (λ x. get secret_key x.1.secrets key) (sym h);
}

memory-StoresAlertGroups : StoresAlertGroups memory
memory-StoresAlertGroups = record {
  named = λ s key group h. get_named group_key s.groups key group h;
  stored = λ s t group h.
      subst (λ groups. get group_key groups (group_key group) ≡ ok group) (ap (λ x. x.1.groups) h)
        (get-put group_key group s.groups (ap (λ x. x.0) h));
  alerts_kept = λ s t group key h. ap (λ x. get alert_key x.1.alerts key) (sym h);
}

abbrev pub named : String → NamespacedName
named name = record { name = name; namespace = "default" }

abbrev pub ref : SecretKeySelector
ref = record { name = "hook"; key = "url" }

abbrev pub hook : Secret
hook = record { name = "hook"; namespace = "default"; entries = ("url", "http://hook") ∷ [] }

abbrev webhook : WebhookSpec
webhook = record { url_secret_ref = ref; headers = []; body_template = "" }

abbrev pub ops : Alert
ops = record {
  name = "ops";
  namespace = "default";
  spec = record { kind = "Webhook"; webhook = some webhook; feishu = none };
  status = record { conditions = [] };
}

-- A channel whose secret is missing.
abbrev pub dev : Alert
dev = record ops {
  name = "dev";
  spec = record {
    kind = "Webhook";
    webhook = some (record webhook { url_secret_ref = record { name = "lost"; key = "url" } });
    feishu = none;
  };
}

abbrev pub server : Server
server = record empty_server { alerts = ops ∷ dev ∷ []; secrets = hook ∷ []; time = 7 }

validate_alert-CanSend_example :
    (Alerts.validate_alert (memory.get_secret server) ops ≡ ok tt)
    ↔ CanSend (memory.get_secret server) ops
validate_alert-CanSend_example = validate_alert-CanSend (memory.get_secret server) ops

abbrev pub ops_ready : Alert
ops_ready = record ops {
  status = record {
    conditions =
        record {
          kind = "Ready";
          status = condition_true;
          reason = "ValidationSucceeded";
          text = "Alert configuration is valid";
          last_transition_time = 7;
        }
        ∷ [];
  };
}

abbrev pub server_ready : Server
server_ready = record server { alerts = ops_ready ∷ dev ∷ [] }

-- After a reconcile the channel is ready.
pub reconciled_runs : Alerts.reconcile memory (named "ops") server ≡ (none, server_ready)
unfolding Alerts.reconcile lookup AlertStatus-discrete Alerts.attempt Alerts.validate_alert
    Alerts.validate_secret_ref
reconciled_runs = refl

reconcile_alert-Reports_example :
    true ≡ succeeded (Alerts.validate_alert (memory.get_secret server_ready) ops_ready)
reconcile_alert-Reports_example =
    reconcile_alert-Reports memory memory-HasHelpers memory-StoresAlerts (named "ops") server
      server_ready ops_ready reconciled_runs refl

-- The secrets without `hook`.
abbrev pub server_lost : Server
server_lost = record server { secrets = [] }

pub secrets_elsewhere :
    (key : NamespacedName)
    → key ≢ named "hook"
    → memory.get_secret server key ≡ memory.get_secret server_lost key
secrets_elsewhere key other = elim (Bool-cases ("hook" == key.name && "default" == key.namespace)) [
  | inl h ↦
      let same = &&-eq-true ("hook" == key.name) ("default" == key.namespace) h in
      let name = (eq_iff "hook" key.name).0 same.0 in
      let namespace = (eq_iff "default" key.namespace).0 same.1 in
      absurd (other (λ i. record { name = sym name i; namespace = sym namespace i }))
  | inr h ↦ rw h
]

abbrev pub gemini : AiProvider
gemini = record {
  name = "ai";
  namespace = "default";
  spec = record {
    kind = "Gemini";
    gemini = some (record { api_key_secret_ref = ref; base_url = ""; model = "" });
    open_ai = none;
  };
  status = record { conditions = [] };
}

abbrev pub gemini_ready : AiProvider
gemini_ready = record gemini {
  status = record {
    conditions =
        record {
          kind = "Ready";
          status = condition_true;
          reason = "ValidationSucceeded";
          text = "AIProvider configuration is valid and ready";
          last_transition_time = 7;
        }
        ∷ [];
  };
}

abbrev pub asking : Server
asking = record server { providers = gemini ∷ [] }

abbrev pub asking_ready : Server
asking_ready = record server { providers = gemini_ready ∷ [] }

pub provider_runs : AiProviders.reconcile memory (named "ai") asking ≡ (none, asking_ready)
unfolding AiProviders.reconcile lookup AiProviderStatus-discrete AiProviders.attempt
    AiProviders.validate_ai_provider AiProviders.validate_secret_ref
provider_runs = refl

reconcile_provider-Reports_example :
    true
    ≡ succeeded (AiProviders.validate_ai_provider (memory.get_secret asking_ready) gemini_ready)
reconcile_provider-Reports_example =
    reconcile_provider-Reports memory memory-HasHelpers memory-StoresAiProviders (named "ai") asking
      asking_ready gemini_ready provider_runs refl

abbrev team : AlertGroup
team = record {
  name = "team";
  namespace = "default";
  spec = record { alert_names = "dev" ∷ "ops" ∷ [] };
  status = record { total_alerts = 0; ready_alerts = 0; conditions = [] };
}

abbrev grouped : Server
grouped = record server_ready { groups = team ∷ [] }

abbrev team_counted : AlertGroup
team_counted = record team {
  status = record {
    total_alerts = 2;
    ready_alerts = 0;
    conditions =
        record {
          kind = "Ready";
          status = condition_false;
          reason = "ValidationFailed";
          text = "member alert 'dev' is not ready";
          last_transition_time = 7;
        }
        ∷ [];
  };
}

abbrev grouped_counted : Server
grouped_counted = record grouped { groups = team_counted ∷ [] }

group_runs : AlertGroups.reconcile memory (named "team") grouped ≡ (none, grouped_counted)
unfolding AlertGroups.reconcile AlertGroups.validate_alert_group_members
group_runs = refl

reconcile_group-Reports_example : Reports memory (memory.get_alert grouped_counted) team_counted
reconcile_group-Reports_example =
    reconcile_group-Reports memory memory-HasHelpers memory-StoresAlertGroups (named "team") grouped
      grouped_counted team_counted group_runs refl

reconcile_group-Gives_example :
    (alerts : List Alert) × (get_alerts_from_target memory grouped_counted
        (group_named "team")
        "default"
      ≡ ok alerts)
    × Gives memory team_counted alerts
reconcile_group-Gives_example =
    reconcile_group-Gives memory memory-HasHelpers memory-StoresAlertGroups (named "team") grouped
      grouped_counted team_counted group_runs refl
