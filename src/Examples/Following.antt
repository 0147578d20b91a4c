-- ===== src/Examples/Following.antt =====
-- The monitors, their streams and the cleaner over the cluster in memory.
use smart_log.Base.{
  String, ◌==◌, ◌≡◌, refl, true, Option, none, some, List, [], ◌∷◌, length, contains, arith,
}
use smart_log.Base.{if◌then◌else◌}
use smart_log.Base.Int.{ℤ, pos}
use smart_log.Base.Dict.{lookup}
use smart_log.Api.{MonitorPod, Pod, PodPhase, running, succeeded, NamespacedName, AlertRecord}
use smart_log.Tasks.{empty_registry}
use smart_log.Tasks.Sound.{live, payloads}
use smart_log.Monitors.Latest.{registry_after, latest, monitors-latest}
use smart_log.MonitorLoop.{loop_done, current_pods}
use smart_log.MonitorLoop.Follow.{streams_after}
use smart_log.MonitorLoop.Reading.{
  Event, tick, returns, readers_after, tick_readers, reading, kept_or_one, loop_tick_exact,
}
use smart_log.MonitorLoop.Done.{loop_done_drained}
use smart_log.Cleaner.{start_cleaner}
use smart_log.Cleaner.Cycles.{Cycles, start_cleaner-Cycles}
use smart_log.Monitors
use smart_log.Monitors.Ready.{Reports, Written, reconcile_monitor-Reports}
use smart_log.Examples.Memory.{memory-HasHelpers, Server, empty_server, memory}

abbrev pub app : MonitorPod
app = record {
  name = "app";
  namespace = "default";
  spec = record {
    selector = record { match_labels = ("app", "web") ∷ []; match_expressions = [] };
    container_names = [];
    rules = [];
    alert_target = record { kind = "Alert"; name = "ops" };
    alert_template = "";
    rate_limit = none;
    multiline = none;
    record_alerts = true;
    alert_record_ttl = "72h";
    ai_enrichment = none;
  };
  status = record {
    monitored_pods_count = 0;
    monitored_pods = [];
    last_triggered_time = none;
    alerts_sent_count = 0;
    conditions = [];
  };
}

abbrev pub web : String → PodPhase → Pod
web name phase = record {
  name = name;
  namespace = "default";
  labels = ("app", "web") ∷ [];
  containers = "main" ∷ [];
  phase = phase;
}

abbrev pods : List Pod
pods = web "web-0" running ∷ web "web-1" succeeded ∷ web "web-2" running ∷ []

abbrev pub server : Server
server = record empty_server { monitors = app ∷ []; pods = pods; time = 100 }

abbrev pub app_name : NamespacedName
app_name = record { name = "app"; namespace = "default" }

abbrev history : List (NamespacedName × Server)
history = (app_name, server) ∷ (app_name, empty_server) ∷ (app_name, server) ∷ []

monitors-latest_example :
    payloads (live "default/app" (registry_after memory history).tasks)
    ≡ latest memory "default/app" history
monitors-latest_example = monitors-latest memory "default/app" history

-- Two ticks, and in between the return of the stream that the first one started last.
abbrev events : List (Event memory)
events = returns 1 ∷ tick server ∷ []

loop_tick_exact_example :
    let before = readers_after memory app events in
    let after = tick_readers memory app server before in
    let current = contains (current_pods pods) "default/web-2" in
    (length (live "default/web-2" after.entries.tasks) ≡ (if current then 1 else 0))
    × (reading "default/web-2" after ≡ (
        if current
        then kept_or_one
            (lookup "default/web-2" before.entries.cancels)
            (reading "default/web-2" before)
        else 0))
unfolding lookup
loop_tick_exact_example = loop_tick_exact memory app events server _ pods "default/web-2" refl refl

abbrev old : AlertRecord
old = record {
  name = "app-oom-1";
  generate_name = "app-oom-";
  namespace = "default";
  labels = [];
  annotations = ("smartlog.smart-tools.com/ttl", "60ns") ∷ [];
  creation_timestamp = 10;
  spec = record {
    monitor_pod_ref = record { name = "app"; namespace = "default" };
    rule_name = "oom";
    triggered_at = 10;
    source_pod = record { name = "web-0"; namespace = "default"; container = "main" };
    log_snippet = "oom";
  };
  status = record { state = "" };
}

abbrev parse : String → Option ℤ
parse t = if t == "60ns" then some (pos 60) else none

-- Two cycles, the second at a later time, and a tick after the end of the context.
abbrev turns : List (Option (Server → Server))
turns = some (λ s. s) ∷ some (λ s. record s { time = 90 }) ∷ none ∷ some (λ s. s) ∷ []

start_cleaner-Cycles_example :
    Cycles parse memory turns
      (record server { records = old ∷ [] })
      (start_cleaner parse memory turns (record server { records = old ∷ [] }))
start_cleaner-Cycles_example =
    start_cleaner-Cycles parse memory (λ s r. omega arith) turns
      (record server { records = old ∷ [] })

loop_done_drained_example :
    live "default/web-2" (loop_done (streams_after memory app (server ∷ []))).tasks ≡ []
loop_done_drained_example = loop_done_drained memory app (server ∷ []) "default/web-2"

reconcile_monitor-Reports_example :
    (updated : MonitorPod) × Reports memory server app updated
    × Written memory memory-HasHelpers server app updated
        (Monitors.reconcile memory app_name server empty_registry).1
reconcile_monitor-Reports_example =
    reconcile_monitor-Reports memory memory-HasHelpers app_name server app empty_registry refl
