-- ===== src/Lib.antt =====
-- smart-log: a Kubernetes operator that follows the logs of pods and sends alerts.
--
-- The program. Five custom resources (api/v1alpha1) describe the channels (Alert, AlertGroup), the
-- language models (AIProvider), the pods and rules to watch (MonitorPod) and the alerts that were sent
-- (AlertRecord). Reconcilers (internal/controller) validate the first three and report a Ready
-- condition. The MonitorPod reconciler hands each MonitorPod to the MonitorManager, which runs a loop
-- that follows the logs of the running pods; each log is cut into events, an event that fits a rule is
-- dispatched, and the dispatch passes the rate limiter, resolves the target to ready channels, asks the
-- language model for an analysis if that is enabled, sends, and counts and records the alert. A cleaner
-- deletes expired records.
--
-- Files and code. MP is internal/controller/monitorpod_controller.go.
--   Api          api/v1alpha1/*_types.go, and the types of Kubernetes that they use
--   Cluster      the interface of the API server and of apimachinery's helpers, with their documents
--   Errors       Go's error values; Secrets: references to secrets
--   Alerts       internal/controller/alert_controller.go: Reconcile is `reconcile`, validateAlert is
--                `validate_alert`, findAlertsForSecret is `find_alerts_for_secret`
--   AlertGroups  internal/controller/alertgroup_controller.go, likewise
--   AiProviders  internal/controller/aiprovider_controller.go, likewise
--   Conditions   the Ready condition that the Alert and AIProvider reconcilers set
--   RateLimiter  MP, InMemoryRateLimiter.Allow is `allow`
--   Names        MP, sanitizeForKubernetes
--   Tasks        MP, a map of cancel functions with the goroutines under it
--   Monitors     MP, NewMonitorManager, MonitorManager.StartOrUpdateMonitor and StopMonitor,
--                MonitorPodReconciler.Reconcile and findMonitorPodsForPod
--   MonitorLoop  MP, runMonitorLoop: a tick is `loop_tick`, the end of the context is `loop_done`, and a
--                stream of streamPodLogs that returns by itself is `stream_returns`, in MonitorLoop.Reading
--   Stream       MP, streamPodLogs: `stream_loop` runs over the turns of its select loop
--   Dispatcher   MP, dispatchAlert; Dispatcher.Threads: its goroutines, in any order
--   Pipeline     MP, the goroutines that the streams of a MonitorPod start, as calls of dispatchAlert
--   Targets      MP, getAlertsFromTarget
--   Templates    MP, renderAlertTemplate, AIData and TemplateData
--   FeishuCard   MP, buildFeishuCardPayload, buildAIElements and genFeishuSign
--   Http         MP, the loop of three attempts that the three senders of requests each write out
--   Senders      MP, getSecretValue, sendWebhookAlert and sendFeishuAlert
--   LanguageModel, Enrichment   MP, callLanguageModel and enrichWithAI; Json: decoded JSON
--   Cleaner      internal/controller/alertrecord_cleaner.go, cleanup and Start
--   Startup      cmd/main.go from the parsed flags on: `main`, with the options of the two servers
--   Slices       Go's slices in a heap of arrays, for the options that the two servers share
--   DeepCopy     api/v1alpha1/zz_generated.deepcopy.go: the structs in memory (Structs), the methods
--                DeepCopyInto (Specs, Objects), DeepCopy (Pointed) and DeepCopyObject (RuntimeObjects)
--   Copies       the reconcilers of alerts and of providers, with the copies of their statuses in that heap
--   Controllers  the SetupWithManager methods: the kind of a controller, and what its watch calls
--   Base, Examples   shared helpers, and a cluster in memory with the theorems at concrete data
--
-- State and concurrency. State is passed explicitly: the state of the API server (and of the network)
-- is the type `State` of a `Cluster`, on which nothing is assumed but what a theorem names. A theorem
-- about a history takes each step in a state of its own, so other clients may write in between. Calls
-- under a mutex are single steps. `dispatch_alert` runs the goroutines of a dispatch one after the
-- other, in the order of the channels; Dispatcher.Threads has every order, as a relation between the
-- goroutines, the length of the channel that collects the successes, and the state, in which a step
-- builds a request, makes one attempt, or reports. A goroutine's context is a handle; a goroutine is
-- live while it is not cancelled, and the streams that returned by themselves are kept apart, as the
-- loop never learns of them. The reads of the controllers are taken to be of the server: a cache
-- behind the client, which may be older, is not modelled. A dispatch passes one instant for both of the
-- limiter's readings of the clock.
--
-- Loops and bounds. All functions are total. The attempts of a request count down from 2, those that may
-- follow the first of `maxRetries = 3`; RetryOnConflict is a parameter whose document allows five runs.
-- Instants and durations are nanoseconds, the latter signed; the overflow of time.Duration and the
-- wrap-around of the alert counter are not modelled.
--
-- Parameters. The API server, net/http, text/template, encoding/json, regexp, time.ParseDuration, HMAC and
-- base64, `unicode.ToLower` outside ASCII, SetControllerReference, kubernetes.NewForConfig, and the types of
-- the Kubernetes API with their own deep copies are parameters.
--
-- The functions of the framework that main calls are parameters too, as is the growth of arrays in the
-- runtime; Go's `append` is written out over a heap, since the options of the two servers share a slice.
--
-- Not modelled. Of cmd/main.go, the parsing of the flags and the logger; the queues of the framework behind
-- the controllers; the registration of the types in groupversion_info.go; logging has no effect; test/ and
-- vendor/ are no part of the program.
pub mod Base
pub mod Errors
pub mod Api
pub mod Cluster
pub mod RateLimiter
pub mod Names
pub mod Conditions
pub mod Secrets
pub mod Alerts
pub mod AiProviders
pub mod AlertGroups
pub mod Slices
pub mod DeepCopy
pub mod Copies
pub mod Startup
pub mod Controllers
pub mod Stream
pub mod Tasks
pub mod Monitors
pub mod MonitorLoop
pub mod Cleaner
pub mod Http
pub mod Json
pub mod Templates
pub mod FeishuCard
pub mod Senders
pub mod Targets
pub mod LanguageModel
pub mod Enrichment
pub mod Dispatcher
pub mod Pipeline
mod Examples
