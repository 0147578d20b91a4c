-- ===== src/Templates.antt =====
-- internal/controller/monitorpod_controller.go: `TemplateData`, `AIData` and `renderAlertTemplate`, and what the
-- senders use of Go's standard library.
use smart_log.Base.{ℕ, String, ◌==◌, Option, List, if◌then◌else◌}
use smart_log.Base.Int.{ℤ}
use smart_log.Errors.{Result, ok, err, wrapped}
use smart_log.Json.{Json, Fields}

pub record AiData : Type 0 where
  pub summary : String
  pub root_cause : String
  pub suggestions : List String

pub record TemplateData : Type 0 where
  pub pod_name : String
  pub namespace : String
  pub container_name : String
  pub log_line : String
  pub rule_name : String
  pub timestamp : ℕ
  pub ai : Option AiData

-- Functions of the standard library.
pub record Tools : Type 0 where
  -- `template.New(name).Parse(text)`, and `Execute` on the data.
  pub parse_template : String → Result (TemplateData → Result String)
  -- `json.Marshal`, and its text without the first and the last byte.
  pub marshal : Json → String
  pub inner : String → String
  -- `json.Decode` into a map, and `json.Unmarshal` into an empty `AIData`.
  pub decode : String → Result Fields
  pub decode_ai : String → Result AiData
  -- The first group of the match of "(?s)```json\n(.*?)\n```".
  pub code_block : String → Option String
  -- `time.ParseDuration`, and `%d` of a number.
  pub parse_duration : String → Option ℤ
  pub decimal : ℕ → String
  -- `Time.Unix` and `Format("2006-01-02 15:04:05")` of an instant.
  pub unix : ℕ → ℕ
  pub format_time : ℕ → String
  -- HMAC-SHA256 of a key and data, and standard base64.
  pub hmac : String → String → String
  pub base64 : String → String
  -- A text as its code points, back, and `unicode.ToLower` outside ASCII.
  pub runes : String → List ℕ
  pub of_runes : List ℕ → String
  pub unicode_lower : ℕ → ℕ

abbrev pub default_template : String
default_template =
    "{\"pod\":\"{{.PodName}}\",\"namespace\":\"{{.Namespace}}\",\"container\":\"{{.ContainerName}}\",\"rule\":\"{{.RuleName}}\",\"log\":\"{{.LogLine}}\",\"timestamp\":\"{{.Timestamp.Format \"2006-01-02T15:04:05Z07:00\"}}\"}"

-- Parse, then execute, each with its error wrapped.
unfoldable pub render : Tools → String → String → String → TemplateData → Result String
render tools parse_failed execute_failed template values = elim (tools.parse_template template) [
  | err e ↦ err (wrapped parse_failed e "")
  | ok execute ↦ elim (execute values) [
    | err e ↦ err (wrapped execute_failed e "")
    | ok output ↦ ok output
  ]
]

unfoldable pub render_alert_template : Tools → String → TemplateData → Result String
unfolding render
render_alert_template tools template values =
    render tools "failed to parse alert template: " "failed to execute alert template: "
      (if template == "" then default_template else template) values
