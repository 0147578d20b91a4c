-- ===== src/Enrichment.antt =====
-- internal/controller/monitorpod_controller.go: `enrichWithAI`.
pub mod Asked
use smart_log.Base.{String, ◌<>◌, ◌==◌, Option, none, some, if◌then◌else◌}
use smart_log.Errors.{Error, Result, ok, err, message, wrapped}
use smart_log.Api.{AiProvider, AiEnrichmentSpec}
use smart_log.Cluster.{Cluster}
use smart_log.Templates.{TemplateData, AiData, Tools, render}
use smart_log.Http.{Http}
use smart_log.LanguageModel.{call_language_model}

abbrev default_prompt : String
default_prompt =
    "你是一位资深的 Kubernetes SRE 专家。请分析以下来自 Pod '{{ .PodName }}' (命名空间: '{{ .Namespace }}') 的错误日志。\n该日志由告警规则 '{{ .RuleName }}' 捕捉。\n\n日志内容:\n\"{{ .LogLine }}\"\n\n请提供简明的错误摘要、一个最可能的根本原因、以及三条具体的、可操作的修复建议。\n请**严格**以如下 JSON 格式返回你的分析结果，不要包含任何额外的解释或 markdown 标记:\n{\n  \"summary\": \"一句话总结错误\",\n  \"rootCause\": \"分析出的根本原因\",\n  \"suggestions\": [\"建议1\", \"建议2\", \"建议3\"]\n}"

unparsed : Error → String → Result AiData
unparsed e analysis =
    err (wrapped "failed to parse AI model response: " e (". Response: " <> analysis))

-- The text as it is, or else the code block in it; a decode that fails is taken to fill in nothing.
unfoldable pub parse_analysis : Tools → String → Result AiData
unfolding unparsed
parse_analysis tools analysis = elim (tools.decode_ai analysis) [
  | ok ai ↦ ok ai
  | err e ↦ elim (tools.code_block analysis) [
    | none ↦ unparsed e analysis
    | some block ↦ elim (tools.decode_ai block) [ ok ai ↦ ok ai | err f ↦ unparsed f analysis ]
  ]
]

unfoldable pub analysed : Tools → Result String → Result AiData
unfolding parse_analysis
analysed tools (err e) = err e
analysed tools (ok analysis) = parse_analysis tools analysis

unfoldable pub render_prompt : Tools → String → TemplateData → Result String
unfolding render
render_prompt tools prompt values =
    render tools "failed to parse AI prompt template: " "failed to execute AI prompt template: "
      (if prompt == "" then default_prompt else prompt) values

module _ (C : Cluster) (http : Http C.State) (tools : Tools) where
  unfoldable pub enrich_ready :
      AiEnrichmentSpec → AiProvider → TemplateData → C.State → Option (Result AiData × C.State)
  unfolding render_prompt analysed
  enrich_ready ai provider values s = elim (render_prompt tools ai.prompt values) [
    | err e ↦ some (err e, s)
    | ok prompt ↦ elim (call_language_model C http tools provider prompt s) [
      | none ↦ none
      | some answer ↦ some (analysed tools answer.0, answer.1)
    ]
  ]

  unfoldable pub enrich_with_ai :
      String → AiEnrichmentSpec → TemplateData → C.State → Option (Result AiData × C.State)
  unfolding enrich_ready
  enrich_with_ai namespace ai values s =
      elim (C.get_ai_provider s (record { name = ai.provider_ref.name; namespace = namespace })) [
        | err e ↦ some (
          err (
              wrapped ("failed to get referenced AIProvider " <> (ai.provider_ref.name <> ": ")) e
                ""),
          s,
        )
        | ok provider ↦
            if C.is_status_condition_true provider.status.conditions "Ready"
            then enrich_ready ai provider values s
            else some
                (err (message ("referenced AIProvider " <> (provider.name <> " is not ready"))), s)
      ]
