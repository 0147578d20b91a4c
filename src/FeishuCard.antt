-- ===== src/FeishuCard.antt =====
-- internal/controller/monitorpod_controller.go: `buildFeishuCardPayload`, `buildAIElements` and `genFeishuSign`.
pub mod Readable
use smart_log.Base.{
  ℕ, suc, String, ◌<>◌, Bool, true, false, Option, none, some, List, [], ◌∷◌, ◌++◌,
}
use smart_log.Json.{Json, boolean, text, array_of, object, Fields, no_fields, field}
use smart_log.Errors.{Result, ok}
use smart_log.Api.{MonitorPod}
use smart_log.Templates.{AiData, TemplateData, Tools}

-- `map[string]string{"tag": ..., "content": ...}`
unfoldable pub tagged : String → String → Json
tagged tag content = object (field "tag" (text tag) (field "content" (text content) no_fields))

unfoldable pub rule_line : Json
rule_line = object (field "tag" (text "hr") no_fields)

unfoldable pub short_field : Bool → String → Json
unfolding tagged
short_field is_short content =
    object (field "is_short" (boolean is_short) (field "text" (tagged "lark_md" content) no_fields))

unfoldable pub text_block : String → Json
unfolding tagged
text_block content =
    object (field "tag" (text "div") (field "text" (tagged "lark_md" content) no_fields))

unfoldable pub fields_block : List Json → Json
fields_block fields = object (field "tag" (text "div") (field "fields" (array_of fields) no_fields))

-- The suggestions from a number on, each on a line.
unfoldable pub suggestion_lines : (ℕ → String) → ℕ → List String → String
suggestion_lines decimal n [] = ""
suggestion_lines decimal n (s ∷ suggestions) =
    ("\n> " <> (decimal n <> (". " <> s))) <> suggestion_lines decimal (suc n) suggestions

unfoldable pub build_ai_elements : (ℕ → String) → AiData → List Json
unfolding suggestion_lines rule_line text_block fields_block short_field
build_ai_elements decimal ai =
    rule_line
    ∷ text_block "**🤖 AI 智能分析**"
    ∷ fields_block (
        short_field false ("**摘要:**\n" <> ai.summary)
        ∷ short_field false ("**根本原因:**\n" <> ai.root_cause)
        ∷ short_field false ("**修复建议:**" <> suggestion_lines decimal 1 ai.suggestions)
        ∷ [])
    ∷ []

bold : String → String → String
bold label value = label <> (" **" <> (value <> "**"))

unfoldable pub base_elements : MonitorPod → TemplateData → List Json
unfolding rule_line text_block fields_block short_field bold
base_elements mp values =
    fields_block (
      short_field true "**🔈 通知人员:** <at id=all></at>"
      ∷ short_field true (bold "**📝 告警规则:**" values.rule_name)
      ∷ short_field true (bold "**📄 监控任务:**" mp.name)
      ∷ short_field true (bold "**📦 Pod:**" values.pod_name)
      ∷ short_field true (bold "**🖥\u{fe0f} 容器:**" values.container_name)
      ∷ short_field false (bold "**🌐 命名空间:**" values.namespace)
      ∷ [])
    ∷ rule_line
    ∷ text_block ("**📑 日志内容:** \n\n<font color='red'>" <> (values.log_line <> "</font>\n"))
    ∷ []

unfoldable pub ai_elements : (ℕ → String) → Option AiData → List Json
unfolding build_ai_elements
ai_elements decimal none = []
ai_elements decimal (some ai) = build_ai_elements decimal ai

unfoldable pub final_elements : String → List Json
unfolding rule_line tagged
final_elements time =
    rule_line
    ∷ object (
        field "tag" (text "note")
          (field "elements" (array_of (tagged "plain_text" ("触发于: " <> time) ∷ [])) no_fields))
    ∷ []

unfoldable pub build_feishu_card_payload : Tools → MonitorPod → TemplateData → Fields
unfolding base_elements ai_elements final_elements tagged
build_feishu_card_payload tools mp values =
    let elements =
      base_elements mp values
      ++ (ai_elements tools.decimal values.ai
          ++ final_elements (tools.format_time values.timestamp)) in
    let config = object (field "wide_screen_mode" (boolean true) no_fields) in
    let header = object (
      field "title" (tagged "plain_text" "🔥 Smart-Log 实时告警")
        (field "template" (text "red") no_fields)) in
    field "msg_type" (text "interactive") (
      field "card"
        (object (
          field "config" config
            (field "header" header (field "elements" (array_of elements) no_fields))))
        no_fields)

-- The key is the timestamp and the secret; nothing is written to the hash, so it cannot fail.
unfoldable pub gen_feishu_sign : Tools → String → ℕ → Result String
gen_feishu_sign tools secret timestamp =
    ok (tools.base64 (tools.hmac (tools.decimal timestamp <> ("\n" <> secret)) ""))
