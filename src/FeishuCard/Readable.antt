-- ===== src/FeishuCard/Readable.antt =====
-- What can be read back from a card.
use Prim.Native.String.{[] as no_text, ◌∷◌ as ◌▸◌}
use Prim.Native.String.append
use smart_log.Base.{
  ℕ, zero, suc, ◌+◌, String, ◌<>◌, ◌==◌, eq_iff, ◌≡◌, refl, ap, ◌∙◌, Bool-cases, Option, none, some,
  inl, inr, if◌then◌else◌, arith,
}
use smart_log.Json.{
  Json, null, boolean, number, text, array, object, Items, no_items, item, Fields, field_value,
}
use smart_log.Api.{MonitorPod}
use smart_log.Templates.{AiData, TemplateData, Tools}
use smart_log.FeishuCard.{build_feishu_card_payload}

-- The text behind a prefix.
unfoldable pub behind : String → String → String
behind no_text s = s
behind (c ▸ p) no_text = no_text
behind (c ▸ p) (d ▸ s) = behind p s

-- The text before an end.
unfoldable pub before : String → String → String
before end no_text = no_text
before end (c ▸ s) = let rest = before end s in if (c ▸ s) == end then no_text else c ▸ rest

behind-append : (p s : String) → behind p (p <> s) ≡ s
unfolding behind
behind-append no_text s = rw append.nil refl
behind-append (c ▸ p) s = rw append.cons (behind-append p s)

text_length : String → ℕ
text_length no_text = 0
text_length (c ▸ s) = suc (text_length s)

text_length-append : (s t : String) → text_length (s <> t) ≡ text_length s + text_length t
unfolding text_length
text_length-append no_text t = rw append.nil (omega arith)
text_length-append (c ▸ s) t = rw append.cons (omega (arith, text_length-append s t))

before-itself : (end : String) → before end end ≡ no_text
unfolding before
before-itself no_text = refl
before-itself (c ▸ s) = rw ((eq_iff (c ▸ s) (c ▸ s)).1 refl) refl

before-append : (end s : String) → before end (s <> end) ≡ s
unfolding before text_length
before-append end no_text = rw append.nil (before-itself end)
before-append end (c ▸ s) = rw append.cons (elim (Bool-cases ((c ▸ (s <> end)) == end)) [
  | inl same ↦ absurd (
      omega
        (arith, text_length-append s end, ap text_length ((eq_iff (c ▸ (s <> end)) end).0 same)))
  | inr differ ↦ rw differ (ap (λ rest. c ▸ rest) (before-append end s))
])

-- `x` from `label **x**`.
unfoldable pub bold_in : String → String → String
unfolding behind before
bold_in label s = before "**" (behind " **" (behind label s))

bold_in-bold : (label x : String) → bold_in label (label <> (" **" <> (x <> "**"))) ≡ x
unfolding bold_in
bold_in-bold label x =
    ap (λ s. before "**" (behind " **" s)) (behind-append label _)
    ∙ ap (before "**") {y = x <> "**"} (behind-append " **" _)
    ∙ before-append "**" x

-- `v[key]` and `v[i]`, and a text.
unfoldable pub get : String → Json → Json
get key (object fields) = field_value key fields
get key v = null

nth_item : ℕ → Items → Json
nth_item n no_items = null
nth_item zero (item v vs) = v
nth_item (suc n) (item v vs) = nth_item n vs

unfoldable pub nth : ℕ → Json → Json
unfolding nth_item
nth n (array vs) = nth_item n vs
nth n v = null

unfoldable pub text_in : Json → String
text_in (text t) = t
text_in v = ""

-- The content of the text of an element, and of one of its fields.
abbrev content : Json → String
content v = text_in (get "content" (get "text" v))

abbrev field_content : ℕ → Json → String
field_content n v = content (nth n (get "fields" v))

pub record CardFacts : Type 0 where
  pub rule_name : String
  pub monitor : String
  pub pod_name : String
  pub container_name : String
  pub namespace : String
  pub log_line : String
  pub time : String
  pub analysis : Option (String × String)

-- The summary and the root cause, when there is a sixth element.
read_analysis : Json → Option (String × String)
read_analysis elements = elim (nth 5 elements) [
  | null ↦ none
  | boolean b ↦ none
  | number n ↦ none
  | text t ↦ none
  | array vs ↦ none
  | object fields ↦ some (
    behind "**摘要:**\n" (field_content 0 (object fields)),
    behind "**根本原因:**\n" (field_content 1 (object fields)),
  )
]

note_content : Json → String
note_content v = behind "触发于: " (text_in (get "content" (nth 0 (get "elements" v))))

unfoldable pub read_card : Fields → CardFacts
unfolding read_analysis note_content
read_card payload =
    let elements = get "elements" (field_value "card" payload) in
    let facts = nth 0 elements in
    let analysis = read_analysis elements in
    record {
      rule_name = bold_in "**📝 告警规则:**" (field_content 1 facts);
      monitor = bold_in "**📄 监控任务:**" (field_content 2 facts);
      pod_name = bold_in "**📦 Pod:**" (field_content 3 facts);
      container_name = bold_in "**🖥\u{fe0f} 容器:**" (field_content 4 facts);
      namespace = bold_in "**🌐 命名空间:**" (field_content 5 facts);
      log_line =
          before "</font>\n"
            (behind "**📑 日志内容:** \n\n<font color='red'>" (content (nth 2 elements)));
      time = elim analysis [
        | none ↦ note_content (nth 4 elements)
        | some a ↦ note_content (nth 7 elements)
      ];
      analysis = analysis;
    }

abbrev pub told : AiData → String × String
told ai = (ai.summary, ai.root_cause)

abbrev pub analysis_of : Option AiData → Option (String × String)
analysis_of none = none
analysis_of (some ai) = some (told ai)

facts_with : Tools → MonitorPod → TemplateData → Option AiData → CardFacts
facts_with tools mp values ai = record {
  rule_name = values.rule_name;
  monitor = mp.name;
  pod_name = values.pod_name;
  container_name = values.container_name;
  namespace = values.namespace;
  log_line = values.log_line;
  time = tools.format_time values.timestamp;
  analysis = analysis_of ai;
}

log_line-read :
    (line : String)
    → before "</font>\n" (
        behind "**📑 日志内容:** \n\n<font color='red'>"
          ("**📑 日志内容:** \n\n<font color='red'>" <> (line <> "</font>\n")))
      ≡ line
log_line-read line =
    ap (before "</font>\n") {y = line <> "</font>\n"} (behind-append _ _)
    ∙ before-append "</font>\n" line

read_with :
    (tools : Tools) (mp : MonitorPod) (values : TemplateData) (ai : Option AiData)
    → read_card (build_feishu_card_payload tools mp (record values { ai = ai }))
      ≡ facts_with tools mp values ai
unfolding read_card build_feishu_card_payload text_in nth get field_value facts_with
read_with tools mp values none = λ i. record {
  rule_name = bold_in-bold "**📝 告警规则:**" values.rule_name i;
  monitor = bold_in-bold "**📄 监控任务:**" mp.name i;
  pod_name = bold_in-bold "**📦 Pod:**" values.pod_name i;
  container_name = bold_in-bold "**🖥\u{fe0f} 容器:**" values.container_name i;
  namespace = bold_in-bold "**🌐 命名空间:**" values.namespace i;
  log_line = log_line-read values.log_line i;
  time = behind-append "触发于: " (tools.format_time values.timestamp) i;
  analysis = none;
}
read_with tools mp values (some ai) = λ i. record {
  rule_name = bold_in-bold "**📝 告警规则:**" values.rule_name i;
  monitor = bold_in-bold "**📄 监控任务:**" mp.name i;
  pod_name = bold_in-bold "**📦 Pod:**" values.pod_name i;
  container_name = bold_in-bold "**🖥\u{fe0f} 容器:**" values.container_name i;
  namespace = bold_in-bold "**🌐 命名空间:**" values.namespace i;
  log_line = log_line-read values.log_line i;
  time = behind-append "触发于: " (tools.format_time values.timestamp) i;
  analysis =
      some (behind-append "**摘要:**\n" ai.summary i, behind-append "**根本原因:**\n" ai.root_cause i);
}

-- Whatever the event, and whatever its texts hold, its card reads back as the rule, the MonitorPod, the
-- pod, the container, the namespace, the line, the time as it is printed, and, when there is an
-- analysis, its summary and root cause.
pub read_card-build_feishu_card_payload :
    (tools : Tools) (mp : MonitorPod) (values : TemplateData)
    → read_card (build_feishu_card_payload tools mp values) ≡ record {
      rule_name = values.rule_name;
      monitor = mp.name;
      pod_name = values.pod_name;
      container_name = values.container_name;
      namespace = values.namespace;
      log_line = values.log_line;
      time = tools.format_time values.timestamp;
      analysis = analysis_of values.ai;
    }
unfolding facts_with
read_card-build_feishu_card_payload tools mp values = read_with tools mp values values.ai
