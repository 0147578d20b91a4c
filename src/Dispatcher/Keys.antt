-- ===== src/Dispatcher/Keys.antt =====
-- The keys of the rate limiter: namespace, name and rule, with slashes between them.
use Prim.Native.Char.{code}
use Prim.Native.String.{[] as no_text, ◌∷◌ as ◌▸◌}
use Prim.Native.String.append
use smart_log.Base.{String, ◌<>◌, ◌≡◌, refl, false, Option, none, some, eqb, if◌then◌else◌, ap}
use mathlib.Core.Option.{some-injective}
use smart_log.Base.{ℕ, sym, ◌∙◌, ◌==◌, Bool-cases, Option-cases, eq_cases, inl, inr}
use smart_log.Base.Int.{ltb_ℤ, pos}
use smart_log.Base.Dict.{lookup}
use smart_log.Api.{MonitorPod, LogRule}
use smart_log.RateLimiter.{InMemoryRateLimiter}
use smart_log.RateLimiter.Cell.{allow-admit}
use smart_log.Templates.{Tools}
use smart_log.Dispatcher.{rate_limit_key, limit_period, check_rate}

-- What stands before the first slash, and what stands behind it.
unfoldable pub split_slash : String → Option (String × String)
split_slash no_text = none
split_slash (c ▸ s) =
    let rest = split_slash s in
    if eqb (code c) b'/'
    then some (no_text, s)
    else elim rest [ none ↦ none | some parts ↦ some (c ▸ parts.0, parts.1) ]

-- The names of Kubernetes objects and namespaces have no slash.
abbrev pub NoSlash : String → Type 0
NoSlash no_text = Unit
NoSlash (c ▸ s) = (eqb (code c) b'/' ≡ false) × NoSlash s

split_slash-append : (s t : String) → NoSlash s → split_slash (s <> ("/" <> t)) ≡ some (s, t)
unfolding split_slash
split_slash-append no_text t h = rw (append.nil, append.cons, append.nil) refl
split_slash-append (c ▸ s) t (here, h) =
    rw (append.cons, split_slash, here, split_slash-append s t h) refl

unfoldable pub split_key : String → Option (String × String × String)
unfolding split_slash
split_key key = elim (split_slash key) [
  | none ↦ none
  | some (namespace, rest) ↦ elim (split_slash rest) [
    | none ↦ none
    | some (name, rule) ↦ some (namespace, name, rule)
  ]
]

-- A namespace and a name without slashes.
abbrev pub Named : MonitorPod → Type 0
Named mp = NoSlash mp.namespace × NoSlash mp.name

-- When the MonitorPod's namespace and name have no slash, the key of a rule reads back as the
-- namespace, the name and the rule's name, whatever the rule's name is.
pub split_key-rate_limit_key :
    (mp : MonitorPod) (rule : LogRule)
    → Named mp
    → split_key (rate_limit_key mp rule) ≡ some (mp.namespace, mp.name, rule.name)
unfolding split_key rate_limit_key
split_key-rate_limit_key mp rule (namespace_ok, name_ok) =
    rw
      (
        split_key,
        split_slash-append mp.namespace (mp.name <> ("/" <> rule.name)) namespace_ok,
        split_slash-append mp.name rule.name name_ok,
      )
      refl

-- The two rules are different ones.
abbrev pub Apart : MonitorPod → LogRule → MonitorPod → LogRule → Type 0
Apart mp rule other other_rule =
    ¬ ((mp.namespace ≡ other.namespace) × (mp.name ≡ other.name) × (rule.name ≡ other_rule.name))

pub rate_limit_key-injective :
    (mp : MonitorPod) (rule : LogRule) (other : MonitorPod) (other_rule : LogRule)
    → Named mp
    → Named other
    → rate_limit_key mp rule ≡ rate_limit_key other other_rule
    → (mp.namespace ≡ other.namespace) × (mp.name ≡ other.name) × (rule.name ≡ other_rule.name)
rate_limit_key-injective mp rule other other_rule h h' e =
    let same : some (mp.namespace, mp.name, rule.name)
        ≡ some (other.namespace, other.name, other_rule.name) =
      sym (split_key-rate_limit_key mp rule h)
      ∙ ap split_key e
      ∙ split_key-rate_limit_key other other_rule h' in
    let parts = some-injective _ _ same in
    (ap (λ q. q.0) parts, ap (λ q. q.1) parts, ap (λ q. q.2) parts)

rate_limit_key-Apart :
    (mp : MonitorPod) (rule : LogRule) (other : MonitorPod) (other_rule : LogRule)
    → Named mp
    → Named other
    → Apart mp rule other other_rule
    → (rate_limit_key mp rule == rate_limit_key other other_rule) ≡ false
rate_limit_key-Apart mp rule other other_rule h h' apart =
    elim (eq_cases (rate_limit_key mp rule) (rate_limit_key other other_rule)) [
      | inr e ↦ e
      | inl e ↦ absurd (apart (rate_limit_key-injective mp rule other other_rule h h' e))
    ]

-- The check of one rule leaves the limiter's entries of all other rules as they were, when the two
-- MonitorPods' namespaces and names have no slash.
pub check_rate-Apart :
    (tools : Tools) (mp : MonitorPod) (rule : LogRule) (other : MonitorPod) (other_rule : LogRule)
    (now : ℕ) (limiter : InMemoryRateLimiter)
    → Named mp
    → Named other
    → Apart mp rule other other_rule
    → lookup (rate_limit_key other other_rule) (check_rate tools mp rule now limiter).0.infos
      ≡ lookup (rate_limit_key other other_rule) limiter.infos
unfolding check_rate
check_rate-Apart tools mp rule other other_rule now limiter h h' apart =
    elim (Option-cases mp.spec.rate_limit) [
      | inl e ↦ rw (check_rate, e) refl
      | inr (lim, e) ↦ elim (Bool-cases (ltb_ℤ (pos 0) lim.limit)) [
        | inr q ↦ rw (check_rate, e, q) refl
        | inl q ↦
            let kept =
              (allow-admit limiter (rate_limit_key mp rule) lim.limit (limit_period tools lim) now
                now).1 in
            rw
              (
                check_rate,
                e,
                q,
                kept (rate_limit_key other other_rule),
                rate_limit_key-Apart mp rule other other_rule h h' apart,
              )
              refl
      ]
    ]
