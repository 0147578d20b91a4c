-- ===== src/DeepCopy/Faithful.antt =====
-- The methods DeepCopy give copies that share nothing with the original.
use smart_log.Base.{ℕ, ◌<◌, ◌≡◌, refl, sym, subst}
use smart_log.Slices.{Heap}
use smart_log.DeepCopy.{Copier, copy_pointer, copy_slice}
use smart_log.DeepCopy.Alike
use smart_log.DeepCopy.Alike.{View, Shape, Copied}
use smart_log.DeepCopy.Copying
use smart_log.DeepCopy.Copying.{Copying}
use smart_log.DeepCopy.Structs.{Vendored, Pointer}
use smart_log.DeepCopy.Held.{
  Held, Cell, kind, own, OwnType, webhook_header_type, log_rule_type, alert_target_type,
  rate_limit_spec_type, multiline_spec_type, ai_enrichment_spec_type, provider_reference_type,
  monitor_pod_reference_type, pod_reference_type, alert_record_status_type,
  gemini_provider_spec_type, open_ai_provider_spec_type, ai_provider_spec_type,
  ai_provider_status_type, webhook_spec_type, feishu_spec_type, alert_spec_type, alert_status_type,
  alert_group_spec_type, alert_group_status_type, alert_record_spec_type, monitor_pod_spec_type,
  monitor_pod_status_type, ai_provider_type, alert_type, alert_group_type, alert_record_type,
  monitor_pod_type, ai_provider_list_type, alert_list_type, alert_group_list_type,
  alert_record_list_type, monitor_pod_list_type,
}
use smart_log.DeepCopy.Specs.{Libraries}
use smart_log.DeepCopy.Objects.{}
use smart_log.DeepCopy.Pointed.{
  deep_copy_webhook_header, deep_copy_log_rule, deep_copy_alert_target, deep_copy_rate_limit_spec,
  deep_copy_multiline_spec, deep_copy_ai_enrichment_spec, deep_copy_provider_reference,
  deep_copy_monitor_pod_reference, deep_copy_pod_reference, deep_copy_alert_record_status,
  deep_copy_gemini_provider_spec, deep_copy_open_ai_provider_spec, deep_copy_ai_provider_spec,
  deep_copy_ai_provider_status, deep_copy_webhook_spec, deep_copy_feishu_spec, deep_copy_alert_spec,
  deep_copy_alert_status, deep_copy_alert_group_spec, deep_copy_alert_group_status,
  deep_copy_alert_record_spec, deep_copy_monitor_pod_spec, deep_copy_monitor_pod_status,
  deep_copy_ai_provider, deep_copy_alert, deep_copy_alert_group, deep_copy_alert_record,
  deep_copy_monitor_pod, deep_copy_ai_provider_list, deep_copy_alert_list,
  deep_copy_alert_group_list, deep_copy_alert_record_list, deep_copy_monitor_pod_list,
}
use smart_log.DeepCopy.SpecsCopied.{
  gemini_provider_spec, open_ai_provider_spec, ai_provider_spec, ai_provider_status, webhook_spec,
  feishu_spec, alert_spec, alert_status, alert_group_spec, alert_group_status, alert_record_spec,
  monitor_pod_spec, monitor_pod_status,
}
use smart_log.DeepCopy.ObjectsCopied.{
  ai_provider, ai_provider_list, alert, alert_list, alert_group, alert_group_list, alert_record,
  alert_record_list, monitor_pod, monitor_pod_list,
}

module _ (V : Vendored) (L : Libraries V) where
  -- The method DeepCopy of a type.
  abbrev pub deep_copy_of : OwnType → Copier (Cell V) Pointer
  deep_copy_of webhook_header_type = deep_copy_webhook_header V L
  deep_copy_of log_rule_type = deep_copy_log_rule V L
  deep_copy_of alert_target_type = deep_copy_alert_target V L
  deep_copy_of rate_limit_spec_type = deep_copy_rate_limit_spec V L
  deep_copy_of multiline_spec_type = deep_copy_multiline_spec V L
  deep_copy_of ai_enrichment_spec_type = deep_copy_ai_enrichment_spec V L
  deep_copy_of provider_reference_type = deep_copy_provider_reference V L
  deep_copy_of monitor_pod_reference_type = deep_copy_monitor_pod_reference V L
  deep_copy_of pod_reference_type = deep_copy_pod_reference V L
  deep_copy_of alert_record_status_type = deep_copy_alert_record_status V L
  deep_copy_of gemini_provider_spec_type = deep_copy_gemini_provider_spec V L
  deep_copy_of open_ai_provider_spec_type = deep_copy_open_ai_provider_spec V L
  deep_copy_of ai_provider_spec_type = deep_copy_ai_provider_spec V L
  deep_copy_of ai_provider_status_type = deep_copy_ai_provider_status V L
  deep_copy_of webhook_spec_type = deep_copy_webhook_spec V L
  deep_copy_of feishu_spec_type = deep_copy_feishu_spec V L
  deep_copy_of alert_spec_type = deep_copy_alert_spec V L
  deep_copy_of alert_status_type = deep_copy_alert_status V L
  deep_copy_of alert_group_spec_type = deep_copy_alert_group_spec V L
  deep_copy_of alert_group_status_type = deep_copy_alert_group_status V L
  deep_copy_of alert_record_spec_type = deep_copy_alert_record_spec V L
  deep_copy_of monitor_pod_spec_type = deep_copy_monitor_pod_spec V L
  deep_copy_of monitor_pod_status_type = deep_copy_monitor_pod_status V L
  deep_copy_of ai_provider_type = deep_copy_ai_provider V L
  deep_copy_of alert_type = deep_copy_alert V L
  deep_copy_of alert_group_type = deep_copy_alert_group V L
  deep_copy_of alert_record_type = deep_copy_alert_record V L
  deep_copy_of monitor_pod_type = deep_copy_monitor_pod V L
  deep_copy_of ai_provider_list_type = deep_copy_ai_provider_list V L
  deep_copy_of alert_list_type = deep_copy_alert_list V L
  deep_copy_of alert_group_list_type = deep_copy_alert_group_list V L
  deep_copy_of alert_record_list_type = deep_copy_alert_record_list V L
  deep_copy_of monitor_pod_list_type = deep_copy_monitor_pod_list V L

  unfoldable pub copying_of : (t : OwnType) → Copying (Cell V) (Held V (own t))
  copying_of gemini_provider_spec_type = gemini_provider_spec V L
  copying_of open_ai_provider_spec_type = open_ai_provider_spec V L
  copying_of ai_provider_spec_type = ai_provider_spec V L
  copying_of ai_provider_status_type = ai_provider_status V L
  copying_of webhook_spec_type = webhook_spec V L
  copying_of feishu_spec_type = feishu_spec V L
  copying_of alert_spec_type = alert_spec V L
  copying_of alert_status_type = alert_status V L
  copying_of alert_group_spec_type = alert_group_spec V L
  copying_of alert_group_status_type = alert_group_status V L
  copying_of alert_record_spec_type = alert_record_spec V L
  copying_of monitor_pod_spec_type = monitor_pod_spec V L
  copying_of monitor_pod_status_type = monitor_pod_status V L
  copying_of ai_provider_type = ai_provider V L
  copying_of ai_provider_list_type = ai_provider_list V L
  copying_of alert_type = alert V L
  copying_of alert_list_type = alert_list V L
  copying_of alert_group_type = alert_group V L
  copying_of alert_group_list_type = alert_group_list V L
  copying_of alert_record_type = alert_record V L
  copying_of alert_record_list_type = alert_record_list V L
  copying_of monitor_pod_type = monitor_pod V L
  copying_of monitor_pod_list_type = monitor_pod_list V L
  copying_of webhook_header_type = Copying.plain
  copying_of log_rule_type = Copying.plain
  copying_of alert_target_type = Copying.plain
  copying_of rate_limit_spec_type = Copying.plain
  copying_of multiline_spec_type = Copying.plain
  copying_of ai_enrichment_spec_type = Copying.plain
  copying_of provider_reference_type = Copying.plain
  copying_of monitor_pod_reference_type = Copying.plain
  copying_of pod_reference_type = Copying.plain
  copying_of alert_record_status_type = Copying.plain

  -- What it is for two pointers to values of a type to read the same.
  abbrev pub pointer_to : OwnType → Shape (Cell V) Pointer
  pointer_to t = Alike.pointer (Cell V) (kind V (own t)) (copying_of t).shape

  pub deep_copy_of-pointer :
      (t : OwnType) → deep_copy_of t ≡ copy_pointer (kind V (own t)) (copying_of t).copy
  unfolding copying_of deep_copy_webhook_header deep_copy_log_rule deep_copy_alert_target
      deep_copy_rate_limit_spec deep_copy_multiline_spec deep_copy_ai_enrichment_spec
      deep_copy_provider_reference deep_copy_monitor_pod_reference deep_copy_pod_reference
      deep_copy_alert_record_status deep_copy_gemini_provider_spec deep_copy_open_ai_provider_spec
      deep_copy_ai_provider_spec deep_copy_ai_provider_status deep_copy_webhook_spec
      deep_copy_feishu_spec deep_copy_alert_spec deep_copy_alert_status deep_copy_alert_group_spec
      deep_copy_alert_group_status deep_copy_alert_record_spec deep_copy_monitor_pod_spec
      deep_copy_monitor_pod_status deep_copy_ai_provider deep_copy_alert deep_copy_alert_group
      deep_copy_alert_record deep_copy_monitor_pod deep_copy_ai_provider_list deep_copy_alert_list
      deep_copy_alert_group_list deep_copy_alert_record_list deep_copy_monitor_pod_list
      gemini_provider_spec open_ai_provider_spec ai_provider_spec ai_provider_status webhook_spec
      feishu_spec alert_spec alert_status alert_group_spec alert_group_status alert_record_spec
      monitor_pod_spec monitor_pod_status ai_provider ai_provider_list alert alert_list alert_group
      alert_group_list alert_record alert_record_list monitor_pod monitor_pod_list copy_pointer
      copy_slice
  deep_copy_of-pointer webhook_header_type = refl
  deep_copy_of-pointer log_rule_type = refl
  deep_copy_of-pointer alert_target_type = refl
  deep_copy_of-pointer rate_limit_spec_type = refl
  deep_copy_of-pointer multiline_spec_type = refl
  deep_copy_of-pointer ai_enrichment_spec_type = refl
  deep_copy_of-pointer provider_reference_type = refl
  deep_copy_of-pointer monitor_pod_reference_type = refl
  deep_copy_of-pointer pod_reference_type = refl
  deep_copy_of-pointer alert_record_status_type = refl
  deep_copy_of-pointer gemini_provider_spec_type = refl
  deep_copy_of-pointer open_ai_provider_spec_type = refl
  deep_copy_of-pointer ai_provider_spec_type = refl
  deep_copy_of-pointer ai_provider_status_type = refl
  deep_copy_of-pointer webhook_spec_type = refl
  deep_copy_of-pointer feishu_spec_type = refl
  deep_copy_of-pointer alert_spec_type = refl
  deep_copy_of-pointer alert_status_type = refl
  deep_copy_of-pointer alert_group_spec_type = refl
  deep_copy_of-pointer alert_group_status_type = refl
  deep_copy_of-pointer alert_record_spec_type = refl
  deep_copy_of-pointer monitor_pod_spec_type = refl
  deep_copy_of-pointer monitor_pod_status_type = refl
  deep_copy_of-pointer ai_provider_type = refl
  deep_copy_of-pointer alert_type = refl
  deep_copy_of-pointer alert_group_type = refl
  deep_copy_of-pointer alert_record_type = refl
  deep_copy_of-pointer monitor_pod_type = refl
  deep_copy_of-pointer ai_provider_list_type = refl
  deep_copy_of-pointer alert_list_type = refl
  deep_copy_of-pointer alert_group_list_type = refl
  deep_copy_of-pointer alert_record_list_type = refl
  deep_copy_of-pointer monitor_pod_list_type = refl

  -- DeepCopy of any of the types gives, of a pointer to what can be read, a pointer to what reads the
  -- same and reaches only arrays that are new, and leaves all that was in the heap as it was; provided
  -- that the libraries' copiers do so for their types.
  pub deep_copy-Copied :
      (t : OwnType) (P : ℕ → Type 0) (m : Heap (Cell V)) (p : Pointer)
      → ((k : ℕ) → P k → k < m.next)
      → (pointer_to t).Alike (record { owns = P; heap = m }) p (record { owns = P; heap = m }) p
      → Copied (Cell V) (pointer_to t) P m p (deep_copy_of t p m).0 (deep_copy_of t p m).1
  deep_copy-Copied t P m p below valid =
      subst
        (λ (copy : Copier (Cell V) Pointer).
          Copied (Cell V) (pointer_to t) P m p (copy p m).0 (copy p m).1)
        (sym (deep_copy_of-pointer t))
        ((Copying.pointer (kind V (own t)) (copying_of t)).copies P m p below valid)
