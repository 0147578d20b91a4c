-- ===== src/Cleaner/Created.antt =====
-- When the cleaner takes a record that a dispatch created.
use mathlib.Core.Option.{some-injective}
use smart_log.Base.{
  ℕ, String, ◌==◌, ◌≡◌, refl, sym, ap, ◌∙◌, ◌↔◌, inl, inr, true, false, Bool-cases, none, some,
}
use smart_log.Base.Int.{ℤ, pos, ◌+ℤ◌, ◌<ℤ◌}
use smart_log.Base.Dict
use smart_log.Api.{MonitorPod, Pod, LogRule, AlertRecord}
use smart_log.Templates.{Tools}
use smart_log.Dispatcher.{new_alert_record}
use smart_log.Cleaner.{is_expired}
use smart_log.Cleaner.Expiry.{Expired, is_expired-Expired, Expired-is_expired}

module _ (tools : Tools) (mp : MonitorPod) (pod : Pod) (rule : LogRule) (container line : String)
    (triggered : ℕ) where
  -- The TTL of the MonitorPod is a duration, and it has passed since the creation.
  abbrev pub Due : ℕ → ℕ → Type 0
  Due created now =
      (ttl : ℤ) × ((mp.spec.alert_record_ttl == "") ≡ false)
      × (tools.parse_duration mp.spec.alert_record_ttl ≡ some ttl)
      × (pos created +ℤ ttl <ℤ pos now)

  abbrev new_record : AlertRecord
  new_record = new_alert_record tools mp pod rule container line triggered

  -- The annotation under the cleaner's key.
  without_annotation :
      (stored : AlertRecord)
      → stored.annotations ≡ new_record.annotations
      → (mp.spec.alert_record_ttl == "") ≡ true
      → Dict.lookup "smartlog.smart-tools.com/ttl" stored.annotations ≡ none
  unfolding new_alert_record Dict.lookup
  without_annotation stored kept e =
      ap (Dict.lookup "smartlog.smart-tools.com/ttl") kept ∙ rw e refl

  with_annotation :
      (stored : AlertRecord)
      → stored.annotations ≡ new_record.annotations
      → (mp.spec.alert_record_ttl == "") ≡ false
      → Dict.lookup "smartlog.smart-tools.com/ttl" stored.annotations
        ≡ some mp.spec.alert_record_ttl
  unfolding new_alert_record Dict.lookup
  with_annotation stored kept e = ap (Dict.lookup "smartlog.smart-tools.com/ttl") kept ∙ rw e refl

  -- The cleaner finds a record that the dispatcher has created expired exactly when the MonitorPod had
  -- a TTL at the dispatch, the TTL is a duration, and it has passed since the record's creation, as
  -- long as the server and the owner reference leave the record's annotations as they are.
  pub is_expired-Due :
      (stored : AlertRecord) (now : ℕ)
      → stored.annotations ≡ new_record.annotations
      → (is_expired tools.parse_duration now stored ≡ true) ↔ Due stored.creation_timestamp now
  unfolding Expired
  is_expired-Due stored now kept = elim (Bool-cases (mp.spec.alert_record_ttl == "")) [
    | inl e ↦ (
      λ h.
          let (text, ttl, at, parsed, passed) =
            is_expired-Expired tools.parse_duration now stored h in
          absurd (cc (without_annotation stored kept e, at)),
      λ (ttl, some_text, parsed, passed). absurd (cc (e, some_text)),
    )
    | inr e ↦ (
      λ h.
          let (text, ttl, at, parsed, passed) =
            is_expired-Expired tools.parse_duration now stored h in
          let same : mp.spec.alert_record_ttl ≡ text =
            some-injective _ _ (sym (with_annotation stored kept e) ∙ at) in
          (ttl, e, ap tools.parse_duration same ∙ parsed, passed),
      λ (ttl, some_text, parsed, passed).
          Expired-is_expired tools.parse_duration now stored
            (mp.spec.alert_record_ttl, ttl, with_annotation stored kept e, parsed, passed),
    )
  ]
