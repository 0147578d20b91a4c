-- ===== src/Cleaner.antt =====
-- internal/controller/alertrecord_cleaner.go: the cycle that deletes expired alert records. Times and
-- durations are in nanoseconds; `parse` is `time.ParseDuration`.
pub mod Expiry
pub mod Created
pub mod Cycles
use smart_log.Base.{ℕ, String, Bool, true, false, Option, none, some, List, [], ◌∷◌, if◌then◌else◌}
use smart_log.Base.Int.{ℤ, pos, ◌+ℤ◌, ltb_ℤ}
use smart_log.Base.Dict
use smart_log.Errors.{ok, err}
use smart_log.Api.{AlertRecord}
use smart_log.Cluster.{Cluster}

module _ (parse : String → Option ℤ) where
  -- Whether the record has a valid TTL annotation and `now` is after its expiration time.
  unfoldable pub is_expired : ℕ → AlertRecord → Bool
  is_expired now r = elim (Dict.lookup "smartlog.smart-tools.com/ttl" r.annotations) [
    | none ↦ false
    | some text ↦ elim (parse text) [
      | none ↦ false
      | some ttl ↦ ltb_ℤ (pos r.creation_timestamp +ℤ ttl) (pos now)
    ]
  ]

  module _ (C : Cluster) where
    -- The loop over the records, each tested at its own time; the error of a deletion is logged.
    unfoldable pub clean_records : List AlertRecord → C.State → C.State
    unfolding is_expired
    clean_records [] s = s
    clean_records (r ∷ records) s =
        clean_records records
          (if is_expired (C.clock s) r then (C.delete_alert_record s r).1 else s)

    unfoldable pub cleanup : C.State → C.State
    unfolding clean_records
    cleanup s = elim (C.list_alert_records s) [ err e ↦ s | ok records ↦ clean_records records s ]

    -- The turns of the `select` loop in `Start`, up to its return: the context is done, or a tick
    -- comes, before which others changed the state.
    unfoldable pub start_cleaner : List (Option (C.State → C.State)) → C.State → C.State
    unfolding cleanup
    start_cleaner [] s = s
    start_cleaner (none ∷ turns) s = s
    start_cleaner (some others ∷ turns) s = start_cleaner turns (cleanup (others s))
