-- ===== src/Copies/Providers.antt =====
-- internal/controller/aiprovider_controller.go: the update of a provider's status, with the slices of
-- conditions in a heap.
pub mod Faithful
use smart_log.Base.{Option, none, some, if◌then◌else◌}
use smart_log.Errors.{Error, is_not_found, ok, err}
use smart_log.Api.{NamespacedName, AiProvider}
use smart_log.Cluster.{Cluster}
use smart_log.Conditions.{ready_condition}
use smart_log.AiProviders.{validate_ai_provider}
use smart_log.Slices.{Heap}
use smart_log.DeepCopy.{Copier}
use smart_log.DeepCopy.Held.{Cell}
use smart_log.DeepCopy.Specs.{copy_ai_provider_status}
use smart_log.Copies.{values, copiers, Conditions, Memory, compared}

-- `provider.Status.DeepCopy()`
unfoldable pub copy_provider_conditions : Copier (Cell values) Conditions
unfolding copy_ai_provider_status
copy_provider_conditions conditions h =
    let (status, h₁) =
      copy_ai_provider_status values copiers (record { conditions = conditions }) h in
    (status.conditions, h₁)

module _ (C : Cluster) (M : Memory) where
  -- What follows the read of a provider in the function that `Reconcile` hands to `RetryOnConflict`.
  unfoldable pub update_changed : C.State → AiProvider → Option Error × C.State
  unfolding compared copy_provider_conditions
  update_changed s provider =
      let ready =
        ready_condition (validate_ai_provider (C.get_secret s) provider)
          "AIProvider configuration is valid and ready" in
      let (same, conditions) =
        compared copy_provider_conditions M (C.clock s) provider.status.conditions ready in
      if same
      then (none, s)
      else C.update_ai_provider_status s
          (record provider { status = record { conditions = conditions } })

  unfoldable pub attempt : NamespacedName → C.State → Option Error × C.State
  unfolding update_changed
  attempt key s = elim (C.get_ai_provider s key) [
    | err e ↦ if is_not_found e then (none, s) else (some e, s)
    | ok provider ↦ update_changed s provider
  ]
