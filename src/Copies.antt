-- ===== src/Copies.antt =====
-- internal/controller/alert_controller.go: the copy that the reconciler makes of the status before it changes
-- it, over the deep copies of api/v1alpha1/zz_generated.deepcopy.go. A slice of conditions is nil, or a
-- view of an array in a heap; the value model of the reconcilers forgets the arrays.
pub mod Shown
pub mod Compared
pub mod Faithful
pub mod Providers
pub mod Attempts
use smart_log.Base.{String, ℕ, Bool, true, false, Option, none, some, List, [], ◌∷◌, if◌then◌else◌}
use smart_log.Errors.{Error, is_not_found, ok, err}
use smart_log.Api.{
  NamespacedName, SecretKeySelector, LabelSelector, Condition, Condition-discrete, Alert,
}
use smart_log.Cluster.{Cluster}
use smart_log.Conditions.{ready_condition}
use smart_log.Slices.{Slice, Heap, contents}
use smart_log.DeepCopy.{Copier}
use smart_log.DeepCopy.Copying
use smart_log.DeepCopy.Structs.{Vendored}
use smart_log.DeepCopy.Held.{Cell, kind, condition_type, other_type}
use smart_log.DeepCopy.Specs.{Libraries, copy_alert_status}
use smart_log.Alerts.{validate_alert}

-- The types of the libraries as the statuses have them: a condition has no pointers.
abbrev pub values : Vendored
values = record {
  TypeMeta = String × String;
  ObjectMeta = NamespacedName;
  ListMeta = String;
  LabelSelector = LabelSelector;
  SecretKeySelector = SecretKeySelector;
  Condition = Condition;
  Time = ℕ;
  Other = ℕ;
}

abbrev pub copiers : Libraries values
copiers = record {
  object_meta = Copying.plain;
  list_meta = Copying.plain;
  label_selector = Copying.plain;
  secret_key_selector = Copying.plain;
  condition = Copying.plain;
  time = Copying.plain;
  time_pointer = Copying.pointer (kind values other_type) Copying.plain;
}

abbrev pub Conditions : Type 0
Conditions = Option Slice

-- `alert.Status.DeepCopy()`, of which the conditions are all.
unfoldable pub copy_alert_conditions : Copier (Cell values) Conditions
unfolding copy_alert_status
copy_alert_conditions conditions h =
    let (status, h₁) = copy_alert_status values copiers (record { conditions = conditions }) h in
    (status.conditions, h₁)

abbrev pub stored : Condition → Option (Cell values)
stored c = some (condition_type, c)

abbrev pub condition_in : Cell values → Option Condition
condition_in c = (kind values condition_type).project c

unfoldable pub Read-discrete : Discrete (List (Option Condition))
Read-discrete = hlevel Condition-discrete

-- The conditions that the cells of a slice hold.
unfoldable pub conditions_in : List (Option (Cell values)) → List (Option Condition)
conditions_in [] = []
conditions_in (none ∷ rest) = none ∷ conditions_in rest
conditions_in (some c ∷ rest) = condition_in c ∷ conditions_in rest

-- `reflect.DeepEqual`, which tells a nil slice from an empty one.
unfoldable pub deep_equal : Heap (Cell values) → Conditions → Conditions → Bool
unfolding conditions_in
deep_equal h none none = true
deep_equal h none (some b) = false
deep_equal h (some a) none = false
deep_equal h (some a) (some b) =
    elim (Read-discrete (conditions_in (contents h a)) (conditions_in (contents h b))) [
      | yes same ↦ true
      | no differ ↦ false
    ]

unfoldable pub elements : List (Option Condition) → List Condition
elements [] = []
elements (none ∷ rest) = elements rest
elements (some c ∷ rest) = c ∷ elements rest

unfoldable pub shown : Heap (Cell values) → Conditions → List Condition
unfolding elements conditions_in
shown h none = []
shown h (some slice) = elements (conditions_in (contents h slice))

-- The memory that the client decodes a status into, and `meta.SetStatusCondition` on the address of
-- the slice.
pub record Memory : Type 0 where
  pub decoded : List Condition → Conditions × Heap (Cell values)
  pub set_in_place :
      ℕ → Conditions → Condition → Heap (Cell values) → Conditions × Heap (Cell values)

-- The copy of the status is made before the condition is set in place: whether the two are equal
-- then, and what the conditions are.
unfoldable pub compared :
    Copier (Cell values) Conditions
    → Memory
    → ℕ
    → List Condition
    → Condition
    → Bool × List Condition
unfolding deep_equal shown
compared copy M now conditions ready =
    let (status, h₀) = M.decoded conditions in
    let (original, h₁) = copy status h₀ in
    let (updated, h₂) = M.set_in_place now status ready h₁ in
    (deep_equal h₂ original updated, shown h₂ updated)

module _ (C : Cluster) (M : Memory) where
  -- What follows the read of an alert in the function that `Reconcile` hands to `RetryOnConflict`.
  unfoldable pub update_changed : C.State → Alert → Option Error × C.State
  unfolding compared copy_alert_conditions
  update_changed s alert =
      let ready =
        ready_condition (validate_alert (C.get_secret s) alert) "Alert configuration is valid" in
      let (same, conditions) =
        compared copy_alert_conditions M (C.clock s) alert.status.conditions ready in
      if same
      then (none, s)
      else C.update_alert_status s (record alert { status = record { conditions = conditions } })

  unfoldable pub attempt : NamespacedName → C.State → Option Error × C.State
  unfolding update_changed
  attempt key s = elim (C.get_alert s key) [
    | err e ↦ if is_not_found e then (none, s) else (some e, s)
    | ok alert ↦ update_changed s alert
  ]
