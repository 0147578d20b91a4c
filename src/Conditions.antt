-- ===== src/Conditions.antt =====
-- The condition `Ready`, by which the reconcilers report what they find.
use smart_log.Base.{ℕ, String, ◌≡◌, Bool, true, false, List}
use smart_log.Errors.{Result, ok, err, error_text}
use smart_log.Api.{Condition, condition_true, condition_false}
use smart_log.Cluster.{Cluster, HasHelpers}

-- The condition that reports a validation. The pair `(valid, err)` of the source is `ok` or `err e`.
unfoldable pub ready_condition : Result (Unit {0}) → String → Condition
unfolding error_text
ready_condition (ok _) valid_text = record {
  kind = "Ready";
  status = condition_true;
  reason = "ValidationSucceeded";
  text = valid_text;
  last_transition_time = 0;
}
ready_condition (err e) valid_text = record {
  kind = "Ready";
  status = condition_false;
  reason = "ValidationFailed";
  text = error_text e;
  last_transition_time = 0;
}

abbrev pub succeeded {ℓ} : {A : Type ℓ} → Result A → Bool
succeeded (ok _) = true
succeeded (err _) = false

-- The condition reads back as the validation's outcome.
pub is_true-set_ready :
    (C : Cluster)
    → HasHelpers C
    → (now : ℕ) (conditions : List Condition) (v : Result (Unit {0})) (valid_text : String)
    → C.is_status_condition_true
        (C.set_status_condition now conditions (ready_condition v valid_text))
        "Ready"
      ≡ succeeded v
unfolding ready_condition
is_true-set_ready C helpers now conditions (ok u) valid_text = rw helpers.is_true-set
is_true-set_ready C helpers now conditions (err e) valid_text = rw helpers.is_true-set
