-- ===== src/Examples/DeepCopies.antt =====
-- An alert in memory, and its copies.
use smart_log.Base.{
  ℕ, ◌<◌, ◌≡◌, refl, String, Bool, true, false, zero, suc, List, [], ◌∷◌, Option, some, none, arith,
}
use smart_log.Api.{WebhookHeader}
use smart_log.Slices.{Heap, write}
use smart_log.DeepCopy.Alike.{Copied, Fresh}
use smart_log.DeepCopy.Copying
use smart_log.DeepCopy.Copying.{◌&◌}
use smart_log.DeepCopy.Structs.{
  Vendored, ObjectStruct, AlertSpecStruct, AlertStatusStruct, WebhookSpecStruct,
}
use smart_log.DeepCopy.Held.{
  Cell, kind, own, alert_type, webhook_spec_type, webhook_header_type, condition_type, other_type,
}
use smart_log.DeepCopy.Specs.{Libraries}
use smart_log.DeepCopy.SpecsCopied.{alert_spec, alert_status, webhook_spec}
use smart_log.DeepCopy.ObjectsCopied.{object, alert}
use smart_log.DeepCopy.RuntimeObjects.{alert_object, deep_copy_object}
use smart_log.DeepCopy.Faithful.{copying_of, pointer_to, deep_copy_of}
use smart_log.DeepCopy.Apart.{deep_copy_apart, deep_copy_object-Copied}

-- What the libraries point to.
data Pointee : Type 0 where
  flag : Bool → Pointee

-- A selector has a pointer to a flag.
abbrev vendored : Vendored
vendored = record {
  TypeMeta = String × String;
  ObjectMeta = String;
  ListMeta = String;
  LabelSelector = String;
  SecretKeySelector = (String × String) × Option ℕ;
  Condition = String;
  Time = ℕ;
  Other = Pointee;
}

abbrev libraries : Libraries vendored
libraries = record {
  object_meta = Copying.plain;
  list_meta = Copying.plain;
  label_selector = Copying.plain;
  secret_key_selector =
      Copying.plain {A = String × String}
      & Copying.pointer (kind vendored other_type) Copying.plain;
  condition = Copying.plain;
  time = Copying.plain;
  time_pointer = Copying.pointer (kind vendored other_type) Copying.plain;
}

abbrev header : WebhookHeader
header = record { name = "a"; value = "b" }

abbrev webhook : WebhookSpecStruct vendored
webhook = record {
  url_secret_ref = (("hook", "url"), some 3);
  headers = some (record { array = 2; len = 1; cap = 4 });
  body_template = "";
}

abbrev ops : ObjectStruct vendored AlertSpecStruct AlertStatusStruct
ops = record {
  type_meta = ("Alert", "v1alpha1");
  object_meta = "ops";
  spec = record { kind = "Webhook"; webhook = some 1; feishu = none };
  status = record { conditions = some (record { array = 4; len = 1; cap = 1 }) };
}

abbrev cell_at : List (Cell vendored) → ℕ → Option (Cell vendored)
cell_at [] a = none
cell_at (c ∷ cells) zero = some c
cell_at (c ∷ cells) (suc a) = cell_at cells a

abbrev stored : List (Cell vendored)
stored =
    (own alert_type, ops)
    ∷ (own webhook_spec_type, webhook)
    ∷ (own webhook_header_type, header)
    ∷ (other_type, flag true)
    ∷ (condition_type, "Ready")
    ∷ []

-- Each array has the same cell everywhere.
abbrev memory : Heap (Cell vendored)
memory = record { cells = λ a i. cell_at stored a; next = 5 }

abbrev Old : ℕ → Type 0
Old k = k < 5

ops-Alike :
    (pointer_to vendored libraries alert_type).Alike
      (record { owns = Old; heap = memory })
      (some 0)
      (record { owns = Old; heap = memory })
      (some 0)
unfolding copying_of alert object alert_spec alert_status webhook_spec kind
ops-Alike = (
  omega arith,
  omega arith,
  (
    ops,
    ops,
    refl,
    refl,
    (
      refl,
      (
        refl,
        (
          (
            refl,
            (
              (
                omega arith,
                omega arith,
                (
                  webhook,
                  webhook,
                  refl,
                  refl,
                  (
                    refl,
                    (
                      (refl, (omega arith, omega arith, (flag true, flag true, refl, refl, refl))),
                      (refl, omega arith, omega arith, λ i o. (header, header, refl, refl, refl)),
                    ),
                  ),
                ),
              ),
              tt,
            ),
          ),
          (refl, omega arith, omega arith, λ i o. ("Ready", "Ready", refl, refl, refl)),
        ),
      ),
    ),
  ),
)

-- The flag of the copy's selector is changed, and the original's header.
deep_copy_apart_example :
    let (q, n) = deep_copy_of vendored libraries alert_type (some 0) memory in
    (pointer_to vendored libraries alert_type).Alike
      (record { owns = Old; heap = memory })
      (some 0)
      (record { owns = Old; heap = write 7 0 (other_type, flag false) n })
      (some 0)
    × (pointer_to vendored libraries alert_type).Alike
        (record { owns = Old; heap = memory })
        (some 0)
        (record {
          owns = Fresh (Cell vendored) memory n;
          heap = write 2 0 (own webhook_header_type, record { name = "c"; value = "d" }) n;
        })
        q
unfolding write
deep_copy_apart_example =
    let n = (deep_copy_of vendored libraries alert_type (some 0) memory).1 in
    deep_copy_apart vendored libraries alert_type Old memory (write 7 0 (other_type, flag false) n)
      (write 2 0 (own webhook_header_type, record { name = "c"; value = "d" }) n) (some 0)
      (λ k o. o) ops-Alike (λ k i o. ground arith) (λ k i o. ground arith)

deep_copy_object-Copied_example :
    (deep_copy_object vendored libraries
        (record { dynamic_type = alert_object; pointer = none })
        memory
      ≡ (none, memory))
    × ((q : ℕ) × (n : Heap (Cell vendored)) × (deep_copy_object vendored libraries
            (record { dynamic_type = alert_object; pointer = some 0 })
            memory
          ≡ (some (record { dynamic_type = alert_object; pointer = some q }), n))
        × Copied
            (Cell vendored)
            (pointer_to vendored libraries alert_type)
            Old
            memory
            (some 0)
            (some q)
            n)
deep_copy_object-Copied_example =
    deep_copy_object-Copied vendored libraries alert_object Old memory 0 (λ k o. o) ops-Alike
