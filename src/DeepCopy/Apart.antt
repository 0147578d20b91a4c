-- ===== src/DeepCopy/Apart.antt =====
-- What is written to the original or to its copy does not show in the other one, and what DeepCopyObject
-- gives.
use smart_log.Base.{ℕ, ◌<◌, ◌≡◌, refl, sym, ap, subst, ◌∙◌, none, some}
use smart_log.Slices.{Heap}
use smart_log.DeepCopy.{Copier, copy_pointer}
use smart_log.DeepCopy.Alike.{View, Copied, Fresh}
use smart_log.DeepCopy.Structs.{Vendored, Pointer}
use smart_log.DeepCopy.Held.{Cell, OwnType}
use smart_log.DeepCopy.Specs.{Libraries}
use smart_log.DeepCopy.Pointed.{}
use smart_log.DeepCopy.RuntimeObjects.{
  ObjectType, ai_provider_object, ai_provider_list_object, alert_object, alert_list_object,
  alert_group_object, alert_group_list_object, alert_record_object, alert_record_list_object,
  monitor_pod_object, monitor_pod_list_object, own_type, as_object, method, deep_copy_object,
  deep_copy_object_ai_provider, deep_copy_object_ai_provider_list, deep_copy_object_alert,
  deep_copy_object_alert_list, deep_copy_object_alert_group, deep_copy_object_alert_group_list,
  deep_copy_object_alert_record, deep_copy_object_alert_record_list, deep_copy_object_monitor_pod,
  deep_copy_object_monitor_pod_list,
}
use smart_log.DeepCopy.Faithful.{deep_copy_of, pointer_to, deep_copy_of-pointer, deep_copy-Copied}

module _ (V : Vendored) (L : Libraries V) where
  -- The arrays `P` of the heap `n` hold what they held in `m`.
  abbrev pub SameOn : (ℕ → Type 0) → Heap (Cell V) → Heap (Cell V) → Type 0
  SameOn P m n = (k i : ℕ) → P k → n.cells k i ≡ m.cells k i

  -- After the method DeepCopy of any of the types, given a pointer to what can be read: in a heap
  -- `changed` in which what there was before the copy is as it was, whatever was written to the copy,
  -- the original reads as before; and in a heap `altered` in which the arrays that the copy has
  -- allocated are as it left them, whatever was written to the original, the copy reads as the original
  -- did before.
  pub deep_copy_apart :
      (t : OwnType) (P : ℕ → Type 0) (m changed altered : Heap (Cell V)) (p : Pointer)
      → ((k : ℕ) → P k → k < m.next)
      → (pointer_to V L t).Alike (record { owns = P; heap = m }) p (record { owns = P; heap = m }) p
      → SameOn (λ k. k < m.next) (deep_copy_of V L t p m).1 changed
      → SameOn (Fresh (Cell V) m (deep_copy_of V L t p m).1) (deep_copy_of V L t p m).1 altered
      → (pointer_to V L t).Alike
          (record { owns = P; heap = m })
          p
          (record { owns = P; heap = changed })
          p
        × (pointer_to V L t).Alike
            (record { owns = P; heap = m })
            p
            (record { owns = Fresh (Cell V) m (deep_copy_of V L t p m).1; heap = altered })
            (deep_copy_of V L t p m).0
  deep_copy_apart t P m changed altered p below valid old new =
      let done = deep_copy-Copied V L t P m p below valid in
      let (q, n) = deep_copy_of V L t p m in
      let before = view P m in
      (
        (pointer_to V L t).moves before before before (view P changed) p p (λ k o. (o, λ i. refl))
            (λ k o. (o, λ i. old k i (below k o) ∙ done.kept k i (below k o))) valid,
        (pointer_to V L t).moves (view P n) before (view (Fresh (Cell V) m n) n)
            (view (Fresh (Cell V) m n) altered) p q
            (λ k o. (o, λ i. sym (done.kept k i (below k o)))) (λ k o. (o, λ i. new k i o))
            done.alike,
      )
    where
      view : (ℕ → Type 0) → Heap (Cell V) → View (Cell V)
      view P m = record { owns = P; heap = m }

  method-as_object :
      (o : ObjectType) (p : Pointer) (m : Heap (Cell V))
      → method V L o p m ≡ as_object o (deep_copy_of V L (own_type o) p m)
  unfolding method deep_copy_object_ai_provider deep_copy_object_ai_provider_list
      deep_copy_object_alert deep_copy_object_alert_list deep_copy_object_alert_group
      deep_copy_object_alert_group_list deep_copy_object_alert_record
      deep_copy_object_alert_record_list deep_copy_object_monitor_pod
      deep_copy_object_monitor_pod_list
  method-as_object ai_provider_object p m = refl
  method-as_object ai_provider_list_object p m = refl
  method-as_object alert_object p m = refl
  method-as_object alert_list_object p m = refl
  method-as_object alert_group_object p m = refl
  method-as_object alert_group_list_object p m = refl
  method-as_object alert_record_object p m = refl
  method-as_object alert_record_list_object p m = refl
  method-as_object monitor_pod_object p m = refl
  method-as_object monitor_pod_list_object p m = refl

  deep_copy_of-nil : (t : OwnType) (m : Heap (Cell V)) → deep_copy_of V L t none m ≡ (none, m)
  unfolding copy_pointer
  deep_copy_of-nil t m =
      subst (λ (copy : Copier (Cell V) Pointer). copy none m ≡ (none, m))
        (sym (deep_copy_of-pointer V L t)) refl

  deep_copy_of-new :
      (t : OwnType) (p : ℕ) (m : Heap (Cell V))
      → deep_copy_of V L t (some p) m ≡ (some m.next, (deep_copy_of V L t (some p) m).1)
  unfolding copy_pointer
  deep_copy_of-new t p m =
      subst
        (λ (copy : Copier (Cell V) Pointer). copy (some p) m ≡ (some m.next, (copy (some p) m).1))
        (sym (deep_copy_of-pointer V L t)) refl

  -- DeepCopyObject of a nil pointer of any of the kinds and lists is the nil interface, not one that
  -- holds a nil pointer. Of a pointer to an object that can be read it is an object of the same type,
  -- not nil, that reads the same, reaches only arrays that are new, and leaves all that was in the heap
  -- as it was; provided that the libraries' copiers do so for their types.
  pub deep_copy_object-Copied :
      (o : ObjectType) (P : ℕ → Type 0) (m : Heap (Cell V)) (p : ℕ)
      → ((k : ℕ) → P k → k < m.next)
      → (pointer_to V L (own_type o)).Alike
          (record { owns = P; heap = m })
          (some p)
          (record { owns = P; heap = m })
          (some p)
      → (deep_copy_object V L (record { dynamic_type = o; pointer = none }) m ≡ (none, m))
        × ((q : ℕ) × (n : Heap (Cell V)) × (deep_copy_object V L
                (record { dynamic_type = o; pointer = some p })
                m
              ≡ (some (record { dynamic_type = o; pointer = some q }), n))
            × Copied (Cell V) (pointer_to V L (own_type o)) P m (some p) (some q) n)
  unfolding deep_copy_object as_object
  deep_copy_object-Copied o P m p below valid = (
    method-as_object o none m ∙ ap (as_object o) (deep_copy_of-nil (own_type o) m),
    (
      m.next,
      (deep_copy_of V L (own_type o) (some p) m).1,
      method-as_object o (some p) m ∙ ap (as_object o) (deep_copy_of-new (own_type o) p m),
      subst
          (λ q.
            Copied (Cell V) (pointer_to V L (own_type o)) P m (some p) q
              (deep_copy_of V L (own_type o) (some p) m).1)
          (ap (λ out. out.0) (deep_copy_of-new (own_type o) p m))
          (deep_copy-Copied V L (own_type o) P m (some p) below valid),
    ),
  )
