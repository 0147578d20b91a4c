-- ===== src/MonitorLoop/Entries.antt =====
-- What becomes of the entry of a key in the loop over the map and in the loop over the pods.
use smart_log.Base.{
  ℕ, ◌≤◌, String, ◌==◌, ◌≡◌, refl, sym, ap, ◌∙◌, true, false, Option, none, some, List, [], ◌∷◌,
  eq_iff, contains, arith, inl, inr, eq_cases, Bool-cases, Option-cases,
}
use smart_log.Base.Dict
use smart_log.Api.{Pod}
use smart_log.Tasks.{Registry, start, stop_key}
use smart_log.MonitorLoop.Streams.{stale_step}
use smart_log.MonitorLoop.Follow.{start_step}
use smart_log.MonitorLoop.{is_running, pod_key, drop_stale, start_missing, start_new}

-- An entry of the key that is as new as the bound.
abbrev pub AsNew : ℕ → Option ℕ → Type 0
AsNew n none = Unit
AsNew n (some h) = n ≤ h

stop_key-next : (key : String) (r : Registry Pod) → (stop_key key r).next ≡ r.next
unfolding stop_key
stop_key-next key r = elim (Option-cases (Dict.lookup key r.cancels)) [
  | inl e ↦ rw (stop_key, e) refl
  | inr (h, e) ↦ rw (stop_key, e) refl
]

stop_key-others :
    (key k : String) (r : Registry Pod)
    → (key == k) ≡ false
    → Dict.lookup k (stop_key key r).cancels ≡ Dict.lookup k r.cancels
unfolding stop_key
stop_key-others key k r other = elim (Option-cases (Dict.lookup key r.cancels)) [
  | inl e ↦ rw (stop_key, e) refl
  | inr (h, e) ↦ rw (stop_key, e, Dict.lookup-erase k key r.cancels, other) refl
]

stale_step-next :
    (current : List String) (key : String) (r : Registry Pod)
    → (stale_step current key r).next ≡ r.next
unfolding stale_step
stale_step-next current key r = elim (Bool-cases (contains current key)) [
  | inl e ↦ rw e refl
  | inr e ↦ rw e (stop_key-next key r)
]

pub drop_stale-next :
    (current ks : List String) (r : Registry Pod) → (drop_stale current ks r).next ≡ r.next
unfolding drop_stale stale_step
drop_stale-next current [] r = refl
drop_stale-next current (key ∷ ks) r =
    drop_stale-next current ks (stale_step current key r) ∙ stale_step-next current key r

stale_step-current :
    (current : List String) (key k : String) (r : Registry Pod)
    → contains current k ≡ true
    → Dict.lookup k (stale_step current key r).cancels ≡ Dict.lookup k r.cancels
unfolding stale_step
stale_step-current current key k r h = elim (Bool-cases (contains current key)) [
  | inl e ↦ rw e refl
  | inr e ↦ elim (eq_cases key k) [
    | inl p ↦ absurd (cc (ap (contains current) p, e, h))
    | inr p ↦ rw e (stop_key-others key k r p)
  ]
]

-- The entry of a current pod stays.
pub drop_stale-current :
    (current ks : List String) (k : String) (r : Registry Pod)
    → contains current k ≡ true
    → Dict.lookup k (drop_stale current ks r).cancels ≡ Dict.lookup k r.cancels
unfolding drop_stale stale_step
drop_stale-current current [] k r h = refl
drop_stale-current current (key ∷ ks) k r h =
    drop_stale-current current ks k (stale_step current key r) h
    ∙ stale_step-current current key k r h

start_missing-lookup :
    (o : Option ℕ) (k : String) (h : ℕ) (pod : Pod) (r : Registry Pod)
    → Dict.lookup (pod_key pod) r.cancels ≡ o
    → Dict.lookup k r.cancels ≡ some h
    → Dict.lookup k (start_missing o pod r).cancels ≡ some h
unfolding start_missing start
start_missing-lookup (some g) k h pod r e found = found
start_missing-lookup none k h pod r e found = elim (eq_cases (pod_key pod) k) [
  | inl p ↦ absurd (ground (arith, sym e ∙ ap (λ x. Dict.lookup x r.cancels) p ∙ found))
  | inr p ↦ Dict.lookup-insert k (pod_key pod) r.next r.cancels ∙ rw p found
]

start_missing-AsNew :
    (o : Option ℕ) (k : String) (n : ℕ) (pod : Pod) (r : Registry Pod)
    → n ≤ r.next
    → AsNew n (Dict.lookup k r.cancels)
    → (n ≤ (start_missing o pod r).next) × AsNew n (Dict.lookup k (start_missing o pod r).cancels)
unfolding start_missing start
start_missing-AsNew (some g) k n pod r le new = (le, new)
start_missing-AsNew none k n pod r le new = (
  omega (arith, le),
  rw (Dict.lookup-insert k (pod_key pod) r.next r.cancels) (elim (eq_cases (pod_key pod) k) [
    | inl p ↦ rw ((eq_iff (pod_key pod) k).1 p) le
    | inr p ↦ rw p new
  ]),
)

start_step-kept :
    (pod : Pod) (k : String) (h : ℕ) (r : Registry Pod)
    → Dict.lookup k r.cancels ≡ some h
    → Dict.lookup k (start_step pod r).cancels ≡ some h
unfolding start_step
start_step-kept pod k h r found = elim (Bool-cases (is_running pod.phase)) [
  | inl e ↦ rw e (start_missing-lookup _ k h pod r refl found)
  | inr e ↦ rw e found
]

-- An entry that is there before the second loop stays.
pub start_new-kept :
    (pods : List Pod) (k : String) (h : ℕ) (r : Registry Pod)
    → Dict.lookup k r.cancels ≡ some h
    → Dict.lookup k (start_new pods r).cancels ≡ some h
unfolding start_new start_step
start_new-kept [] k h r found = found
start_new-kept (pod ∷ pods) k h r found =
    start_new-kept pods k h (start_step pod r) (start_step-kept pod k h r found)

start_step-AsNew :
    (pod : Pod) (k : String) (n : ℕ) (r : Registry Pod)
    → n ≤ r.next
    → AsNew n (Dict.lookup k r.cancels)
    → (n ≤ (start_step pod r).next) × AsNew n (Dict.lookup k (start_step pod r).cancels)
unfolding start_step
start_step-AsNew pod k n r le new = elim (Bool-cases (is_running pod.phase)) [
  | inl e ↦ rw e (start_missing-AsNew (Dict.lookup (pod_key pod) r.cancels) k n pod r le new)
  | inr e ↦ rw e (le, new)
]

-- An entry that the second loop makes is a new one.
pub start_new-AsNew :
    (pods : List Pod) (k : String) (n : ℕ) (r : Registry Pod)
    → n ≤ r.next
    → AsNew n (Dict.lookup k r.cancels)
    → AsNew n (Dict.lookup k (start_new pods r).cancels)
unfolding start_new start_step
start_new-AsNew [] k n r le new = new
start_new-AsNew (pod ∷ pods) k n r le new =
    let step = start_step-AsNew pod k n r le new in
    start_new-AsNew pods k n (start_step pod r) step.0 step.1

start_missing-le :
    (o : Option ℕ) (pod : Pod) (r : Registry Pod) → r.next ≤ (start_missing o pod r).next
unfolding start_missing start
start_missing-le none pod r = omega arith
start_missing-le (some h) pod r = omega arith

start_step-le : (pod : Pod) (r : Registry Pod) → r.next ≤ (start_step pod r).next
unfolding start_step
start_step-le pod r = elim (Bool-cases (is_running pod.phase)) [
  | inl e ↦ rw e (start_missing-le (Dict.lookup (pod_key pod) r.cancels) pod r)
  | inr e ↦ rw e (omega arith)
]

pub start_new-le : (pods : List Pod) (r : Registry Pod) → r.next ≤ (start_new pods r).next
unfolding start_new start_step
start_new-le [] r = omega arith
start_new-le (pod ∷ pods) r =
    omega (arith, start_step-le pod r, start_new-le pods (start_step pod r))
