-- ===== src/MonitorLoop/Streams.antt =====
-- After a tick the streams are those of the running pods, one each.
use smart_log.Base.{ℕ, String, ◌==◌, eq_iff, ◌≡◌, refl, sym, ap, ◌∙◌, false, none}
use smart_log.Base.{
  List, [], ◌∷◌, if◌then◌else◌, contains, arith, inl, inr, eq_cases, Bool-cases, subst,
}
use smart_log.Base.Dict
use smart_log.Api.{Pod}
use smart_log.Tasks.{Registry, cancel_entry, stop_key}
use smart_log.Tasks.Sound.{WellFormed, Loose, live, cancel_entry-Loose}
use smart_log.Tasks.Stop.{stop_key-WellFormed, live-stop_key}
use smart_log.MonitorLoop.{is_running, pod_key, drop_stale, keys}

unfoldable pub stale_step : List String → String → Registry Pod → Registry Pod
stale_step current key r = if contains current key then r else stop_key key r

stale_step-WellFormed :
    (current : List String) (key : String) (r : Registry Pod)
    → WellFormed r
    → WellFormed (stale_step current key r)
unfolding stale_step
stale_step-WellFormed current key r w = elim (Bool-cases (contains current key)) [
  | inl e ↦ rw e w
  | inr e ↦ rw e (stop_key-WellFormed key r w)
]

live-stale_step :
    (current : List String) (key k : String) (r : Registry Pod)
    → WellFormed r
    → live k (stale_step current key r).tasks
      ≡ (if contains current k then live k r.tasks else if key == k then [] else live k r.tasks)
unfolding stale_step
live-stale_step current key k r w = elim (Bool-cases (contains current key)) [
  | inl e ↦ elim (eq_cases key k) [
    | inl p ↦ rw (e, ap (contains current) (sym p) ∙ e) refl
    | inr p ↦ rw (e, p) (ground arith)
  ]
  | inr e ↦ elim (eq_cases key k) [
    | inl p ↦
        rw (e, live-stop_key k key r w, ap (contains current) (sym p) ∙ e, (eq_iff key k).1 p) refl
    | inr p ↦ rw (e, live-stop_key k key r w, p) (ground arith)
  ]
]

pub drop_stale-WellFormed :
    (current ks : List String) (r : Registry Pod)
    → WellFormed r
    → WellFormed (drop_stale current ks r)
unfolding drop_stale stale_step
drop_stale-WellFormed current [] r w = w
drop_stale-WellFormed current (key ∷ ks) r w =
    drop_stale-WellFormed current ks _ (stale_step-WellFormed current key r w)

live-drop_stale :
    (current ks : List String) (k : String) (r : Registry Pod)
    → WellFormed r
    → live k (drop_stale current ks r).tasks ≡ (
        if contains current k then live k r.tasks else if contains ks k then [] else live k r.tasks)
unfolding drop_stale stale_step
live-drop_stale current [] k r w = ground arith
live-drop_stale current (key ∷ ks) k r w =
    live-drop_stale current ks k _ (stale_step-WellFormed current key r w)
    ∙ rw (live-stale_step current key k r w) (ground arith)

pub keys_cover :
    (k : String) (d : Dict.Dict ℕ) → contains (keys d) k ≡ false → Dict.lookup k d ≡ none
unfolding Dict.lookup
keys_cover k [] h = refl
keys_cover k ((j, v) ∷ d) h = ground (arith, keys_cover k d)

pub no_task :
    (k : String) (r : Registry Pod)
    → WellFormed r
    → Dict.lookup k r.cancels ≡ none
    → live k r.tasks ≡ []
unfolding cancel_entry
no_task k r w e = (subst (λ o. Loose k (cancel_entry o r)) e (cancel_entry-Loose k r w)).idle

-- Of the streams, those of current pods stay as they are and the others are cancelled.
pub live-dropped :
    (current : List String) (k : String) (r : Registry Pod)
    → WellFormed r
    → live k (drop_stale current (keys r.cancels) r).tasks
      ≡ (if contains current k then live k r.tasks else [])
live-dropped current k r w = elim (Bool-cases (contains (keys r.cancels) k)) [
  | inl e ↦ live-drop_stale current (keys r.cancels) k r w ∙ rw e refl
  | inr e ↦
      live-drop_stale current (keys r.cancels) k r w
      ∙ rw (e, no_task k r w (keys_cover k r.cancels e)) refl
]

abbrev pub or_first : {A : Type 0} → List A → List A → List A
or_first [] ys = ys
or_first (x ∷ xs) ys = x ∷ xs

pub or_first_nil : {A : Type 0} (xs : List A) → or_first xs [] ≡ xs
or_first_nil [] = refl
or_first_nil (x ∷ xs) = refl

pub or_first_assoc :
    {A : Type 0} (xs ys zs : List A) → or_first (or_first xs ys) zs ≡ or_first xs (or_first ys zs)
or_first_assoc [] ys zs = refl
or_first_assoc (x ∷ xs) ys zs = refl

-- The pod when it runs and has the key, and the first such pod of a list.
unfoldable pub candidate : String → Pod → List Pod
candidate k pod = if is_running pod.phase then (if pod_key pod == k then pod ∷ [] else []) else []

unfoldable pub first_running : String → List Pod → List Pod
first_running k [] = []
first_running k (pod ∷ pods) = or_first (candidate k pod) (first_running k pods)
