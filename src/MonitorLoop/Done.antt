-- ===== src/MonitorLoop/Done.antt =====
-- When the context of a monitor is done, no stream of it is left.
use smart_log.Base.{
  String, ◌≡◌, sym, ap, ◌∙◌, inl, inr, List, [], ◌∷◌, contains, Bool-cases, true, eq_cases, subst,
  ◌||◌,
}
use smart_log.Base.Dict
use smart_log.Api.{Pod}
use smart_log.Cluster.{Cluster}
use smart_log.Api.{MonitorPod}
use smart_log.Tasks.{Registry, cancel_entry}
use smart_log.Tasks.Sound.{live}
use smart_log.Tasks.Sound.Drain.{
  Draining, WellFormed-Draining, cancel_entry-idle, cancel_entry-Draining, cancel_own-idle,
}
use smart_log.MonitorLoop.{cancel_all, loop_done, keys}
use smart_log.MonitorLoop.Streams.{keys_cover, no_task}
use smart_log.MonitorLoop.Follow.{streams_after, streams_after-WellFormed}

cancel_all-idle :
    (ks : List String) (k : String) (r : Registry Pod)
    → live k r.tasks ≡ []
    → live k (cancel_all ks r).tasks ≡ []
unfolding cancel_all
cancel_all-idle [] k r e = e
cancel_all-idle (j ∷ ks) k r e =
    cancel_all-idle ks k _ (cancel_entry-idle (Dict.lookup j r.cancels) k r e)

cancel_all_drained :
    (ks : List String) (k : String) (r : Registry Pod)
    → Draining k r
    → contains ks k ≡ true
    → live k (cancel_all ks r).tasks ≡ []
unfolding cancel_all
cancel_all_drained [] k r d h = absurd cc
cancel_all_drained (j ∷ ks) k r d h = elim (eq_cases j k) [
  | inl p ↦ cancel_all-idle ks k _ (
      subst (λ x. live k (cancel_entry (Dict.lookup x r.cancels) r).tasks ≡ []) (sym p)
        (cancel_own-idle k r d))
  | inr p ↦
      cancel_all_drained ks k _ (cancel_entry-Draining (Dict.lookup j r.cancels) k r d)
        (ap (λ b. b || contains ks k) (sym p) ∙ h)
]

-- After any ticks of a monitor's loop, in any states of the server, the end of its context leaves no
-- stream of any key uncancelled.
pub loop_done_drained :
    (C : Cluster) (mp : MonitorPod) (history : List C.State) (k : String)
    → live k (loop_done (streams_after C mp history)).tasks ≡ []
unfolding loop_done
loop_done_drained C mp history k =
    let r = streams_after C mp history in
    let w = streams_after-WellFormed C mp history in
    elim (Bool-cases (contains (keys r.cancels) k)) [
      | inl e ↦ cancel_all_drained (keys r.cancels) k r (WellFormed-Draining k r w) e
      | inr e ↦ cancel_all-idle (keys r.cancels) k r (no_task k r w (keys_cover k r.cancels e))
    ]
