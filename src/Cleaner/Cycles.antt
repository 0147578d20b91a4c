-- ===== src/Cleaner/Cycles.antt =====
-- What the cleaner does from its start to its end.
use smart_log.Base.{◌≤◌, String, ◌≡◌, Option, none, some, List, [], ◌∷◌, inl, inr}
use smart_log.Base.Int.{ℤ}
use smart_log.Errors.{Error, ok, err, Result-cases}
use smart_log.Api.{AlertRecord}
use smart_log.Cluster.{Cluster}
use smart_log.Cleaner.{cleanup, start_cleaner}
use smart_log.Cleaner.Expiry.{Cleans, clean_records-Cleans}

module _ (parse : String → Option ℤ) (C : Cluster) where
  -- The cycles of the cleaner, up to the end of its context.
  pub data Cycles : List (Option (C.State → C.State)) → C.State → C.State → Type 0 where
    waiting : {s : C.State} → Cycles [] s s
    stopped : {turns : List (Option (C.State → C.State))} {s : C.State} → Cycles (none ∷ turns) s s
    -- The records cannot be listed, and the cycle does nothing.
    unlisted :
        {others : C.State → C.State} {turns : List (Option (C.State → C.State))} {s end : C.State}
        {e : Error}
        → C.list_alert_records (others s) ≡ err e
        → Cycles turns (others s) end
        → Cycles (some others ∷ turns) s end
    cleaned :
        {others : C.State → C.State} {turns : List (Option (C.State → C.State))}
        {records : List AlertRecord} {s t end : C.State}
        → C.list_alert_records (others s) ≡ ok records
        → Cleans parse C records (others s) t
        → Cycles turns t end
        → Cycles (some others ∷ turns) s end

  module _
      (forward : (s : C.State) (r : AlertRecord)
        → C.clock s ≤ C.clock (C.delete_alert_record s r).1) where
    -- When no deletion turns the clock back: until its context is done the cleaner has a cycle at
    -- each tick, whatever others do in between. A cycle whose listing fails changes nothing, and the
    -- next ones follow; any other deletes of the records that it lists all that are expired when it
    -- starts and none that is not expired when it ends. After the context is done nothing is deleted.
    pub start_cleaner-Cycles :
        (turns : List (Option (C.State → C.State))) (s : C.State)
        → Cycles turns s (start_cleaner parse C turns s)
    unfolding start_cleaner cleanup
    start_cleaner-Cycles [] s = waiting
    start_cleaner-Cycles (none ∷ turns) s = stopped
    start_cleaner-Cycles (some others ∷ turns) s =
        elim (Result-cases (C.list_alert_records (others s))) [
          | inl (records, e) ↦
              rw (start_cleaner, cleanup, e)
                (cleaned e (clean_records-Cleans parse C forward records (others s))
                  (start_cleaner-Cycles turns _))
          | inr (x, e) ↦
              rw (start_cleaner, cleanup, e) (unlisted e (start_cleaner-Cycles turns (others s)))
        ]
