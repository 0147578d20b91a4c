-- ===== src/Cleaner/Expiry.antt =====
-- Which records a cycle deletes.
use smart_log.Base.{ℕ, ◌≤◌, String, ◌≡◌, refl, ◌∙◌, true, false, Option, none, some, List, [], ◌∷◌}
use smart_log.Base.{ltb→lt, lt→ltb, sym, subst, Member, inl, inr, Bool-cases, Option-cases, arith}
use smart_log.Base.Int.{ℤ, pos, ◌+ℤ◌, ◌<ℤ◌, ltb_ℤ}
use smart_log.Base.Dict
use smart_log.Api.{AlertRecord}
use smart_log.Cluster.{Cluster}
use smart_log.Cleaner.{is_expired, clean_records}

module _ (parse : String → Option ℤ) where
  -- The record has a TTL that is a duration, and its creation is longer ago than that.
  unfoldable pub Expired : ℕ → AlertRecord → Type 0
  Expired now r =
      (text : String) × (ttl : ℤ) × (Dict.lookup "smartlog.smart-tools.com/ttl" r.annotations
        ≡ some text)
      × (parse text ≡ some ttl)
      × (pos r.creation_timestamp +ℤ ttl <ℤ pos now)

  without_ttl :
      (now : ℕ) (r : AlertRecord)
      → Dict.lookup "smartlog.smart-tools.com/ttl" r.annotations ≡ none
      → is_expired parse now r ≡ false
  unfolding is_expired
  without_ttl now r e = rw (is_expired, e) refl

  with_bad_ttl :
      (now : ℕ) (r : AlertRecord) (text : String)
      → Dict.lookup "smartlog.smart-tools.com/ttl" r.annotations ≡ some text
      → parse text ≡ none
      → is_expired parse now r ≡ false
  unfolding is_expired
  with_bad_ttl now r text e f = rw (is_expired, e, f) refl

  with_ttl :
      (now : ℕ) (r : AlertRecord) (text : String) (ttl : ℤ)
      → Dict.lookup "smartlog.smart-tools.com/ttl" r.annotations ≡ some text
      → parse text ≡ some ttl
      → is_expired parse now r ≡ ltb_ℤ (pos r.creation_timestamp +ℤ ttl) (pos now)
  unfolding is_expired
  with_ttl now r text ttl e f = rw (is_expired, e, f) refl

  pub is_expired-Expired :
      (now : ℕ) (r : AlertRecord) → is_expired parse now r ≡ true → Expired now r
  unfolding Expired
  is_expired-Expired now r h =
      elim (Option-cases (Dict.lookup "smartlog.smart-tools.com/ttl" r.annotations)) [
        | inl e ↦ absurd (cc (without_ttl now r e))
        | inr (text, e) ↦ elim (Option-cases (parse text)) [
          | inl f ↦ absurd (cc (with_bad_ttl now r text e f))
          | inr (ttl, f) ↦ (text, ttl, e, f, ltb→lt _ _ (sym (with_ttl now r text ttl e f) ∙ h))
        ]
      ]

  pub Expired-is_expired :
      (now : ℕ) (r : AlertRecord) → Expired now r → is_expired parse now r ≡ true
  unfolding Expired
  Expired-is_expired now r (text, ttl, e, f, h) = with_ttl now r text ttl e f ∙ lt→ltb _ _ h

  later : (now after : ℕ) (r : AlertRecord) → now ≤ after → Expired now r → Expired after r
  unfolding Expired
  later now after r h (text, ttl, e, f, g) = (text, ttl, e, f, omega (arith, g, h))

  module _ (C : Cluster) where
    -- The deletions of some records, in order.
    pub deletions : List AlertRecord → C.State → C.State
    deletions [] s = s
    deletions (r ∷ records) s = deletions records (C.delete_alert_record s r).1

    -- A run over a list deletes, in some order, records of the list only, all that were expired at
    -- its start and none that is not expired at its end.
    pub Cleans : List AlertRecord → C.State → C.State → Type 0
    Cleans records s end =
        (gone : List AlertRecord) × (end ≡ deletions gone s)
        × ((r : AlertRecord) → Member r gone → Member r records × Expired (C.clock end) r)
        × ((r : AlertRecord) → Member r records → Expired (C.clock s) r → Member r gone)

    module _
        (forward : (s : C.State) (r : AlertRecord)
          → C.clock s ≤ C.clock (C.delete_alert_record s r).1) where
      clock_clean :
          (records : List AlertRecord) (s : C.State)
          → C.clock s ≤ C.clock (clean_records parse C records s)
      unfolding clean_records
      clock_clean [] s = omega arith
      clock_clean (r ∷ records) s = elim (Bool-cases (is_expired parse (C.clock s) r)) [
        | inl e ↦
            rw e (omega (arith, clock_clean records (C.delete_alert_record s r).1, forward s r))
        | inr e ↦ rw e (clock_clean records s)
      ]

      -- When no deletion turns the clock back, the cycle's loop deletes of a list of records all that
      -- are expired when it starts, and none that is not expired when it ends.
      pub clean_records-Cleans :
          (records : List AlertRecord) (s : C.State)
          → Cleans records s (clean_records parse C records s)
      unfolding clean_records Cleans deletions
      clean_records-Cleans [] s = ([], refl, λ r m. elim m [ ], λ r m h. m)
      clean_records-Cleans (r ∷ records) s = elim (Bool-cases (is_expired parse (C.clock s) r)) [
        | inl e ↦
            let (gone, end, sound, complete) =
              clean_records-Cleans records (C.delete_alert_record s r).1 in
            rw e (
              r ∷ gone,
              end,
              λ x. elim [
                | inl p ↦ (
                  inl p,
                  later (C.clock s) _ x
                      (omega
                        (arith, clock_clean records (C.delete_alert_record s r).1, forward s r))
                      (subst (Expired (C.clock s)) (sym p) (is_expired-Expired (C.clock s) r e)),
                )
                | inr m ↦ (inr (sound x m).0, (sound x m).1)
              ],
              λ x. elim [
                | inl p ↦ λ h. inl p
                | inr m ↦ λ h. inr (complete x m (later _ _ x (forward s r) h))
              ],
            )
        | inr e ↦
            let (gone, end, sound, complete) = clean_records-Cleans records s in
            rw e (
              gone,
              end,
              λ x m. (inr (sound x m).0, (sound x m).1),
              λ x. elim [
                | inl p ↦ λ h.
                    absurd
                      (cc (e, Expired-is_expired (C.clock s) r (subst (Expired (C.clock s)) p h)))
                | inr m ↦ λ h. complete x m h
              ],
            )
      ]
