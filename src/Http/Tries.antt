-- ===== src/Http/Tries.antt =====
-- How a loop of attempts ends.
use smart_log.Base.{
  ℕ, zero, suc, ◌+◌, ◌-◌, ◌≤◌, ◌≡◌, refl, sym, ap, ◌∙◌, ◌⊎◌, ◌↔◌, inl, inr, Bool, true, false,
  Bool-cases, arith,
}
use smart_log.Errors.{Result}
use smart_log.Http.{Request, Response, Http, pause, attempts, is_accepted}

module _ {S : Type 0} (http : Http S) (stops : Result Response → Bool) (request : Request) where
  abbrev pub sent : ℕ → S → Result Response × S
  sent attempt s = http.send (pause http stops request attempt s) request

  -- Some attempts from a number on, none of which stopped the loop, lead from a state to another.
  pub data Tried : ℕ → ℕ → S → S → Type 0 where
    untried : {attempt : ℕ} {s : S} → Tried 0 attempt s s
    tried :
        {k attempt : ℕ} {s t : S}
        → stops (sent attempt s).0 ≡ false
        → Tried k (suc attempt) (sent attempt s).1 t
        → Tried (suc k) attempt s t

  -- The loop ends by the attempt after these, which stops it or is the last one allowed.
  unfoldable pub Ends : ℕ → ℕ → S → Result Response × S → Type 0
  Ends more attempt s out =
      (k : ℕ) × (t : S) × Tried k attempt s t
      × (k ≤ more)
      × (out ≡ sent (k + attempt) t)
      × ((stops out.0 ≡ true) ⊎ (k ≡ more))

  -- From an attempt on, the loop sends the request at most once more than the attempts that may
  -- follow, each time after a pause that the attempt's number gives, and its result is that of the
  -- first attempt that stops it, or of the last one.
  pub attempts-Ends :
      (more attempt : ℕ) (s : S) → Ends more attempt s (attempts http stops request more attempt s)
  unfolding attempts Ends
  attempts-Ends zero attempt s =
      (0, s, untried, omega arith, ap (λ n. sent n s) (omega arith), inr refl)
  attempts-Ends (suc more) attempt s = elim (Bool-cases (stops (sent attempt s).0)) [
    | inl e ↦ rw (attempts, e) (0, s, untried, omega arith, ap (λ n. sent n s) (omega arith), inl e)
    | inr e ↦
        let (k, t, path, le, out, last) = attempts-Ends more (suc attempt) (sent attempt s).1 in
        rw (attempts, e)
          (
            suc k,
            t,
            tried e path,
            omega (arith, le),
            out ∙ ap (λ n. sent n t) (omega arith),
            elim last [ inl p ↦ inl p | inr p ↦ inr (ap suc p) ],
          )
  ]

  -- A state that failed attempts reach is the loop's, as long as attempts are left.
  attempts-Tried :
      (more k total attempt : ℕ) (s t : S)
      → Tried k attempt s t
      → k + more ≡ total
      → attempts http stops request total attempt s
        ≡ attempts http stops request more (k + attempt) t
  unfolding attempts
  attempts-Tried more k total attempt s t untried e =
      ap (λ n. attempts http stops request n attempt s) (omega (arith, e))
      ∙ ap (λ n. attempts http stops request more n s) (omega arith)
  attempts-Tried more (suc k) zero attempt s t (tried f path) e = absurd (omega (arith, e))
  attempts-Tried more (suc k) (suc total) attempt s t (tried f path) e =
      rw (attempts, f)
        (attempts-Tried more k total (suc attempt) _ t path (omega (arith, e))
          ∙ ap (λ n. attempts http stops request more n t) (omega arith))

  attempts_settled :
      (more attempt : ℕ) (s : S)
      → stops (sent attempt s).0 ≡ true
      → attempts http stops request more attempt s ≡ sent attempt s
  unfolding attempts
  attempts_settled zero attempt s e = refl
  attempts_settled (suc more) attempt s e = rw (attempts, e) refl

  -- The first attempt that stops the loop gives its result.
  pub attempts_stopped :
      (more k : ℕ) (s t : S)
      → Tried k 0 s t
      → k ≤ more
      → stops (sent k t).0 ≡ true
      → attempts http stops request more 0 s ≡ sent k t
  attempts_stopped more k s t path le stopped =
      attempts-Tried (more - k) k more 0 s t path (omega (arith, le))
      ∙ ap (λ n. attempts http stops request (more - k) n t) (omega arith)
      ∙ attempts_settled (more - k) k t stopped

  -- One of the first attempts is accepted, and none before it stopped the loop.
  pub Delivered : ℕ → S → Type 0
  Delivered more s =
      (k : ℕ) × (t : S) × Tried k 0 s t × (k ≤ more) × (is_accepted (sent k t).0 ≡ true)

  -- When an accepted response stops the loop, the loop's result is accepted exactly when one of its
  -- allowed attempts is, after attempts that did not stop it.
  pub attempts-Delivered :
      (more : ℕ) (s : S)
      → ((r : Result Response) → is_accepted r ≡ true → stops r ≡ true)
      → (is_accepted (attempts http stops request more 0 s).0 ≡ true) ↔ Delivered more s
  unfolding Ends Delivered
  attempts-Delivered more s accept = (
    λ h.
        let (k, t, path, le, out, last) = attempts-Ends more 0 s in
        let same = out ∙ ap (λ n. sent n t) (omega arith) in
        (k, t, path, le, sym (ap (λ o. is_accepted o.0) same) ∙ h),
    λ (k, t, path, le, h).
        ap (λ o. is_accepted o.0) (attempts_stopped more k s t path le (accept _ h)) ∙ h,
  )
