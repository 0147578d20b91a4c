-- ===== src/Http.antt =====
-- The HTTP requests of internal/controller/monitorpod_controller.go: the interface of net/http that its
-- senders use, and the loop of at most three attempts that `sendWebhookAlert`, `sendFeishuAlert` and
-- `callLanguageModel` each write out.
pub mod Tries
use smart_log.Base.{
  ℕ, zero, suc, String, Bool, true, false, ◌||◌, Option, none, some, List, if◌then◌else◌, ltb,
}
use smart_log.Errors.{Error, Result, ok, err, is_deadline_exceeded}

-- The headers are those of the calls of `Header.Set`, in order.
pub record Request : Type 0 where
  pub url : String
  pub headers : List (String × String)
  pub body : String

pub record Response : Type 0 where
  pub status_code : ℕ
  pub status : String
  pub body : String

pub record Http (S : Type 0) : Type 0 where
  -- `Client.Do`
  pub send : S → Request → Result Response × S
  -- `time.Sleep`, in seconds.
  pub sleep : ℕ → S → S
  -- The error of `http.NewRequestWithContext` for a URL.
  pub request_error : String → Option Error

-- `err == nil && resp.StatusCode < 500`
unfoldable pub is_settled : Result Response → Bool
is_settled (ok response) = ltb response.status_code 500
is_settled (err e) = false

-- The language model's loop also returns when the context's deadline has passed.
unfoldable pub is_settled_or_late : Result Response → Bool
unfolding is_settled
is_settled_or_late (ok response) = is_settled (ok response)
is_settled_or_late (err e) = is_deadline_exceeded e

-- No error and `resp.StatusCode < 400`.
unfoldable pub is_accepted : Result Response → Bool
is_accepted (ok response) = ltb response.status_code 400
is_accepted (err e) = false

module _ {S : Type 0} (http : Http S) (stops : Result Response → Bool) (request : Request) where
  -- `if attempt > 0 { time.Sleep(retrySleep * time.Duration(attempt)) }`
  unfoldable pub pause : ℕ → S → S
  pause zero s = s
  pause (suc n) s = http.sleep (suc n) s

  -- The loop from an attempt on, with the number of the attempts that may follow it.
  unfoldable pub attempts : ℕ → ℕ → S → Result Response × S
  unfolding pause
  attempts zero attempt s = http.send (pause attempt s) request
  attempts (suc more) attempt s =
      let out = http.send (pause attempt s) request in
      let rest = attempts more (suc attempt) out.1 in if stops out.0 then out else rest
