-- ===== src/Tasks.antt =====
-- internal/controller/monitorpod_controller.go: goroutines under a `map[string]context.CancelFunc`, as
-- `MonitorManager` keeps them for MonitorPods and `runMonitorLoop` for pods. A handle stands for the
-- context that `context.WithCancel` makes and for its cancel function.
pub mod Sound
pub mod Stop
use smart_log.Base.{ℕ, suc, String, ◌==◌, Bool, true, false, Option, none, some, List, [], ◌∷◌}
use smart_log.Base.{if◌then◌else◌, eqb}
use smart_log.Base.Dict

-- A goroutine that was started: its context, the key and what it was started with.
pub record Task (A : Type 0) : Type 0 where
  pub handle : ℕ
  pub key : String
  pub payload : A
  pub cancelled : Bool

pub record Registry (A : Type 0) : Type 0 where
  pub cancels : Dict.Dict ℕ
  pub tasks : List (Task A)
  pub next : ℕ

module _ {A : Type 0} where
  unfoldable pub empty_registry : Registry A
  empty_registry = record { cancels = []; tasks = []; next = 0 }

  unfoldable pub cancel_task : ℕ → List (Task A) → List (Task A)
  cancel_task h [] = []
  cancel_task h (t ∷ ts) =
      let rest = cancel_task h ts in
      if eqb t.handle h then record t { cancelled = true } ∷ rest else t ∷ rest

  -- `cancel()`
  unfoldable pub cancel : ℕ → Registry A → Registry A
  unfolding cancel_task
  cancel h r = record r { tasks = cancel_task h r.tasks }

  -- `context.WithCancel`, the entry in the map, and `go`.
  unfoldable pub start : String → A → Registry A → Registry A
  start key payload r = record {
    cancels = Dict.insert key r.next r.cancels;
    tasks = record { handle = r.next; key = key; payload = payload; cancelled = false } ∷ r.tasks;
    next = suc r.next;
  }

  unfoldable pub forget : String → Registry A → Registry A
  forget key r = record r { cancels = Dict.erase key r.cancels }

  -- The cancellation of the entry of a key, if it has one.
  unfoldable pub cancel_entry : Option ℕ → Registry A → Registry A
  unfolding cancel
  cancel_entry none r = r
  cancel_entry (some h) r = cancel h r

  unfoldable pub stop_entry : Option ℕ → String → Registry A → Registry A
  unfolding cancel forget
  stop_entry none key r = r
  stop_entry (some h) key r = forget key (cancel h r)

  -- `if cancel, exists := m[key]; exists { cancel(); delete(m, key) }`
  unfoldable pub stop_key : String → Registry A → Registry A
  unfolding stop_entry
  stop_key key r = stop_entry (Dict.lookup key r.cancels) key r
