-- ===== src/Watch/Coordinator.antt =====
-- internal/watch/coordinator.go. A handler is what one goroutine does while it holds `c.mu`; a
-- timer's callback and a worker's goroutine move by steps of their own, in any order. How long a
-- timer waits is not modelled: an armed timer may fire at any step.
pub mod Workers
pub mod Timers
pub mod Invariant
pub mod Handlers
pub mod Preservation
pub mod Due
pub mod Pending
pub mod Shutdown
mod Tests
use soft_ue_index.Base.{
  ℕ, suc, ◌+◌, ◌-◌, ◌<◌, ◌≡◌, Bool, true, false, not, ◌&&◌, ◌||◌, Option, some, none, List, [], ◌∷◌,
  ◌++◌, if◌then◌else◌,
}
use soft_ue_index.Base.Text.{Bytes, is_empty}
use soft_ue_index.Base.Assoc.{Assoc, lookup, insert}
use soft_ue_index.Base.Store.{Store, put_at}
use soft_ue_index.Base.Int.{ℤ, or_default}

-- `fired`: the callback's goroutine exists and has not yet locked the mutex, so `Stop` is too late.
pub data TimerPhase : Type 0 where
  armed stopped fired done : TimerPhase

pub record Timer : Type 0 where
  pub owner : Bytes
  pub phase : TimerPhase

-- A worker waits for a permit, generates, or is on its way to `finish`.
pub data WorkerPhase : Type 0 where
  waiting generating finishing : WorkerPhase

pub record Worker : Type 0 where
  pub id : Bytes
  pub phase : WorkerPhase

pub record ProjectState : Type 0 where
  pub timer : Option ℕ
  pub running : Bool
  pub pending : Bool

pub record Coordinator : Type 0 where
  pub canceled : Bool
  pub closed : Bool
  pub projects : Assoc ProjectState
  pub max_concurrent : ℕ
  pub permits : ℕ  -- the permits taken
  pub timers : Store Timer
  pub next_timer : ℕ
  pub workers : List Worker

unfoldable pub new_coordinator : ℤ → Coordinator
new_coordinator max = record {
  canceled = false;
  closed = false;
  projects = [];
  max_concurrent = or_default max 1;
  permits = 0;
  timers = λ t. none;
  next_timer = 0;
  workers = [];
}

abbrev pub stop_phase : TimerPhase → TimerPhase
stop_phase armed = stopped
stop_phase x = x

-- `timer.Stop()`
abbrev pub stop_at : ℕ → Option Timer → Store Timer → Store Timer
stop_at t none ts = ts
stop_at t (some tm) ts = put_at ts t (record tm { phase = stop_phase tm.phase })

-- `if p.timer != nil { p.timer.Stop() }`
unfoldable pub stop_timer : Option ℕ → Store Timer → Store Timer
stop_timer none ts = ts
stop_timer (some t) ts = stop_at t (ts t) ts

-- `p.timer = c.clock.AfterFunc(c.debounce, …)`, and the write of `p` back to the map
unfoldable pub arm : Bytes → ProjectState → Coordinator → Coordinator
arm id p s = record s {
  projects = insert id (record p { timer = some s.next_timer }) s.projects;
  timers = put_at s.timers s.next_timer (record { owner = id; phase = armed });
  next_timer = suc s.next_timer;
}

abbrev pub new_project : ProjectState
new_project = record { timer = none; running = false; pending = false }

abbrev pub or_new : Option ProjectState → ProjectState
or_new none = new_project
or_new (some p) = p

unfoldable pub touch : Bytes → ProjectState → Coordinator → Coordinator
touch id p s =
    if p.running
    then record s { projects = insert id (record p { pending = true }) s.projects }
    else arm id p (record s { timers = stop_timer p.timer s.timers })

unfoldable pub invalidate : Bytes → Coordinator → Coordinator
invalidate id s =
    if is_empty id then s else if s.closed then s else touch id (or_new (lookup id s.projects)) s

abbrev pub launch : Bytes → Option ProjectState → Coordinator → Coordinator
launch id none s = s
launch id (some p) s = if s.closed || p.running then s else record s {
  projects = insert id (record p { timer = none; running = true }) s.projects;
  workers = s.workers ++ (record { id = id; phase = waiting } ∷ []);
}

-- the callback of a timer
unfoldable pub start : Bytes → Coordinator → Coordinator
start id s = launch id (lookup id s.projects) s

abbrev pub settle : Bytes → Option ProjectState → Coordinator → Coordinator
settle id none s = s
settle id (some p) s =
    if p.pending && not s.canceled
    then arm id (record p { running = false; pending = false }) s
    else record s { projects = insert id (record p { running = false }) s.projects }

unfoldable pub finish : Bytes → Coordinator → Coordinator
finish id s = settle id (lookup id s.projects) s

-- the loop of Close over `c.projects`
unfoldable pub stop_all : Assoc ProjectState → Store Timer → Store Timer
stop_all [] ts = ts
stop_all ((id, p) ∷ ps) ts = stop_all ps (stop_timer p.timer ts)

-- Close: `c.cancel()`, then the section under the lock; `c.wg.Wait()` waits for no worker.
unfoldable pub cancel : Coordinator → Coordinator
cancel s = record s { canceled = true }

unfoldable pub shut : Coordinator → Coordinator
shut s = record s { closed = true; timers = stop_all s.projects s.timers }

-- What may happen next: a call, a timer, or a move of one worker.
pub data Step : Coordinator → Coordinator → Type 0 where
  call_invalidate : (s : Coordinator) (id : Bytes) → Step s (invalidate id s)
  fire :
      (s : Coordinator) (t : ℕ) (id : Bytes)
      → s.timers t ≡ some (record { owner = id; phase = armed })
      → Step s (record s { timers = put_at s.timers t (record { owner = id; phase = fired }) })
  callback :
      (s : Coordinator) (t : ℕ) (id : Bytes)
      → s.timers t ≡ some (record { owner = id; phase = fired })
      → Step s
          (start id (record s { timers = put_at s.timers t (record { owner = id; phase = done }) }))
  -- `case c.permits <- struct{}{}`
  acquire :
      (s : Coordinator) (before after : List Worker) (id : Bytes)
      → s.workers ≡ before ++ (record { id = id; phase = waiting } ∷ after)
      → s.permits < s.max_concurrent
      → Step s (record s {
        permits = suc s.permits;
        workers = before ++ (record { id = id; phase = generating } ∷ after);
      })
  -- `case <-c.ctx.Done()`
  give_up :
      (s : Coordinator) (before after : List Worker) (id : Bytes)
      → s.workers ≡ before ++ (record { id = id; phase = waiting } ∷ after)
      → s.canceled ≡ true
      → Step s (record s { workers = before ++ (record { id = id; phase = finishing } ∷ after) })
  -- Generate has returned: `<-c.permits`, and the report to onResult
  generated :
      (s : Coordinator) (before after : List Worker) (id : Bytes)
      → s.workers ≡ before ++ (record { id = id; phase = generating } ∷ after)
      → Step s (record s {
        permits = s.permits - 1;
        workers = before ++ (record { id = id; phase = finishing } ∷ after);
      })
  -- `c.finish(id)` and the end of the goroutine
  leave :
      (s : Coordinator) (before after : List Worker) (id : Bytes)
      → s.workers ≡ before ++ (record { id = id; phase = finishing } ∷ after)
      → Step s (finish id (record s { workers = before ++ after }))
  call_cancel : (s : Coordinator) → Step s (cancel s)
  -- Close takes the lock after it has cancelled
  call_shut : (s : Coordinator) → s.canceled ≡ true → Step s (shut s)

pub data Steps : Coordinator → Coordinator → Type 0 where
  here : (s : Coordinator) → Steps s s
  more : {s t u : Coordinator} → Steps s t → Step t u → Steps s u
