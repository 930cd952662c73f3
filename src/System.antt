-- ===== src/System.antt =====
-- Several jobs and their events: event_finished of init/event.c. A job is known by its address, and
-- each call on a job sees it with the events and the output that all share. The D-Bus signal that
-- an event was emitted, and the closing of its descriptor, are left out.
mod Tests
pub mod Failed
pub mod Finish
use startup.Base.{
  ℕ, ◌+◌, ◌&&◌, Bool, true, false, not, Option, none, some, List, [], ◌∷◌, ◌++◌, ◌==◌,
  if◌then◌else◌, Str, codes, str_eq,
}
use startup.Blocked.{
  BlockedType, Blocked, type_job, type_event, type_emit_method, type_job_start_method,
  type_job_stop_method, type_job_restart_method, type_instance_start_method,
  type_instance_stop_method, type_instance_restart_method,
}
use startup.Event.{
  Event, EventProgress, event_pending, event_handling, event_finished, Events, store_event,
  event_new,
}
use startup.Job.Emit.{Surroundings}
use startup.Job.Errors.{advance}
use startup.Job.{
  JobClass, Job, Output, reply, error_reply, World, Run, done, assertion_failed, ◌>>=◌, assert,
  checked,
}

pub record System : Type 0 where
  pub job : ℕ → Job
  pub events : Events
  pub output : List Output
  pub freed : ℕ → Bool

abbrev pub world_of : ℕ → System → World
world_of j sys = record {
  job = sys.job j;
  events = sys.events;
  output = sys.output;
  freed = sys.freed j;
}

abbrev pub put : ℕ → World → System → System
put j w sys = record {
  job = λ k. if k == j then w.job else sys.job k;
  events = w.events;
  output = w.output;
  freed = λ k. if k == j then w.freed else sys.freed k;
}

abbrev pub on_job : ℕ → (World → Run World) → System → Run System
on_job j f sys = f (world_of j sys) >>= λ w. done (put j w sys)

abbrev is_finished : EventProgress → Bool
is_finished event_finished = true
is_finished _ = false

-- strrchr (name, '/')
unfoldable pub from_last_slash : Str → Option Str
from_last_slash [] = none
from_last_slash (c ∷ name) = elim (from_last_slash name) [
  | some rest ↦ some rest
  | none ↦ if c == b'/' then some (c ∷ name) else none
]

-- Whether the name is that of the event for another one's failure.
unfoldable pub is_failed_name : Str → Bool
unfolding from_last_slash
is_failed_name name = elim (from_last_slash name) [
  | none ↦ false
  | some rest ↦ str_eq rest (codes "/failed")
]

-- `nih_free` takes the event out of the list.
unfoldable pub remove_event : ℕ → List ℕ → List ℕ
remove_event i [] = []
remove_event i (e ∷ es) = let rest = remove_event i es in if e == i then rest else e ∷ rest

-- A new pending event for an event that failed, unless that is such an event itself.
unfoldable pub queue_failed : ℕ → Events → Option Events
unfolding event_new is_failed_name
queue_failed i events =
    let event = events.store i in
    if event.failed && not (is_failed_name event.name)
    then elim (event_new (event.name ++ codes "/failed") event.env events) [
      | none ↦ none
      | some (address, queued) ↦ some queued
    ]
    else some events

module _ (s : ℕ → Surroundings) (class : ℕ → JobClass) where
  -- One entry of `event->blocking`.
  unfoldable pub finish_waiter : ℕ → BlockedType → Blocked → System → Run System
  unfolding advance
  finish_waiter i type_job b sys =
      on_job b.address
        (λ w.
          advance (s b.address) (class b.address) b.address
            (record w { job = record (w.job) { blocker = none } }))
        sys
  finish_waiter i type_emit_method b sys =
      let answer = if (sys.events.store i).failed then error_reply b else reply b in
      done (record sys { output = sys.output ++ answer ∷ [] })
  finish_waiter i type_event b sys = assertion_failed
  finish_waiter i type_job_start_method b sys = assertion_failed
  finish_waiter i type_job_stop_method b sys = assertion_failed
  finish_waiter i type_job_restart_method b sys = assertion_failed
  finish_waiter i type_instance_start_method b sys = assertion_failed
  finish_waiter i type_instance_stop_method b sys = assertion_failed
  finish_waiter i type_instance_restart_method b sys = assertion_failed

  unfoldable pub finish_waiters : ℕ → List Blocked → System → Run System
  unfolding finish_waiter
  finish_waiters i [] sys = done sys
  finish_waiters i (b ∷ bs) sys = finish_waiter i b.type b sys >>= finish_waiters i bs

  unfoldable pub finish_event : ℕ → System → Run System
  unfolding finish_waiters queue_failed remove_event
  finish_event i sys =
      let event = sys.events.store i in
      assert (is_finished event.progress) (
        finish_waiters i event.blocking sys >>= λ sys'.
        checked (queue_failed i sys'.events) >>= λ events.
        done (record sys' { events = record events { events = remove_event i events.events } }))
