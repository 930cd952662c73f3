-- ===== src/System/Tests.antt =====
-- The theorems on event_finished applied to two jobs, of which an event blocks one.
use startup.Base.{ℕ, ◌||◌, true, false, none, some, is_some, [], ◌∷◌, ◌++◌, codes, ◌≡◌, refl, arith}
use startup.Blocked.{type_job}
use startup.Event.{Event, event_finished, event_pending, Events}
use startup.Job.Emit.{Surroundings}
use startup.Job.State.Loop.{Settles}
use startup.Job.State.Stop.{rest_killed}
use startup.Job.State.Start.Late.{rest_security}
use startup.Job.{
  JobGoal, job_start, job_stop, JobState, job_starting, job_stopping, job_waiting, process_main,
  process_is, expect_none, trace_none, JobClass, Job, state_is,
}
use startup.System.{System, world_of, from_last_slash, is_failed_name, queue_failed, finish_event}
use startup.System.Failed.{queue_failed-once}
use startup.System.Finish.{Finished, finish_event-starting, finish_event-stopping}

abbrev surroundings : ℕ → Surroundings
surroundings j = record {
  getenv = λ name. none;
  decimal = λ n. codes "0";
  signal_name = λ n. none;
  apparmor_available = true;
  spawn = λ p. 42;
  kill_succeeds = true;
  unused = true;
}

abbrev class : ℕ → JobClass
class j = record {
  name = codes "ssh";
  export = [];
  process = λ p. process_is p process_main;
  expect = expect_none;
  task = false;
  kill_timeout = 5;
  deleted = false;
  normalexit = [];
  respawn = false;
  respawn_limit = 2;
  respawn_interval = 5;
}

abbrev job_in : JobState → JobGoal → Job
job_in state goal = record {
  name = [];
  goal = goal;
  state = state;
  env = none;
  start_env = none;
  stop_env = none;
  pid = λ p. 7;
  blocker = some 3;
  blocking = [];
  kill_process = none;
  failed = false;
  failed_process = none;
  exit_status = none;
  respawn_time = 0;
  respawn_count = 0;
  trace_forks = 0;
  trace_state = trace_none;
}

-- A failed event that blocks the job at 1.
abbrev ended : Event
ended = record {
  name = codes "stopping";
  env = [];
  fd = none;
  progress = event_finished;
  failed = true;
  blockers = 0;
  blocking = record { type = type_job; address = 1 } ∷ [];
}

abbrev events : Events
events = record { store = λ i. ended; events = 3 ∷ []; fresh = 4 }

abbrev system : JobState → JobGoal → System
system state goal = record {
  job = λ j. job_in state goal;
  events = events;
  output = [];
  freed = λ j. false;
}

settles : (state : JobState) (goal : JobGoal) → Settles (world_of 1 (system state goal))
settles state goal = (tt, (λ i. omega arith), refl)

no_failed_name : is_failed_name (codes "stopping") ≡ false
unfolding is_failed_name from_last_slash
no_failed_name = refl

queue_failed-once_example :
    (queued : Events) × (queue_failed 3 events ≡ some queued)
    × (queued.events ≡ (3 ∷ []) ++ 4 ∷ [])
    × ((queued.store 4).name ≡ codes "stopping" ++ codes "/failed")
    × ((queued.store 4).env ≡ [])
    × ((queued.store 4).progress ≡ event_pending)
    × ((later : Events)
        → (later.store 4).name ≡ (queued.store 4).name
        → queue_failed 4 later ≡ some later)
queue_failed-once_example = queue_failed-once 3 events refl no_failed_name

finish_event-starting_example :
    Finished surroundings class
      (finish_event surroundings class 3 (system job_starting job_start))
      3
      1
      (system job_starting job_start)
      (λ v.
        (v.job.state ≡ rest_security (surroundings 1) (class 1) 1)
        × (v.job.goal ≡ job_start)
        × (v.freed ≡ false))
finish_event-starting_example =
    finish_event-starting surroundings class 3 1 (system job_starting job_start) refl refl refl refl
      (settles job_starting job_start)

abbrev rest : JobState
rest = rest_killed (surroundings 1) (class 1) 1 false (world_of 1 (system job_stopping job_stop))

finish_event-stopping_example :
    Finished surroundings class
      (finish_event surroundings class 3 (system job_stopping job_stop))
      3
      1
      (system job_stopping job_stop)
      (λ v.
        (v.job.state ≡ rest)
        × (v.freed ≡ (state_is rest job_waiting || false))
        × (is_some v.job.blocker ≡ state_is rest job_starting))
finish_event-stopping_example =
    finish_event-stopping surroundings class false 3 1 (system job_stopping job_stop) refl refl refl
      refl refl refl (settles job_stopping job_stop)
