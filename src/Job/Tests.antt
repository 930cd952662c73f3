-- ===== src/Job/Tests.antt =====
-- The theorems on job.c applied to a job with a main process and no other.
use startup.Base.{
  ℕ, ◌+◌, true, false, Option, none, some, List, [], ◌∷◌, ◌++◌, ◌||◌, ◌&&◌, codes, ◌≡◌, refl, arith,
  ltb, ◌⊎◌,
}
use startup.Blocked.{Blocked, type_event, type_job_start_method}
use startup.Event.{Event, event_handling}
use startup.Job.Emit.{Surroundings}
use startup.Job.Finished.{job_finished, job_failed}
use startup.Job.Finished.Answers.{
  AllWait, IsCovered, held, answers, job_finished_lem, job_failed_lem,
}
use startup.Job.State.{job_change_goal, job_next_state}
use startup.Job.State.Loop.{Settles}
use startup.Job.State.Next.{leads_on, settled, IsProgress, job_next_state_lem}
use startup.Job.State.Start.Late.{ComesTo, rest_security}
use startup.Job.State.Start.{job_change_state-start}
use startup.Job.Errors.{job_child_error_handler}
use startup.Job.Requests.{request_start}
use startup.Job.Requests.Begin.{Accepted, request_start-waiting}
use startup.Job.Errors.Stopped.{
  Stopping, job_child_error_handler-needed, job_child_error_handler-security,
}
use startup.Job.State.Goal.{Begins, rest_stop, job_change_goal-start, job_change_goal-stop}
use startup.Job.State.Stop.{StopsAt, rest_killed, job_change_state-stop}
use startup.Job.{
  JobGoal, job_start, job_stop, JobState, job_waiting, job_running, job_starting, job_stopping,
  job_killed, job_security_spawning, job_post_start, ProcessType, process_main, process_security,
  job_spawned, job_security, expect_none, trace_none, JobClass, Job, World, done, assertion_failed,
  failed_signal, process_is,
}

abbrev surroundings : Surroundings
surroundings = record {
  getenv = λ name. none;
  decimal = λ n. codes "0";
  signal_name = λ n. none;
  apparmor_available = true;
  spawn = λ p. 42;
  kill_succeeds = true;
  unused = true;
}

abbrev service : JobClass
service = record {
  name = codes "ssh";
  export = [];
  process = λ p. process_is p process_main;
  expect = expect_none;
  task = false;
  kill_timeout = 5;
  deleted = false;
  normalexit = [];
  respawn = true;
  respawn_limit = 2;
  respawn_interval = 5;
}

-- An event and a caller wait for the job.
abbrev waiting_on_it : List Blocked
waiting_on_it =
    record { type = type_event; address = 3 }
    ∷ record { type = type_job_start_method; address = 8 }
    ∷ []

abbrev job_in : JobState → JobGoal → Job
job_in state goal = record {
  name = [];
  goal = goal;
  state = state;
  env = none;
  start_env = none;
  stop_env = none;
  pid = λ p. 0;
  blocker = none;
  blocking = waiting_on_it;
  kill_process = none;
  failed = false;
  failed_process = none;
  exit_status = none;
  respawn_time = 0;
  respawn_count = 0;
  trace_forks = 0;
  trace_state = trace_none;
}

abbrev handling : Event
handling = record {
  name = codes "runlevel";
  env = [];
  fd = none;
  progress = event_handling;
  failed = false;
  blockers = 1;
  blocking = [];
}

abbrev world_in : JobState → JobGoal → World
world_in state goal = record {
  job = job_in state goal;
  events = record { store = λ i. handling; events = 3 ∷ []; fresh = 4 };
  output = [];
  freed = false;
}

waiting : AllWait waiting_on_it
waiting = (refl, (refl, tt))

covered : IsCovered waiting_on_it (λ i. handling)
covered i = ground arith

settles : (state : JobState) (goal : JobGoal) → Settles (world_in state goal)
settles state goal = (waiting, covered, refl)

job_finished_lem_example :
    (w' : World) × (job_finished true (world_in job_starting job_start) ≡ done w')
    × ((i : ℕ) → (w'.events.store i).blockers + held waiting_on_it i ≡ 1)
    × ((i : ℕ) → (w'.events.store i).failed ≡ (false || (true && ltb 0 (held waiting_on_it i))))
    × (w'.job ≡ record (job_in job_starting job_start) { blocking = [] })
    × (w'.output ≡ [] ++ answers true waiting_on_it)
    × (w'.freed ≡ false)
job_finished_lem_example = job_finished_lem true (world_in job_starting job_start) waiting covered

job_failed_lem_example :
    (w' : World) × (job_failed (some process_main) (some 1) (world_in job_post_start job_start)
      ≡ done w')
    × (w'.job ≡ record (job_in job_post_start job_start) {
      failed = true;
      failed_process = some process_main;
      exit_status = some 1;
      blocking = [];
    })
    × (w'.output ≡ ([] ++ failed_signal (some 1) ∷ []) ++ answers true waiting_on_it)
    × ((i : ℕ) → (w'.events.store i).failed ≡ (false || ltb 0 (held waiting_on_it i)))
    × ((p : Option ProcessType) (n : Option ℕ) → job_failed p n w' ≡ done w')
job_failed_lem_example =
    job_failed_lem (some process_main) (some 1) (world_in job_post_start job_start) refl waiting
      covered

job_next_state_lem_example :
    ((leads_on job_post_start job_start ≡ true)
      × ((target : JobState) × (job_next_state service (world_in job_post_start job_start)
            ≡ done (target, settled (world_in job_post_start job_start)))
          × IsProgress job_post_start job_start target))
    ⊎ ((leads_on job_post_start job_start ≡ false)
        × (job_next_state service (world_in job_post_start job_start) ≡ assertion_failed))
job_next_state_lem_example = job_next_state_lem service (world_in job_post_start job_start)

job_change_state-start_example :
    ComesTo surroundings service 1 20 job_security_spawning
      (world_in job_starting job_start)
      (rest_security surroundings service 1)
job_change_state-start_example =
    job_change_state-start surroundings service 1 (world_in job_starting job_start) refl refl refl
      (settles job_starting job_start)

job_change_state-stop_example :
    StopsAt surroundings service 1 20 job_killed
      (world_in job_stopping job_stop)
      (rest_killed surroundings service 1 false (world_in job_stopping job_stop))
job_change_state-stop_example =
    job_change_state-stop surroundings service 1 false (world_in job_stopping job_stop) refl refl
      refl refl refl (settles job_stopping job_stop)

job_change_goal-start_example :
    Begins surroundings service 1
      (job_change_goal surroundings service 1 job_start (world_in job_waiting job_stop))
      (world_in job_waiting job_stop)
      job_starting
      job_start
      job_starting
job_change_goal-start_example =
    job_change_goal-start surroundings service 1 (world_in job_waiting job_stop) refl refl refl
      (settles job_waiting job_stop)

job_change_goal-stop_example :
    Begins surroundings service 1
      (job_change_goal surroundings service 1 job_stop (world_in job_running job_start))
      (world_in job_running job_start)
      (rest_stop surroundings service 1 (world_in job_running job_start))
      job_stop
      job_stopping
job_change_goal-stop_example =
    job_change_goal-stop surroundings service 1 (world_in job_running job_start) refl refl refl
      (settles job_running job_start)

job_child_error_handler-needed_example :
    Stopping surroundings service 1
      (job_child_error_handler surroundings service 1 process_main (world_in job_spawned job_start))
job_child_error_handler-needed_example =
    job_child_error_handler-needed surroundings service 1 false (world_in job_spawned job_start)
      refl refl refl refl waiting covered

job_child_error_handler-security_example :
    (w' : World) × (job_child_error_handler surroundings service 1 process_security
        (world_in job_security job_start)
      ≡ done w')
    × (w'.job.state ≡ job_security)
    × (w'.job.goal ≡ job_stop)
    × (w'.job.failed ≡ true)
    × (w'.job.pid process_security ≡ 0)
job_child_error_handler-security_example =
    job_child_error_handler-security surroundings service 1 (world_in job_security job_start) refl
      refl refl waiting covered

request_start-waiting_example :
    Accepted surroundings service 1
      (request_start surroundings service 1 6 true (world_in job_waiting job_stop))
      job_starting
      job_start
      job_starting
request_start-waiting_example =
    request_start-waiting surroundings service 1 6 true (world_in job_waiting job_stop) refl refl
      refl (settles job_waiting job_stop)
