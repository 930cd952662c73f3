-- ===== src/Process/Tests.antt =====
-- The theorems on job_process.c applied to a service that respawns and forks into the background.
use startup.Base.{
  ℕ, ◌+◌, ◌==◌, ◌||◌, ◌&&◌, not, true, false, none, some, is_some, [], ◌∷◌, codes, if◌then◌else◌,
  length, ltb, ◌≡◌, refl, arith, ◌++◌,
}
use startup.Event.{Event, event_handling}
use startup.Job.Emit.{Surroundings}
use startup.Job.State.Loop.{Settles}
use startup.Job.State.Stop.{goal_of, rest_post_stop}
use startup.Job.State.Start.Late.{rest_post_start, rest_spawned}
use startup.Job.{
  JobGoal, job_start, job_stop, JobState, job_running, job_starting, job_stopping, job_waiting,
  job_killed, job_pre_start, job_spawned, process_main, process_pre_start, process_pre_stop,
  process_is, ExpectType, expect_daemon, trace_new, trace_normal, TraceState, sigkill_sent,
  JobClass, Job, World, done, ◌>>=◌, state_is,
}
use startup.Process.{Moment, main_failed, job_process_terminated}
use startup.Process.Stops.{Ended}
use startup.Process.Terminated.{respawns, job_process_terminated-running}
use startup.Process.Others.{
  Becomes, job_process_terminated-pre_start, job_process_kill_timer-handler,
}
use startup.Process.Runaway.{found, catch_runaway-found}
use startup.Process.Restart.{RunsOn, ending, request_restart-pre_stop}
use startup.Job.Requests.Restart.{restart_output}
use startup.Job.Requests.{accepted, request_restart}
use startup.Process.Handler.{
  job_process_kill_timer, child_killed, Ptrace, child_ptrace, child_trapped, job_process_handler,
}
use startup.Process.Traced.{
  not_stopped_yet, first_trap, fork_notice, job_process_trace_fork-later,
  job_process_handler-daemon,
}

abbrev surroundings : Surroundings
surroundings = record {
  getenv = λ name. none;
  decimal = λ n. codes "0";
  signal_name = λ n. none;
  apparmor_available = true;
  spawn = λ p. 42;
  kill_succeeds = true;
  unused = true;
}

abbrev service : ExpectType → JobClass
service expect = record {
  name = codes "ssh";
  export = [];
  process = λ p. process_is p process_main || process_is p process_pre_start;
  expect = expect;
  task = false;
  kill_timeout = 5;
  deleted = false;
  normalexit = 0 ∷ [];
  respawn = true;
  respawn_limit = 2;
  respawn_interval = 5;
}

abbrev job_in : JobState → JobGoal → TraceState → Job
job_in state goal trace = record {
  name = [];
  goal = goal;
  state = state;
  env = none;
  start_env = none;
  stop_env = none;
  pid = λ p. 7;
  blocker = none;
  blocking = [];
  kill_process = none;
  failed = false;
  failed_process = none;
  exit_status = none;
  respawn_time = 0;
  respawn_count = 0;
  trace_forks = 0;
  trace_state = trace;
}

abbrev handling : Event
handling = record {
  name = codes "runlevel";
  env = [];
  fd = none;
  progress = event_handling;
  failed = false;
  blockers = 1;
  blocking = [];
}

abbrev world_in : JobState → JobGoal → TraceState → World
world_in state goal trace = record {
  job = job_in state goal trace;
  events = record { store = λ i. handling; events = 3 ∷ []; fresh = 4 };
  output = [];
  freed = false;
}

settles :
    (state : JobState) (goal : JobGoal) (trace : TraceState) → Settles (world_in state goal trace)
settles state goal trace = (tt, (λ i. omega arith), refl)

abbrev moment : Moment
moment = record { now = 100; disable_respawn = false; has_process_data = false }

-- The child of a process has the next number.
abbrev ptrace : Ptrace
ptrace = record { set_options = λ pid. true; event_message = λ pid. some (pid + 1) }

job_process_terminated-running_example :
    Ended surroundings
      (service expect_daemon)
      1
      (job_process_terminated surroundings
        (service expect_daemon)
        1
        process_main
        9
        false
        moment
        (world_in job_running job_start trace_normal))
      (goal_of (
        respawns surroundings
          (service expect_daemon)
          1
          9
          moment
          (job_in job_running job_start trace_normal)))
      (main_failed surroundings (service expect_daemon) 1 9
        && not (
            respawns surroundings
              (service expect_daemon)
              1
              9
              moment
              (job_in job_running job_start trace_normal)))
job_process_terminated-running_example =
    job_process_terminated-running surroundings (service expect_daemon) 1 9 moment
      (world_in job_running job_start trace_normal) refl refl refl refl
      (settles job_running job_start trace_normal)

job_process_terminated-pre_start_example :
    Becomes surroundings
      (service expect_daemon)
      1
      (job_process_terminated surroundings
        (service expect_daemon)
        1
        process_pre_start
        1
        false
        moment
        (world_in job_pre_start job_start trace_normal))
      (if 1 == 0 then rest_spawned surroundings (service expect_daemon) 1 else job_stopping)
      (if 1 == 0 then job_start else job_stop)
job_process_terminated-pre_start_example =
    job_process_terminated-pre_start surroundings (service expect_daemon) 1 1 moment
      (world_in job_pre_start job_start trace_normal) refl refl refl refl
      (settles job_pre_start job_start trace_normal)

-- A job whose main process was sent TERM.
abbrev killing : World
killing = record (world_in job_killed job_start trace_normal) {
  job = record (job_in job_killed job_start trace_normal) { kill_process = some process_main };
}

job_process_kill_timer-handler_example :
    (w₁ : World) × (job_process_kill_timer killing ≡ done w₁)
    × (w₁.output ≡ [] ++ sigkill_sent 7 ∷ [])
    × (w₁.job ≡ record (killing.job) { kill_process = none })
    × (w₂ : World) × (job_process_handler surroundings
          (service expect_daemon)
          1
          ptrace
          process_main
          child_killed
          9
          moment
          w₁
        ≡ done w₂)
    × (w₂.job.state ≡ rest_post_stop surroundings (service expect_daemon) 1 true)
    × (w₂.freed ≡ (
        state_is (rest_post_stop surroundings (service expect_daemon) 1 true) job_waiting || false))
    × (is_some w₂.job.blocker
        ≡ state_is (rest_post_stop surroundings (service expect_daemon) 1 true) job_starting)
job_process_kill_timer-handler_example =
    job_process_kill_timer-handler surroundings (service expect_daemon) 1 true ptrace moment killing
      refl refl refl refl refl (settles job_killed job_start trace_normal)

catch_runaway-found_example :
    found (service expect_daemon) (100 ∷ 101 ∷ 103 ∷ []) (job_in job_running job_start trace_normal)
    ≡ ltb 2 (length {A = ℕ} (100 ∷ 101 ∷ 103 ∷ []))
catch_runaway-found_example =
    catch_runaway-found (service expect_daemon) 100 (101 ∷ 103 ∷ [])
      (job_in job_running job_start trace_normal) refl refl (omega arith)
      (omega arith, (omega arith, tt))

job_process_trace_fork-later_example :
    job_process_handler surroundings
      (service expect_daemon)
      1
      ptrace
      process_main
      child_ptrace
      1
      moment
      (world_in job_spawned job_start trace_normal)
    ≡ (job_process_handler surroundings
          (service expect_daemon)
          1
          (not_stopped_yet ptrace)
          process_main
          child_ptrace
          1
          moment
          (world_in job_spawned job_start trace_normal)
        >>= λ w'.
            job_process_handler surroundings
              (service expect_daemon)
              1
              ptrace
              process_main
              child_trapped
              19
              moment
              w')
job_process_trace_fork-later_example =
    job_process_trace_fork-later surroundings (service expect_daemon) 1 ptrace process_main 8 moment
      (world_in job_spawned job_start trace_normal) refl refl refl

job_process_handler-daemon_example :
    (w₁ : World) × ((first_trap surroundings
          (service expect_daemon)
          1
          ptrace
          moment
          (world_in job_spawned job_start trace_new)
        >>= fork_notice surroundings (service expect_daemon) 1 ptrace moment)
      ≡ done w₁)
    × (w₁.job.state ≡ job_spawned)
    × (w₁.job.pid process_main ≡ 8)
    × (w₂ : World) × (fork_notice surroundings (service expect_daemon) 1 ptrace moment w₁ ≡ done w₂)
    × (w₂.job.state ≡ rest_post_start surroundings (service expect_daemon) 1)
    × (w₂.job.goal ≡ job_start)
    × (w₂.freed ≡ false)
job_process_handler-daemon_example =
    job_process_handler-daemon surroundings (service expect_daemon) 1 ptrace 8 9 moment
      (world_in job_spawned job_start trace_new) refl refl refl refl refl refl refl refl refl refl
      refl (settles job_spawned job_start trace_new)

-- A service with a pre-stop process as well.
abbrev careful : JobClass
careful = record (service expect_daemon) { process = λ p. true }

request_restart-pre_stop_example :
    (w₁ : World) × (request_restart surroundings careful 1 6 true
        (world_in job_running job_start trace_normal)
      ≡ done (accepted w₁))
    × RunsOn surroundings careful 1
        (job_process_terminated surroundings careful 1 process_pre_stop 0 false moment w₁)
        7
        (restart_output true 6 ++ ending true 6)
request_restart-pre_stop_example =
    request_restart-pre_stop surroundings careful 1 6 0 true moment
      (world_in job_running job_start trace_normal) refl refl refl refl refl
      (settles job_running job_start trace_normal)
