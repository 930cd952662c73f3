-- ===== src/Job/State.antt =====
-- The state machine of a job: job_next_state, job_change_state and job_change_goal of init/job.c.
-- The loop of job_change_state runs on fuel.
pub mod Next
pub mod Loop
pub mod Start
pub mod Stop
pub mod Goal
use startup.Base.{
  ℕ, zero, suc, Bool, true, false, not, Option, none, some, is_some, List, [], ◌∷◌, ◌++◌, ◌==◌,
  ◌&&◌, ◌||◌, ltb, if◌then◌else◌, Str,
}
use startup.Job.Emit.{Surroundings, job_emit_event}
use startup.Job.Finished.{job_finished, job_failed, job_process_start, job_process_kill}
use startup.Job.{
  JobGoal, job_stop, job_start, job_respawn, JobState, job_waiting, job_starting,
  job_security_spawning, job_security, job_pre_starting, job_pre_start, job_spawning, job_spawned,
  job_post_starting, job_post_start, job_running, job_pre_stopping, job_pre_stop, job_stopping,
  job_killed, job_post_stopping, job_post_stop, ProcessType, process_main, process_pre_start,
  process_post_start, process_pre_stop, process_post_stop, process_security, JobClass, Job, World,
  Run, done, assertion_failed, diverges, ◌>>=◌, assert, emit_output, goal_changed, state_changed,
  instance_removed, goal_is, state_is,
}

-- The first half of job_change_goal, and all of it where the state is not one of rest.
unfoldable pub set_goal : JobGoal → World → World
set_goal goal w =
    if goal_is w.job.goal goal
    then w
    else emit_output (goal_changed goal) (record w { job = record (w.job) { goal = goal } })

-- The three goals, where all that matters is which of two states follows.
unfoldable pub either : JobGoal → JobState → JobState → World → Run (JobState × World)
either job_stop stop start w = done (stop, w)
either job_start stop start w = done (start, w)
either job_respawn stop start w = assertion_failed

-- In JOB_POST_START and JOB_PRE_STOP a respawn is a start whose next state is stopping; the call
-- `job_change_goal (job, JOB_START)` finds the job in no state of rest there.
unfoldable pub either_respawn : JobGoal → JobState → JobState → World → Run (JobState × World)
unfolding set_goal
either_respawn job_stop stop start w = done (stop, w)
either_respawn job_start stop start w = done (start, w)
either_respawn job_respawn stop start w = done (job_stopping, set_goal job_start w)

abbrev pub main_runs : JobClass → Job → Bool
main_runs class job = class.process process_main && ltb 0 (job.pid process_main)

unfoldable pub from_waiting : JobGoal → World → Run (JobState × World)
from_waiting job_stop w = assertion_failed
from_waiting job_start w = done (job_starting, w)
from_waiting job_respawn w = assertion_failed

unfoldable pub next_of : JobState → JobGoal → JobClass → World → Run (JobState × World)
unfolding either either_respawn from_waiting
next_of job_waiting goal class w = from_waiting goal w
next_of job_starting goal class w = either goal job_stopping job_security_spawning w
next_of job_security_spawning goal class w = either goal job_stopping job_security w
next_of job_security goal class w = either goal job_stopping job_pre_starting w
next_of job_pre_starting goal class w = either goal job_stopping job_pre_start w
next_of job_pre_start goal class w = either goal job_stopping job_spawning w
next_of job_spawning goal class w = either goal job_stopping job_spawned w
next_of job_spawned goal class w = either goal job_stopping job_post_starting w
next_of job_post_starting goal class w = either goal job_stopping job_post_start w
next_of job_post_start goal class w = either_respawn goal job_stopping job_running w
next_of job_running goal class w =
    either goal (if main_runs class w.job then job_pre_stopping else job_stopping) job_stopping w
next_of job_pre_stopping goal class w = either goal job_pre_stop job_pre_stop w
next_of job_pre_stop goal class w = either_respawn goal job_stopping job_running w
next_of job_stopping goal class w = either goal job_killed job_killed w
next_of job_killed goal class w = either goal job_post_stopping job_post_stopping w
next_of job_post_stopping goal class w = either goal job_post_stop job_post_stop w
next_of job_post_stop goal class w = either goal job_waiting job_starting w

unfoldable pub job_next_state : JobClass → World → Run (JobState × World)
unfolding next_of
job_next_state class w = next_of w.job.state w.job.goal class w

-- Which states may come before JOB_STOPPING.
abbrev pub before_stopping : JobState → Bool
before_stopping job_starting = true
before_stopping job_pre_starting = true
before_stopping job_pre_start = true
before_stopping job_security = true
before_stopping job_spawned = true
before_stopping job_post_start = true
before_stopping job_running = true
before_stopping job_pre_stop = true
before_stopping _ = false

abbrev pub kept_env : Option (List Str) → Option (List Str) → Option (List Str)
kept_env (some start_env) env = some start_env
kept_env none env = env

-- After the switch: go on with this target, or return.
pub data Then : Type 0 where
  go_on : JobState → World → Then
  return_now : World → Then

module _ (s : Surroundings) (class : JobClass) (self : ℕ) where
  abbrev continue : Run (JobState × World) → Run Then
  continue r = r >>= λ (target, w). done (go_on target w)

  abbrev next : World → Run Then
  next w = continue (job_next_state class w)

  abbrev stay : JobState → World → Run Then
  stay target w = done (go_on target w)

  -- A state in which a process is started, if the class has it.
  unfoldable pub start_process : ProcessType → World → Run Then
  unfolding job_process_start
  start_process p w = if class.process p then (job_process_start s class p w >>= next) else next w

  -- A state that waits for that process, if the class has it.
  unfoldable pub wait_for : ProcessType → JobState → World → Run Then
  wait_for p target w = if class.process p then stay target w else next w

  unfoldable pub enter_starting : JobState → World → Run Then
  unfolding job_emit_event
  enter_starting old w = assert (goal_is w.job.goal job_start) (
      assert (state_is old job_waiting || state_is old job_post_stop) (
        job_emit_event s class self (record w {
          job = record (w.job) {
            env = kept_env w.job.start_env w.job.env;
            start_env = none;
            stop_env = none;
            failed = false;
            failed_process = none;
            exit_status = some 0;
          };
        })
        >>= λ (event, w').
            stay job_starting (record w' { job = record (w'.job) { blocker = some event } })))

  unfoldable pub enter_running : JobState → World → Run Then
  unfolding job_finished job_emit_event
  enter_running old w = assert (goal_is w.job.goal job_start) (
      assert (state_is old job_post_start || state_is old job_pre_stop) (
        if state_is old job_pre_stop
        then (job_finished false (record w { job = record (w.job) { stop_env = none } }) >>= λ w'.
            stay job_running w')
        else (job_emit_event s class self w >>= λ (event, w').
            if class.task
            then stay job_running w'
            else (job_finished false w' >>= λ w''. stay job_running w''))))

  unfoldable pub enter_stopping : JobState → World → Run Then
  unfolding job_emit_event
  enter_stopping old w = assert (before_stopping old) (
      job_emit_event s class self w >>= λ (event, w').
      stay job_stopping (record w' { job = record (w'.job) { blocker = some event } }))

  unfoldable pub enter_killed : JobState → World → Run Then
  unfolding job_process_kill
  enter_killed old w = assert (state_is old job_stopping) (
      if main_runs class w.job
      then (job_process_kill s class process_main w >>= λ w'. stay job_killed w')
      else next w)

  -- The class is freed with the job if it is to be deleted and is not used any more.
  unfoldable pub enter_waiting : JobState → World → Run Then
  unfolding job_finished job_emit_event
  enter_waiting old w = assert (goal_is w.job.goal job_stop) (
      assert (state_is old job_post_stop || state_is old job_starting) (
        job_emit_event s class self w >>= λ (event, w'). job_finished false w' >>= λ w''. done (
          return_now (
            if class.deleted && s.unused
            then record w'' { freed = true }
            else emit_output instance_removed (record w'' { freed = true })))))

  abbrev expect_from : JobGoal → JobState → JobState → World → Run Then → Run Then
  expect_from goal from old w rest =
      assert (goal_is w.job.goal goal) (assert (state_is old from) rest)

  -- The `switch` on the state that has just been entered; the second argument is `old_state`.
  unfoldable pub enter : JobState → JobState → World → Run Then
  unfolding start_process wait_for enter_starting enter_running enter_stopping enter_killed
      enter_waiting
  enter job_starting old w = enter_starting old w
  enter job_security_spawning old w = expect_from job_start job_starting old w (
      if class.process process_security && s.apparmor_available
      then (job_process_start s class process_security w >>= next)
      else next w)
  enter job_security old w = expect_from job_start job_security_spawning old w (
      if class.process process_security && s.apparmor_available
      then stay job_security w
      else next w)
  enter job_pre_starting old w =
      expect_from job_start job_security old w (start_process process_pre_start w)
  enter job_pre_start old w =
      expect_from job_start job_pre_starting old w (wait_for process_pre_start job_pre_start w)
  enter job_spawning old w =
      expect_from job_start job_pre_start old w (start_process process_main w)
  enter job_spawned old w =
      expect_from job_start job_spawning old w (wait_for process_main job_spawned w)
  enter job_post_starting old w =
      expect_from job_start job_spawned old w (start_process process_post_start w)
  enter job_post_start old w =
      expect_from job_start job_post_starting old w (wait_for process_post_start job_post_start w)
  enter job_running old w = enter_running old w
  enter job_pre_stopping old w =
      expect_from job_stop job_running old w (start_process process_pre_stop w)
  enter job_pre_stop old w =
      expect_from job_stop job_pre_stopping old w (wait_for process_pre_stop job_pre_stop w)
  enter job_stopping old w = enter_stopping old w
  enter job_killed old w = enter_killed old w
  enter job_post_stopping old w =
      assert (state_is old job_killed) (start_process process_post_stop w)
  enter job_post_stop old w =
      assert (state_is old job_post_stopping) (wait_for process_post_stop job_post_stop w)
  enter job_waiting old w = enter_waiting old w

  unfoldable pub go_after : (JobState → World → Run World) → Then → Run World
  go_after again (go_on target w) = again target w
  go_after again (return_now w) = done w

  -- The loop goes on until the job is in the state that it is to be in, or waits for an event.
  unfoldable pub job_change_state : ℕ → JobState → World → Run World
  unfolding go_after
  job_change_state zero target w = diverges
  job_change_state (suc fuel) target w =
      let entered =
        emit_output (state_changed target) (record w { job = record (w.job) { state = target } }) in
      let rest = (enter target w.job.state entered >>= go_after (job_change_state fuel)) in
      if state_is w.job.state target then done w else if is_some w.job.blocker then done w else rest

  -- From any state, the loop enters at most all the others and returns.
  abbrev pub enough : ℕ
  enough = 20

  unfoldable pub induct : JobState → JobState → World → Run World
  induct state rest w =
      if state_is state rest
      then (job_next_state class w >>= λ (target, w'). job_change_state enough target w')
      else done w

  unfoldable pub job_change_goal : JobGoal → World → Run World
  unfolding set_goal induct
  job_change_goal goal w = if goal_is w.job.goal goal then done w else elim goal [
    | job_start ↦ induct w.job.state job_waiting (set_goal job_start w)
    | job_stop ↦ induct w.job.state job_running (set_goal job_stop w)
    | job_respawn ↦ done (set_goal job_respawn w)
  ]
