-- ===== src/Process.antt =====
-- Supervision of a job's processes: init/job_process.c from job_process_handler on, for a process
-- that job_process_find has found. Logs, utmp records and the data that passes between a child and
-- init while it is set up are left out.
mod Tests
pub mod Runaway
pub mod Stops
pub mod Terminated
pub mod Others
pub mod Restart
pub mod Handler
pub mod Traced
use startup.Base.{
  ℕ, ◌+◌, ◌-◌, ◌*◌, Bool, true, false, not, Option, none, some, List, [], ◌∷◌, ◌==◌, ◌&&◌, ◌||◌,
  ltb, if◌then◌else◌, length,
}
use startup.Job.Emit.{Surroundings}
use startup.Job.Finished.{job_failed}
use startup.Job.Errors.{advance}
use startup.Job.{
  JobGoal, job_start, job_stop, job_respawn, JobState, job_security_spawning, job_security,
  job_pre_starting, job_pre_start, job_spawning, job_spawned, job_post_starting, job_post_start,
  job_running, job_pre_stopping, job_pre_stop, job_stopping, job_killed, job_post_stopping,
  job_post_stop, ProcessType, process_main, process_pre_start, process_post_start, process_pre_stop,
  process_post_stop, process_security, expect_stop, expect_fork, expect_none, expect_daemon,
  expect_readyfd, ExpectType, TraceState, trace_none, trace_new, trace_new_child, trace_normal,
  JobClass, Job, World, Run, done, assertion_failed, diverges, ◌>>=◌, assert, goal_is, state_is,
  process_is,
}
use startup.Job.State.{job_next_state, job_change_state, job_change_goal, enough}

-- The child was spawned, but it is not known yet whether it could be set up.
abbrev pub is_spawning : JobState → Bool
is_spawning st =
    state_is st job_security_spawning
    || state_is st job_pre_starting
    || state_is st job_spawning
    || state_is st job_post_starting
    || state_is st job_pre_stopping
    || state_is st job_post_stopping

abbrev pub may_lose_main : JobState → Bool
may_lose_main st =
    state_is st job_running
    || state_is st job_spawned
    || state_is st job_killed
    || state_is st job_stopping
    || state_is st job_post_start
    || state_is st job_pre_stop

unfoldable pub is_normal : ℕ → List ℕ → Bool
is_normal status [] = false
is_normal status (n ∷ ns) = n == status || is_normal status ns

-- The local variables `failed`, `stop` and `state` of job_process_terminated.
pub record Verdict : Type 0 where
  pub failed : Bool
  pub stop : Bool
  pub state : Bool

abbrev pub verdict : Bool → Bool → Bool → Verdict
verdict failed stop state = record { failed = failed; stop = stop; state = state }

-- The surroundings of a call: the time, whether respawning is disabled, and whether `process_data` of
-- the job has an entry for the process.
pub record Moment : Type 0 where
  pub now : ℕ
  pub disable_respawn : Bool
  pub has_process_data : Bool

-- The clock does not go back, so that `now - respawn_time` is not negative.
unfoldable pub catch_runaway : ℕ → JobClass → Job → Job × Bool
catch_runaway now class job =
    if not (class.respawn_limit == 0) && not (class.respawn_interval == 0)
    then if ltb (now - job.respawn_time) class.respawn_interval
      then (
        record job { respawn_count = job.respawn_count + 1 },
        ltb class.respawn_limit (job.respawn_count + 1),
      )
      else (record job { respawn_time = now; respawn_count = 1 }, false)
    else (job, false)

module _ (s : Surroundings) (class : JobClass) (self : ℕ) where
  abbrev runs : ProcessType → Job → Bool
  runs p job = class.process p && ltb 0 (job.pid p)

  -- Another process runs whose end is waited for instead.
  abbrev pub waits_for_other : Job → Bool
  waits_for_other job =
      (state_is job.state job_post_start && runs process_post_start job)
      || (state_is job.state job_pre_stop && runs process_pre_stop job)

  -- Respawned services have no normal exit status by default; the class can name some in any case.
  unfoldable pub main_failed : ℕ → Bool
  unfolding is_normal
  main_failed status =
      (not (length class.normalexit == 0 && status == 0) || (class.respawn && not class.task))
      && not (is_normal status class.normalexit)

  -- `state` tells whether the state is to change.
  unfoldable pub respawn_main : Bool → World → Run (Verdict × World)
  unfolding job_change_goal job_change_state
  respawn_main state w =
      (if state then done w else job_change_goal s class self job_respawn w) >>= λ w'.
      if state_is w'.job.state job_spawned
      then (job_change_state s class self (enough s class self) job_stopping w' >>= λ w''.
          done (verdict false false false, w''))
      else done (verdict false false state, w')

  unfoldable pub fail_main : Moment → Bool → World → Run (Verdict × World)
  unfolding catch_runaway respawn_main job_failed
  fail_main moment state w =
      let (job, runaway) = catch_runaway moment.now class w.job in
      let caught = record w { job = job } in
      if runaway
      then (job_failed none (some 0) caught >>= λ w'. done (verdict false true state, w'))
      else respawn_main state caught

  unfoldable pub judge_main : ℕ → Moment → World → Run (Verdict × World)
  unfolding main_failed fail_main
  judge_main status moment w =
      let state = not (waits_for_other w.job) in
      assert (may_lose_main w.job.state) (
        if state_is w.job.state job_killed
        then done (verdict false false state, w)
        else if state_is w.job.state job_stopping
        then done (verdict false false false, w)
        else if not (goal_is w.job.goal job_start)
        then done (verdict false false state, w)
        else if not (main_failed status) || not class.respawn || moment.disable_respawn
        then done (verdict (main_failed status) true state, w)
        else fail_main moment state w)

  -- A script whose failure fails the job.
  abbrev judge_script : JobState → ℕ → World → Run (Verdict × World)
  judge_script st status w =
      assert (state_is w.job.state st)
        (done (verdict (not (status == 0)) (not (status == 0)) true, w))

  unfoldable pub judge : ProcessType → ℕ → Moment → World → Run (Verdict × World)
  unfolding judge_main
  judge process_main status moment w = judge_main status moment w
  judge process_security status moment w = judge_script job_security status w
  judge process_pre_start status moment w = judge_script job_pre_start status w
  judge process_post_start status moment w =
      assert (state_is w.job.state job_post_start || state_is w.job.state job_running)
        (done (verdict false false true, w))
  judge process_pre_stop status moment w =
      assert (state_is w.job.state job_pre_stop) (done (verdict false false true, w))
  judge process_post_stop status moment w = judge_script job_post_stop status w

  -- The kill timer is cancelled, and the process forgotten.
  unfoldable pub clear_process : ProcessType → Bool → World → World
  clear_process p state_only w = record w {
    job = record (w.job) {
      kill_process = none;
      pid = if state_only then w.job.pid else (λ q. if process_is p q then 0 else w.job.pid q);
    };
  }

  unfoldable pub change_state : Bool → World → Run World
  unfolding advance
  change_state state w = if state then advance s class self w else done w

  unfoldable pub stop_job : Bool → Bool → World → Run World
  unfolding job_change_goal change_state
  stop_job stop state w =
      if stop
      then (job_change_goal s class self job_stop w >>= λ w'.
          if state_is w'.job.state job_running then done w' else change_state state w')
      else change_state state w

  unfoldable pub conclude : ProcessType → ℕ → Bool → Verdict → World → Run World
  unfolding clear_process stop_job job_failed
  conclude p status state_only v w =
      let cleared = clear_process p state_only w in
      (if v.failed then job_failed (some p) (some status) cleared else done cleared) >>= λ w'.
      if state_only && v.stop
      then assert (not v.failed) (stop_job false v.state w')
      else stop_job v.stop v.state w'

  -- While a child is set up, its status is kept in `process_data`, which is not modelled, for the
  -- call that follows when the child's pipe has been closed.
  unfoldable pub job_process_terminated : ProcessType → ℕ → Bool → Moment → World → Run World
  unfolding judge conclude
  job_process_terminated p status state_only moment w =
      if is_spawning w.job.state
      then assert moment.has_process_data (
          job_next_state class w >>= λ (st, w').
          done (record w' { job = record (w'.job) { state = st } }))
      else (judge p status moment w >>= λ (v, w'). conclude p status state_only v w')
