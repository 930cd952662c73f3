-- ===== src/Job/Requests.antt =====
-- The requests of the control interface for a job instance: job_start, job_stop and job_restart of
-- init/job.c, as built without cgroups. A message is an address.
pub mod Restart
pub mod Begin
use startup.Base.{ℕ, Bool, true, false, none, List, [], ◌∷◌, ◌++◌, if◌then◌else◌}
use startup.Blocked.{
  BlockedType, Blocked, blocked_new, type_instance_start_method, type_instance_stop_method,
  type_instance_restart_method,
}
use startup.Job.Emit.{Surroundings}
use startup.Job.Finished.{job_finished}
use startup.Job.{
  job_start, job_stop, JobClass, Job, World, Run, done, ◌>>=◌, goal_is, emit_output, method_reply,
}
use startup.Job.State.{job_change_goal}

-- Zero, or the D-Bus error that is raised.
pub data Answer : Type 0 where
  accepted : World → Answer
  already_started already_stopped : Answer

abbrev pub add_blocked : Bool → BlockedType → ℕ → World → World
add_blocked true type message w = record w {
  job = record (w.job) { blocking = w.job.blocking ++ blocked_new type message ∷ [] };
}
add_blocked false type message w = w

-- A message that is not to wait is answered at once.
abbrev pub reply_now : Bool → ℕ → World → World
reply_now true message w = w
reply_now false message w = emit_output (method_reply message) w

-- What waited for the job before is told that it has finished.
unfoldable pub release : Bool → BlockedType → ℕ → World → Run World
unfolding job_finished
release wait type message w = job_finished false w >>= λ w'. done (add_blocked wait type message w')

module _ (s : Surroundings) (class : JobClass) (self : ℕ) where
  unfoldable pub request_start : ℕ → Bool → World → Run Answer
  unfolding release job_change_goal
  request_start message wait w =
      if goal_is w.job.goal job_start
      then done already_started
      else (release wait type_instance_start_method message
            (record w { job = record (w.job) { start_env = none } })
          >>= λ w₁. job_change_goal s class self job_start w₁ >>= λ w₂.
              done (accepted (reply_now wait message w₂)))

  unfoldable pub request_stop : ℕ → Bool → World → Run Answer
  unfolding release job_change_goal
  request_stop message wait w =
      if goal_is w.job.goal job_stop
      then done already_stopped
      else (release wait type_instance_stop_method message
            (record w { job = record (w.job) { stop_env = none } })
          >>= λ w₁. job_change_goal s class self job_stop w₁ >>= λ w₂.
              done (accepted (reply_now wait message w₂)))

  unfoldable pub request_restart : ℕ → Bool → World → Run Answer
  unfolding release job_change_goal
  request_restart message wait w =
      if goal_is w.job.goal job_stop
      then done already_stopped
      else (release wait type_instance_restart_method message
            (record w { job = record (w.job) { start_env = none; stop_env = none } })
          >>= λ w₁. job_change_goal s class self job_stop w₁ >>= λ w₂.
              job_change_goal s class self job_start w₂ >>= λ w₃.
              done (accepted (reply_now wait message w₃)))
