-- ===== src/Job/Errors.antt =====
-- job_child_error_handler of init/job.c: a process of the job could not be started. It comes to rest
-- like every other change of state.
pub mod Stopped
use startup.Base.{ℕ, Option, none, some, ◌==◌, if◌then◌else◌}
use startup.Job.Emit.{Surroundings}
use startup.Job.Finished.{job_failed}
use startup.Job.{
  JobGoal, job_stop, ProcessType, process_main, process_pre_start, process_post_start,
  process_pre_stop, process_post_stop, process_security, JobClass, Job, World, Run, ◌>>=◌,
  process_is,
}
use startup.Job.State.{job_next_state, job_change_state, enough, job_change_goal}

module _ (s : Surroundings) (class : JobClass) (self : ℕ) where
  -- `job_change_state (job, job_next_state (job))`
  unfoldable pub advance : World → Run World
  advance w = job_next_state class w >>= λ (target, w').
      job_change_state s class self (enough s class self) target w'

  unfoldable pub stop_failed : ProcessType → World → Run World
  stop_failed p w = job_failed (some p) none w >>= λ w'. job_change_goal s class self job_stop w'

  unfoldable pub handle_error : ProcessType → World → Run World
  unfolding advance stop_failed
  handle_error process_security w = stop_failed process_security w
  handle_error process_pre_start w = stop_failed process_pre_start w >>= advance
  handle_error process_main w = stop_failed process_main w >>= advance
  handle_error process_post_start w = advance w
  handle_error process_pre_stop w = advance w
  handle_error process_post_stop w = stop_failed process_post_stop w >>= advance

  unfoldable pub job_child_error_handler : ProcessType → World → Run World
  unfolding handle_error
  job_child_error_handler p w =
      handle_error p
        (record w { job = record (w.job) { pid = λ q. if process_is p q then 0 else w.job.pid q } })
