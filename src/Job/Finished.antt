-- ===== src/Job/Finished.antt =====
-- job_finished and job_failed of init/job.c, and the parts of init/job_process.c that start and kill
-- a job's process, as far as they change the job: the fork, the pipes and the log are left out, and
-- the new pid comes from the surroundings.
pub mod Answers
use startup.Base.{
  ℕ, Bool, true, false, not, Option, none, some, is_some, List, [], ◌∷◌, ◌++◌, ◌==◌, ◌&&◌, ◌||◌,
  ltb, if◌then◌else◌,
}
use startup.Blocked.{
  Blocked, BlockedType, type_job, type_event, type_emit_method, type_job_start_method,
  type_job_stop_method, type_job_restart_method, type_instance_start_method,
  type_instance_stop_method, type_instance_restart_method,
}
use startup.Event.{Event, Events, Store, store_event, event_unblock}
use startup.Job.Emit.{Surroundings}
use startup.Job.{
  ProcessType, process_main, expect_daemon, expect_fork, ExpectType, expect_none, expect_stop,
  expect_readyfd, trace_none, trace_new, JobClass, Job, World, Run, done, assertion_failed,
  diverges, ◌>>=◌, assert, checked, emit_output, failed_signal, reply, error_reply, process_started,
  kill_signal_sent, process_is,
}

-- `blocked->event->failed = TRUE`
unfoldable pub mark_failed : Bool → ℕ → Store → Store
mark_failed false event st = st
mark_failed true event st = store_event event (record (st event) { failed = true }) st

abbrev pub answer : Bool → Blocked → World → World
answer true b w = emit_output (error_reply b) w
answer false b w = emit_output (reply b) w

-- One entry of `job->blocking`. A job or an Emit method never stands there.
unfoldable pub finish_one : BlockedType → Bool → Blocked → World → Run World
unfolding mark_failed
finish_one type_event failed b w =
    checked (event_unblock b.address (mark_failed failed b.address w.events.store)) >>= λ st.
    done (record w { events = record (w.events) { store = st } })
finish_one type_job failed b w = assertion_failed
finish_one type_emit_method failed b w = assertion_failed
finish_one type_job_start_method failed b w = done (answer failed b w)
finish_one type_job_stop_method failed b w = done (answer failed b w)
finish_one type_job_restart_method failed b w = done (answer failed b w)
finish_one type_instance_start_method failed b w = done (answer failed b w)
finish_one type_instance_stop_method failed b w = done (answer failed b w)
finish_one type_instance_restart_method failed b w = done (answer failed b w)

unfoldable pub finish_all : Bool → List Blocked → World → Run World
finish_all failed [] w = done w
finish_all failed (b ∷ bs) w = finish_one b.type failed b w >>= λ w'. finish_all failed bs w'

-- Every entry is freed, so that the list is empty in the end.
unfoldable pub job_finished : Bool → World → Run World
job_finished failed w = finish_all failed w.job.blocking w >>= λ w'.
    done (record w' { job = record (w'.job) { blocking = [] } })

unfoldable pub job_failed : Option ProcessType → Option ℕ → World → Run World
job_failed process status w =
    if w.job.failed
    then done w
    else job_finished true (
        emit_output (failed_signal status) (record w {
          job = record (w.job) { failed = true; failed_process = process; exit_status = status };
        }))

abbrev pub traced : ExpectType → Bool
traced expect_daemon = true
traced expect_fork = true
traced expect_none = false
traced expect_stop = false
traced expect_readyfd = false

module _ (s : Surroundings) (class : JobClass) where
  -- The class must have the process.
  unfoldable pub job_process_start : ProcessType → World → Run World
  job_process_start p w = assert (class.process p) (
      done (
        emit_output (process_started p) (record w {
          job = record (w.job) {
            pid = λ q. if process_is p q then s.spawn p else w.job.pid q;
            trace_forks = 0;
            trace_state =
                if process_is p process_main && traced class.expect then trace_new else trace_none;
          };
        })))

  unfoldable pub job_process_set_kill_timer : ProcessType → World → Run World
  job_process_set_kill_timer p w = assert (not (class.kill_timeout == 0)) (
      assert (not (is_some w.job.kill_process))
        (done (record w { job = record (w.job) { kill_process = some p } })))

  -- The timer is set only if the signal could be sent.
  unfoldable pub job_process_kill : ProcessType → World → Run World
  unfolding job_process_set_kill_timer
  job_process_kill p w = assert (ltb 0 (w.job.pid p)) (
      assert (not (is_some w.job.kill_process)) (
        if s.kill_succeeds
        then job_process_set_kill_timer p (emit_output (kill_signal_sent p (w.job.pid p)) w)
        else done w))
