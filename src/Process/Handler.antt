-- ===== src/Process/Handler.antt =====
-- What job_process_handler of init/job_process.c does for a process that job_process_find has found:
-- ends, stops and the ptrace events of forks and execs. Messages are left out; what ptrace answers is
-- a parameter, and of its calls those that let a process go on are outputs.
use startup.Base.{
  ℕ, ◌+◌, ◌*◌, Bool, true, false, not, Option, none, some, ◌==◌, ◌&&◌, ◌||◌, ltb, if◌then◌else◌,
}
use startup.Job.Emit.{Surroundings}
use startup.Job.Errors.{advance}
use startup.Job.{
  job_spawning, job_spawned, ProcessType, process_main, expect_stop, expect_fork, ExpectType,
  TraceState, trace_none, trace_new, trace_new_child, trace_normal, trace_is, JobClass, Job, World,
  Run, done, assertion_failed, assert, state_is, process_is, emit_output, sigkill_sent,
  continue_signal_sent, ptrace_continue, ptrace_detach,
}
use startup.Process.{Moment, job_process_terminated}

-- The answers of ptrace to a call for a process.
pub record Ptrace : Type 0 where
  pub set_options : ℕ → Bool  -- whether PTRACE_SETOPTIONS succeeds
  pub event_message : ℕ → Option ℕ  -- PTRACE_GETEVENTMSG: the new child

-- NihChildEvents
pub data ChildEvent : Type 0 where
  child_exited child_killed child_dumped child_stopped child_continued child_trapped child_ptrace :
      ChildEvent

-- Only the main process of a job that is spawned is followed.
abbrev pub followed : ProcessType → Job → Bool
followed p job =
    process_is p process_main && (state_is job.state job_spawning || state_is job.state job_spawned)

abbrev pub followed_traced : ProcessType → Job → Bool
followed_traced p job = followed p job && trace_is job.trace_state trace_normal

abbrev pub expects_stop : ExpectType → Bool
expects_stop expect_stop = true
expects_stop _ = false

abbrev pub expects_fork : ExpectType → Bool
expects_fork expect_fork = true
expects_fork _ = false

abbrev pub set_trace : TraceState → World → World
set_trace t w = record w { job = record (w.job) { trace_state = t } }

module _ (s : Surroundings) (class : JobClass) (self : ℕ) (ptrace : Ptrace) where
  unfoldable pub job_process_stopped : ProcessType → World → Run World
  unfolding advance
  job_process_stopped p w =
      if followed p w.job && expects_stop class.expect
      then advance s class self (emit_output (continue_signal_sent (w.job.pid p)) w)
      else done w

  unfoldable pub job_process_trace_new : ProcessType → World → Run World
  job_process_trace_new p w =
      assert (trace_is w.job.trace_state trace_new || trace_is w.job.trace_state trace_new_child) (
        if followed p w.job && ptrace.set_options (w.job.pid p)
        then done (emit_output (ptrace_continue (w.job.pid p) 0) (set_trace trace_normal w))
        else done w)

  -- Whether a fork, counted, is the last one that the class expects.
  abbrev pub last_fork : ℕ → Bool
  last_fork forks = ltb 1 forks || expects_fork class.expect

  unfoldable pub job_process_trace_new_child : ProcessType → World → Run World
  unfolding job_process_trace_new advance
  job_process_trace_new_child p w = assert (trace_is w.job.trace_state trace_new_child) (
      let counted = record w { job = record (w.job) { trace_forks = w.job.trace_forks + 1 } } in
      if not (followed p w.job)
      then done w
      else if last_fork (w.job.trace_forks + 1)
      then advance s class self
          (emit_output (ptrace_detach (w.job.pid p)) (set_trace trace_none counted))
      else job_process_trace_new p counted)

  unfoldable pub job_process_trace_signal : ProcessType → ℕ → World → Run World
  job_process_trace_signal p signum w =
      if followed_traced p w.job
      then done (emit_output (ptrace_continue (w.job.pid p) signum) w)
      else done w

  -- The child takes the place of the process that called fork.
  abbrev pub follow_child : ProcessType → ℕ → World → World
  follow_child p child w = emit_output (ptrace_detach (w.job.pid p)) (record w {
    job = record (w.job) {
      pid = λ q. if process_is p q then child else w.job.pid q;
      trace_state = trace_new_child;
    };
  })

  unfoldable pub job_process_trace_fork : ProcessType → World → Run World
  unfolding job_process_trace_new_child
  job_process_trace_fork p w =
      if followed_traced p w.job
      then elim (ptrace.event_message (w.job.pid p)) [
        | none ↦ done w
        | some child ↦
            if ptrace.set_options child
            then job_process_trace_new_child p (follow_child p child w)
            else done (follow_child p child w)
      ]
      else done w

  unfoldable pub job_process_trace_exec : ProcessType → World → Run World
  unfolding advance
  job_process_trace_exec p w =
      if followed_traced p w.job
      then (if w.job.trace_forks == 0
          then done (emit_output (ptrace_continue (w.job.pid p) 0) w)
          else advance s class self
              (emit_output (ptrace_detach (w.job.pid p)) (set_trace trace_none w)))
      else done w

  -- SIGTRAP is 5 and SIGSTOP 19.
  unfoldable pub trapped : ProcessType → ℕ → World → Run World
  unfolding job_process_trace_new job_process_trace_new_child job_process_trace_signal
  trapped p status w =
      if trace_is w.job.trace_state trace_new && status == 5
      then job_process_trace_new p w
      else if trace_is w.job.trace_state trace_new_child && status == 19
      then job_process_trace_new_child p w
      else job_process_trace_signal p status w

  -- PTRACE_EVENT_FORK is 1 and PTRACE_EVENT_EXEC 4.
  unfoldable pub syscall : ProcessType → ℕ → World → Run World
  unfolding job_process_trace_fork job_process_trace_exec
  syscall p status w =
      if status == 1
      then job_process_trace_fork p w
      else if status == 4
      then job_process_trace_exec p w
      else assertion_failed

  -- The signal of a process that was killed stands in the higher byte of its status.
  unfoldable pub job_process_handler : ProcessType → ChildEvent → ℕ → Moment → World → Run World
  unfolding job_process_stopped trapped syscall
  job_process_handler p child_exited status moment w =
      job_process_terminated s class self p status false moment w
  job_process_handler p child_killed status moment w =
      job_process_terminated s class self p (status * 256) false moment w
  job_process_handler p child_dumped status moment w =
      job_process_terminated s class self p (status * 256) false moment w
  job_process_handler p child_stopped status moment w =
      if status == 19 then job_process_stopped p w else done w
  job_process_handler p child_continued status moment w = done w
  job_process_handler p child_trapped status moment w = trapped p status w
  job_process_handler p child_ptrace status moment w = syscall p status w

-- The callback of the kill timer: the process did not end in time.
unfoldable pub job_process_kill_timer : World → Run World
job_process_kill_timer w = elim w.job.kill_process [
  | none ↦ assertion_failed
  | some p ↦ assert (ltb 0 (w.job.pid p)) (
      done (
        emit_output (sigkill_sent (w.job.pid p))
          (record w { job = record (w.job) { kill_process = none } })))
]
