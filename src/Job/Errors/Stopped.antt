-- ===== src/Job/Errors/Stopped.antt =====
-- A start that fails because a process of the job cannot be started.
use startup.Base.{
  ℕ, Bool, true, false, Option, none, some, is_some, [], if◌then◌else◌, ◌≡◌, refl, ap, ◌∙◌, arith,
  subst,
}
use startup.Job.Emit.{Surroundings}
use startup.Job.Finished.Answers.{AllWait, IsCovered, job_failed_lem}
use startup.Job.{
  JobGoal, job_stop, job_start, JobState, job_pre_start, job_spawned, job_stopping, job_security,
  ProcessType, process_main, process_security, process_pre_start, JobClass, Job, World, Run, done,
  ◌>>=◌, process_is, emit_output, goal_changed,
}
use startup.Job.State.{either, next_of, job_next_state, set_goal, induct, job_change_goal}
use startup.Job.State.Goal.{to_stopping}
use startup.Job.Errors.{advance, stop_failed, handle_error, job_child_error_handler}

-- The two processes that a start cannot do without, and the states that wait for them.
abbrev pub needed : Bool → ProcessType
needed true = process_pre_start
needed false = process_main

abbrev pub waits_for : Bool → JobState
waits_for true = job_pre_start
waits_for false = job_spawned

-- A job in that state, that is to start, for which nothing waits any more.
abbrev failing_in : Bool → World → World
failing_in early w = record w {
  job = record (w.job) { state = waits_for early; goal = job_start; blocker = none; blocking = [] };
}

module _ (s : Surroundings) (class : JobClass) (self : ℕ) where
  -- The call returns with the job blocked in the stopping state.
  abbrev pub Stopping : Run World → Type 0
  Stopping r =
      (w' : World) × (r ≡ done w')
      × (w'.job.state ≡ job_stopping)
      × (w'.job.goal ≡ job_stop)
      × (is_some w'.job.blocker ≡ true)

  abbrev stop_now : World → Run World
  stop_now w = job_change_goal s class self job_stop w >>= advance s class self

  stop_failing : (early : Bool) (w : World) → Stopping (stop_now (failing_in early w))
  unfolding job_change_goal induct set_goal advance job_next_state next_of either
  stop_failing true w =
      let begun = emit_output (goal_changed job_stop) (failing_in true w) in
      let (w', e, st, g, fr, bl) =
        to_stopping s class self 18 begun job_pre_start refl refl (tt, (λ i. omega arith), refl) in
      (w', e, st, g, bl)
  stop_failing false w =
      let begun = emit_output (goal_changed job_stop) (failing_in false w) in
      let (w', e, st, g, fr, bl) =
        to_stopping s class self 18 begun job_spawned refl refl (tt, (λ i. omega arith), refl) in
      (w', e, st, g, bl)

  stop_after :
      (early : Bool) (w : World)
      → w.job.state ≡ waits_for early
      → w.job.goal ≡ job_start
      → w.job.blocker ≡ none
      → w.job.blocking ≡ []
      → Stopping (stop_now w)
  stop_after early w st g b l =
      let e : failing_in early w ≡ w = rw (st, g, b, l) refl in
      subst (λ v. Stopping (stop_now v)) e (stop_failing early w)

  handle_needed :
      (early : Bool) (w : World)
      → handle_error s class self (needed early) w
        ≡ (stop_failed s class self (needed early) w >>= advance s class self)
  unfolding handle_error
  handle_needed true w = refl
  handle_needed false w = refl

  -- Where the pre-start process or the main process of a job that waits for it cannot be started,
  -- and the job has not failed before, job_child_error_handler takes the job to the stopping state,
  -- its goal changed to stop, and blocks it there for its event; no assertion fails. It holds where
  -- no event blocks the job, and only messages wait for it and events that count enough blockers.
  pub job_child_error_handler-needed :
      (early : Bool) (w : World)
      → w.job.state ≡ waits_for early
      → w.job.goal ≡ job_start
      → w.job.blocker ≡ none
      → w.job.failed ≡ false
      → AllWait w.job.blocking
      → IsCovered w.job.blocking w.events.store
      → Stopping (job_child_error_handler s class self (needed early) w)
  unfolding job_child_error_handler stop_failed
  job_child_error_handler-needed early w st g b f h cover =
      let p = needed early in
      let gone = record w {
        job = record (w.job) { pid = λ q. if process_is p q then 0 else w.job.pid q };
      } in
      let (w₁, e₁, j₁, o₁, m₁, n₁) = job_failed_lem (some p) none gone f h cover in
      let (w', e, st', g', b') =
        stop_after early w₁ (ap {B = JobState} (λ (j : Job). j.state) j₁ ∙ st)
          (ap {B = JobGoal} (λ (j : Job). j.goal) j₁ ∙ g)
          (ap {B = Option ℕ} (λ (j : Job). j.blocker) j₁ ∙ b) (ap (λ (j : Job). j.blocking) j₁) in
      (w', handle_needed early gone ∙ rw e₁ e, st', g', b')

  -- Where the security process of a job that waits for it cannot be started, and the job has not
  -- failed before, the failure is recorded and the goal is stop, but the job stays in the security
  -- state, and has no security process there. It holds where only messages wait for the job and
  -- events that count enough blockers.
  pub job_child_error_handler-security :
      (w : World)
      → w.job.state ≡ job_security
      → w.job.goal ≡ job_start
      → w.job.failed ≡ false
      → AllWait w.job.blocking
      → IsCovered w.job.blocking w.events.store
      → (w' : World) × (job_child_error_handler s class self process_security w ≡ done w')
        × (w'.job.state ≡ job_security)
        × (w'.job.goal ≡ job_stop)
        × (w'.job.failed ≡ true)
        × (w'.job.pid process_security ≡ 0)
  unfolding job_child_error_handler handle_error stop_failed job_change_goal induct set_goal
  job_child_error_handler-security w st g f h cover =
      let gone = record w {
        job = record (w.job) {
          pid = λ q. if process_is process_security q then 0 else w.job.pid q;
        };
      } in
      let (w₁, e₁, j₁, o₁, m₁, n₁) = job_failed_lem (some process_security) none gone f h cover in
      let st₁ : w₁.job.state ≡ job_security = ap {B = JobState} (λ (j : Job). j.state) j₁ ∙ st in
      let g₁ : w₁.job.goal ≡ job_start = ap {B = JobGoal} (λ (j : Job). j.goal) j₁ ∙ g in
      let stopped =
        emit_output (goal_changed job_stop)
          (record w₁ { job = record (w₁.job) { goal = job_stop } }) in
      (
        stopped,
        rw e₁ (simp (g₁, st₁)),
        st₁,
        refl,
        ap {B = Bool} (λ (j : Job). j.failed) j₁,
        ap {B = ℕ} (λ (j : Job). j.pid process_security) j₁,
      )
