-- ===== src/Process/Restart.antt =====
-- A restart of a job whose class has a pre-stop process, up to the end of that process: job_restart
-- of init/job.c, then job_process_terminated of init/job_process.c.
use startup.Base.{
  ℕ, Bool, true, false, none, List, [], ◌∷◌, ◌++◌, append_assoc, if◌then◌else◌, ◌≡◌, refl, ap, ◌∙◌,
  subst,
}
use startup.Blocked.{Blocked, blocked_new, type_instance_restart_method}
use startup.Job.Emit.{Surroundings}
use startup.Job.Errors.{advance}
use startup.Job.Finished.Answers.{answers, job_finished_lem}
use startup.Job.{
  JobGoal, job_start, JobState, job_running, job_pre_stop, process_main, process_pre_stop, JobClass,
  Job, World, Run, done, emit_output, Output, reply, state_changed,
}
use startup.Job.State.{
  either_respawn, next_of, job_next_state, main_runs, enter_running, enter, go_after, go_on,
  job_change_state,
}
use startup.Job.State.Loop.{Settles, stays, turn}
use startup.Job.State.Start.Late.{starting_in}
use startup.Job.Requests.{accepted, request_restart}
use startup.Job.Requests.Restart.{waiting_message, restart_output, request_restart_waits}
use startup.Process.{
  Moment, judge, clear_process, change_state, stop_job, conclude, job_process_terminated,
}

-- What the outside sees of the end of the restart: whoever waits for it is answered.
abbrev pub ending : Bool → ℕ → List Output
ending wait message =
    state_changed job_running
    ∷ (if wait then reply (blocked_new type_instance_restart_method message) ∷ [] else [])

answers-waiting_message :
    (wait : Bool) (message : ℕ)
    → answers false (waiting_message wait type_instance_restart_method message)
      ≡ (if wait then reply (blocked_new type_instance_restart_method message) ∷ [] else [])
unfolding blocked_new
answers-waiting_message true message = refl
answers-waiting_message false message = refl

module _ (s : Surroundings) (class : JobClass) (self : ℕ) where
  -- The job runs again, nothing waits for it, its main process is still the one with this number,
  -- and this is what the outside has seen.
  abbrev pub RunsOn : Run World → ℕ → List Output → Type 0
  RunsOn r pid output =
      (w' : World) × (r ≡ done w')
      × (w'.job.state ≡ job_running)
      × (w'.job.goal ≡ job_start)
      × (w'.job.pid process_main ≡ pid)
      × (w'.job.blocking ≡ [])
      × (w'.output ≡ output)

  runs_again :
      (w : World)
      → Settles w
      → RunsOn
          (job_change_state s class self 20 job_running (starting_in job_pre_stop w))
          (w.job.pid process_main)
          (w.output ++ state_changed job_running ∷ answers false w.job.blocking)
  unfolding enter go_after enter_running
  runs_again w h =
      let entered = emit_output (state_changed job_running) (starting_in job_running w) in
      let cleared = record entered { job = record (entered.job) { stop_env = none } } in
      let (w', e, c, m, j, o, f) = job_finished_lem false cleared h.0 h.1 in
      let st = ap {B = JobState} (λ (x : Job). x.state) j in
      (
        w',
        turn s class self 19 job_running (starting_in job_pre_stop w) (go_on job_running w') refl
              refl (simp e)
            ∙ stays s class self 18 w' job_running st,
        st,
        ap {B = JobGoal} (λ (x : Job). x.goal) j,
        ap {B = ℕ} (λ (x : Job). x.pid process_main) j,
        ap {B = List Blocked} (λ (x : Job). x.blocking) j,
        o ∙ simp append_assoc,
      )

  pre_stop_ends :
      (status : ℕ) (moment : Moment) (w : World)
      → Settles w
      → RunsOn
          (job_process_terminated s class self process_pre_stop status false moment
            (starting_in job_pre_stop w))
          (w.job.pid process_main)
          (w.output ++ state_changed job_running ∷ answers false w.job.blocking)
  unfolding job_process_terminated judge conclude clear_process stop_job change_state advance
      job_next_state next_of either_respawn
  pre_stop_ends status moment w h =
      runs_again (clear_process s class self process_pre_stop false w) h

  -- A restart of a running job whose class has a pre-stop process does not end its main process: the
  -- request is accepted, and when the pre-stop process ends, whatever its status, the job is running
  -- again with the same main process and nothing waits for it. All that the outside sees from the
  -- request on is: whoever waited before is answered; the goal becomes stop, the pre-stop process is
  -- started, the goal becomes start, and a request that does not wait is answered; the job runs again,
  -- and then a request that waits is answered. So no signal is sent to a process. It holds for a job
  -- that no event blocks, whose main process runs, where whatever waits for it can be released.
  pub request_restart-pre_stop :
      (message status : ℕ) (wait : Bool) (moment : Moment) (w : World)
      → w.job.state ≡ job_running
      → w.job.goal ≡ job_start
      → w.job.blocker ≡ none
      → main_runs class w.job ≡ true
      → class.process process_pre_stop ≡ true
      → Settles w
      → (w₁ : World) × (request_restart s class self message wait w ≡ done (accepted w₁))
        × RunsOn
            (job_process_terminated s class self process_pre_stop status false moment w₁)
            (w.job.pid process_main)
            (((w.output ++ answers false w.job.blocking) ++ restart_output wait message)
              ++ ending wait message)
  request_restart-pre_stop message status wait moment w st g b m p h =
      let (w₁, e, kept, pid, held, out, h₁) =
        request_restart_waits s class self message wait w st g b m p h in
      let ended = job_process_terminated s class self process_pre_stop status false moment in
      let (w₂, f, state, goal, main, nothing, o) = pre_stop_ends status moment w₁ h₁ in
      (
        w₁,
        e,
        (
          w₂,
          subst (λ v. ended v ≡ done w₂) kept f,
          state,
          goal,
          main ∙ pid,
          nothing,
          o
              ∙ ap (λ bs. w₁.output ++ state_changed job_running ∷ answers false bs) held
              ∙ ap (λ t. w₁.output ++ state_changed job_running ∷ t)
                  (answers-waiting_message wait message)
              ∙ ap (λ t. t ++ ending wait message) out,
        ),
      )
