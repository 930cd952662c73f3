-- ===== src/Job/Requests/Begin.antt =====
-- What job_start and job_stop of init/job.c do before they return.
use startup.Base.{ℕ, Bool, true, false, none, is_some, Option, ◌≡◌, refl, ap, ◌∙◌}
use startup.Blocked.{type_instance_start_method, type_instance_stop_method}
use startup.Job.Emit.{Surroundings}
use startup.Job.{
  JobGoal, job_start, job_stop, JobState, job_waiting, job_starting, job_running, job_stopping,
  ProcessType, JobClass, Job, World, Run, done, goal_is, state_is,
}
use startup.Job.State.{job_change_goal}
use startup.Job.State.Loop.{Settles}
use startup.Job.State.Goal.{rest_stop, job_change_goal-start, job_change_goal-stop}
use startup.Job.Requests.{Answer, accepted, reply_now, release, request_start, request_stop}
use startup.Job.Requests.Restart.{release_lem}

module _ (s : Surroundings) (class : JobClass) (self : ℕ) where
  -- The request is accepted, with the job in this state with this goal, blocked if that is `blocked`.
  abbrev pub Accepted : Run Answer → JobState → JobGoal → JobState → Type 0
  Accepted r st goal blocked =
      (w' : World) × (r ≡ done (accepted w'))
      × (w'.job.state ≡ st)
      × (w'.job.goal ≡ goal)
      × (is_some w'.job.blocker ≡ state_is st blocked)

  accept :
      (r : Run Answer) (wait : Bool) (message : ℕ) (w : World) (st : JobState) (goal : JobGoal)
      (blocked : JobState)
      → r ≡ done (accepted (reply_now wait message w))
      → w.job.state ≡ st
      → w.job.goal ≡ goal
      → is_some w.job.blocker ≡ state_is st blocked
      → Accepted r st goal blocked
  accept r true message w st goal blocked e es eg eb = (w, e, es, eg, eb)
  accept r false message w st goal blocked e es eg eb = (reply_now false message w, e, es, eg, eb)

  start_steps :
      (message : ℕ) (wait : Bool) (w w₁ w₂ : World)
      → w.job.goal ≡ job_stop
      → release wait type_instance_start_method message
          (record w { job = record (w.job) { start_env = none } })
        ≡ done w₁
      → job_change_goal s class self job_start w₁ ≡ done w₂
      → request_start s class self message wait w ≡ done (accepted (reply_now wait message w₂))
  unfolding request_start
  start_steps message wait w w₁ w₂ g e₁ e₂ =
      let not_start : goal_is w.job.goal job_start ≡ false = rw g refl in simp (not_start, e₁, e₂)

  stop_steps :
      (message : ℕ) (wait : Bool) (w w₁ w₂ : World)
      → w.job.goal ≡ job_start
      → release wait type_instance_stop_method message
          (record w { job = record (w.job) { stop_env = none } })
        ≡ done w₁
      → job_change_goal s class self job_stop w₁ ≡ done w₂
      → request_stop s class self message wait w ≡ done (accepted (reply_now wait message w₂))
  unfolding request_stop
  stop_steps message wait w w₁ w₂ g e₁ e₂ =
      let not_stop : goal_is w.job.goal job_stop ≡ false = rw g refl in simp (not_stop, e₁, e₂)

  rest_stop_eq :
      (w w' : World) → w.job.pid ≡ w'.job.pid → rest_stop s class self w ≡ rest_stop s class self w'
  rest_stop_eq w w' e = rw e refl

  -- A request to start a waiting job is accepted, with the job blocked in the starting state by its
  -- event, whether the caller waits or not. It holds for a job that no event blocks, where whatever
  -- waits for it can be released.
  pub request_start-waiting :
      (message : ℕ) (wait : Bool) (w : World)
      → w.job.state ≡ job_waiting
      → w.job.goal ≡ job_stop
      → w.job.blocker ≡ none
      → Settles w
      → Accepted (request_start s class self message wait w) job_starting job_start job_starting
  request_start-waiting message wait w st g b h =
      let cleared = record w { job = record (w.job) { start_env = none } } in
      let (w₁, e₁, j, o₁, h₁) =
        release_lem wait type_instance_start_method message cleared refl (λ i. refl) h.0 h.1 in
      let (w₂, e₂, st₂, g₂, f₂, b₂) =
        job_change_goal-start s class self w₁ (ap {B = JobState} (λ (x : Job). x.state) j ∙ st)
          (ap {B = JobGoal} (λ (x : Job). x.goal) j ∙ g)
          (ap {B = Option ℕ} (λ (x : Job). x.blocker) j ∙ b) h₁ in
      accept _ wait message w₂ job_starting job_start job_starting
        (start_steps message wait w w₁ w₂ g e₁ e₂) st₂ g₂ b₂

  -- A request to stop a running job is accepted, with the job in pre-stop if its main process runs and
  -- the class has that process, and else blocked in the stopping state by its event. It holds for a
  -- job that no event blocks, where whatever waits for it can be released.
  pub request_stop-running :
      (message : ℕ) (wait : Bool) (w : World)
      → w.job.state ≡ job_running
      → w.job.goal ≡ job_start
      → w.job.blocker ≡ none
      → Settles w
      → Accepted
          (request_stop s class self message wait w)
          (rest_stop s class self w)
          job_stop
          job_stopping
  request_stop-running message wait w st g b h =
      let cleared = record w { job = record (w.job) { stop_env = none } } in
      let (w₁, e₁, j, o₁, h₁) =
        release_lem wait type_instance_stop_method message cleared refl (λ i. refl) h.0 h.1 in
      let same = rest_stop_eq w₁ w (ap {B = ProcessType → ℕ} (λ (x : Job). x.pid) j) in
      let (w₂, e₂, st₂, g₂, f₂, b₂) =
        job_change_goal-stop s class self w₁ (ap {B = JobState} (λ (x : Job). x.state) j ∙ st)
          (ap {B = JobGoal} (λ (x : Job). x.goal) j ∙ g)
          (ap {B = Option ℕ} (λ (x : Job). x.blocker) j ∙ b) h₁ in
      accept _ wait message w₂ (rest_stop s class self w) job_stop job_stopping
        (stop_steps message wait w w₁ w₂ g e₁ e₂) (st₂ ∙ same) g₂
        (b₂ ∙ ap (λ (x : JobState). state_is x job_stopping) same)
